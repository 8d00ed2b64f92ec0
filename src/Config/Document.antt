-- ===== src/Config/Document.antt =====
-- internal/config/config.go: the whole settings document, without its lock and its path. Go's
-- `float64` is a type of which only what the code asks is known.
use ycfrp.Base.{String, Bool, false, List, ℤ, ◌≡◌}
use ycfrp.Config.{FrpsConfig, FrpcConfig}
use ycfrp.Config.Channels.{
  QqNotifierConfig, QqOfficialConfig, WeComConfig, DingTalkConfig, FeishuConfig, ServerChanConfig,
  BarkConfig, TelegramConfig, NotifyChannel,
}

-- `float64`: the literals 0 and 1, and `x < 0 || x > 1`
pub record Floats (F : Type 0) : Type 0 where
  pub zero : F
  pub one : F
  pub outside : F → Bool
  pub outside-one : outside one ≡ false

-- `NotifyConfig`
pub record NotifyConfig (F : Type 0) : Type 0 where
  pub enable : Bool
  pub qq : QqNotifierConfig
  pub qq_official : QqOfficialConfig
  pub wecom : WeComConfig
  pub dingtalk : DingTalkConfig
  pub feishu : FeishuConfig
  pub server_chan : ServerChanConfig
  pub bark : BarkConfig
  pub telegram : TelegramConfig
  pub channels : List NotifyChannel
  pub monitor_errors : Bool
  pub monitor_offline : Bool
  pub monitor_traffic : Bool
  pub traffic_limit_gb : F
  pub keywords : List String
  pub quiet_minutes : ℤ

-- `UIConfig`
pub record UiConfig (F : Type 0) : Type 0 where
  pub theme : String
  pub accent_color : String
  pub wallpaper : String
  pub wallpaper_url : String
  pub wallpaper_opacity : F
  pub site_name : String
  pub site_logo : String
  pub site_footer : String
  pub glass_effect : Bool
  pub nav_layout : String
  pub ui_style : String
  pub online_wallpapers : List String

-- `UpdateConfig`
pub record UpdateConfig : Type 0 where
  pub latest_version : String
  pub channel : String
  pub allow_upload : Bool
  pub source_url : String
  pub proxy : String
  pub check_enabled : Bool
  pub check_interval_hours : ℤ
  pub notify_on_update : Bool
  pub last_check_at : String
  pub last_seen_version : String

-- `MonitorConfig`
pub record MonitorConfig (F : Type 0) : Type 0 where
  pub enable : Bool
  pub interval_seconds : ℤ
  pub interface : String
  pub retention_days : ℤ
  pub monthly_quota_gb : F

-- `Config`
pub record PanelConfig (F : Type 0) : Type 0 where
  pub port : ℤ
  pub username : String
  pub password : String
  pub jwt_secret : String
  pub frps : FrpsConfig
  pub frpc : FrpcConfig
  pub monitor : MonitorConfig F
  pub notify : NotifyConfig F
  pub ui : UiConfig F
  pub updates : UpdateConfig
