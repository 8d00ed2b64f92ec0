-- ===== src/Config/Normalize.antt =====
-- internal/config/config.go, `Default` and `Normalize`.
pub mod Ready
use ycfrp.Base.{
  String, Bool, true, false, not, ◌||◌, List, [], ◌∷◌, ℤ, pos, is_pos, exceeds, ◌==◌, if◌then◌else◌,
  trim_space,
}
use ycfrp.Config.{FrpsConfig, FrpcConfig}
use ycfrp.Config.Channels.{QqNotifierConfig}
use ycfrp.Config.Document.{Floats, NotifyConfig, UiConfig, UpdateConfig, MonitorConfig, PanelConfig}

-- `def` in place of a value that is missing
abbrev pub fill {ℓ} : {A : Type ℓ} → (A → Bool) → A → A → A
fill missing def x = if missing x then def else x

abbrev pub no_text : String → Bool
no_text s = s == ""

abbrev pub not_pos : ℤ → Bool
not_pos n = not (is_pos n)

abbrev pub no_port : ℤ → Bool
no_port n = not (is_pos n) || exceeds n 65535

abbrev pub blank_text : String → Bool
blank_text s = trim_space s == ""

-- the parts of `Default`
abbrev pub default_frps : FrpsConfig
default_frps = record {
  enable = true;
  bind_port = pos 7000;
  kcp_bind_port = pos 0;
  quic_bind_port = pos 0;
  dashboard_port = pos 7500;
  dashboard_user = "admin";
  dashboard_pwd = "admin";
  vhost_http_port = pos 8080;
  vhost_https_port = pos 8443;
  token = "";
  subdomain_host = "";
  max_ports_per_client = pos 100;
  allow_ports_start = pos 20000;
  allow_ports_end = pos 60000;
  log_level = "info";
  log_max_days = pos 7;
  bind_addr = "0.0.0.0";
  transport_tls = true;
}

abbrev pub default_frpc : FrpcConfig
default_frpc = record {
  enable = false;
  server_addr = "127.0.0.1";
  server_port = pos 7000;
  token = "";
  user = "";
  login_fail_exit = false;
  log_level = "info";
  log_max_days = pos 7;
  transport_tls = true;
  transport_proto = "tcp";
  use_encryption = false;
  use_compression = false;
}

unfoldable pub normalize_frps : FrpsConfig → FrpsConfig
normalize_frps c = record c {
  bind_port = fill not_pos default_frps.bind_port c.bind_port;
  bind_addr = fill no_text default_frps.bind_addr c.bind_addr;
  dashboard_port = fill not_pos default_frps.dashboard_port c.dashboard_port;
  dashboard_user = fill no_text default_frps.dashboard_user c.dashboard_user;
  dashboard_pwd = fill no_text default_frps.dashboard_pwd c.dashboard_pwd;
  log_level = fill no_text default_frps.log_level c.log_level;
  log_max_days = fill not_pos default_frps.log_max_days c.log_max_days;
}

unfoldable pub normalize_frpc : FrpcConfig → FrpcConfig
normalize_frpc c = record c {
  server_addr = fill no_text default_frpc.server_addr c.server_addr;
  server_port = fill not_pos default_frpc.server_port c.server_port;
  log_level = fill no_text default_frpc.log_level c.log_level;
  log_max_days = fill not_pos default_frpc.log_max_days c.log_max_days;
  transport_proto = fill no_text default_frpc.transport_proto c.transport_proto;
}

unfoldable pub normalize_qq : QqNotifierConfig → QqNotifierConfig
normalize_qq c = record c {
  protocol = fill no_text "onebot" c.protocol;
  host = fill no_text "127.0.0.1" c.host;
  port = fill not_pos (pos 5700) c.port;
}

unfoldable pub normalize_updates : UpdateConfig → UpdateConfig
unfolding trim_space
normalize_updates c = record c {
  latest_version = fill no_text "s2609.034" c.latest_version;
  channel = fill no_text "stable" c.channel;
  source_url = fill blank_text "https://ycfrp.yc1.cc.cd" c.source_url;
  check_interval_hours = fill not_pos (pos 6) c.check_interval_hours;
}

module _ {F : Type 0} (floats : Floats F) where
  unfoldable pub normalize_monitor : MonitorConfig F → MonitorConfig F
  normalize_monitor c = record c {
    interval_seconds = fill not_pos (pos 5) c.interval_seconds;
    retention_days = fill not_pos (pos 30) c.retention_days;
  }

  unfoldable pub normalize_ui : UiConfig F → UiConfig F
  normalize_ui c = record c {
    theme = fill no_text "dark" c.theme;
    accent_color = fill no_text "#4f8cff" c.accent_color;
    wallpaper = fill no_text "w1" c.wallpaper;
    site_name = fill no_text "YCFRP" c.site_name;
    wallpaper_opacity = fill floats.outside floats.one c.wallpaper_opacity;
    nav_layout = fill no_text "top" c.nav_layout;
    ui_style = fill no_text "default" c.ui_style;
  }

  unfoldable pub normalize_notify : NotifyConfig F → NotifyConfig F
  unfolding normalize_qq
  normalize_notify c = record c {
    qq = normalize_qq c.qq;
    quiet_minutes = fill not_pos (pos 5) c.quiet_minutes;
  }

  -- `Normalize`, given the secret that `randomHex` makes for `Default`
  unfoldable pub normalize : String → PanelConfig F → PanelConfig F
  unfolding normalize_frps normalize_frpc normalize_monitor normalize_ui normalize_notify
      normalize_updates
  normalize secret c = record c {
    port = fill no_port (pos 38080) c.port;
    username = fill no_text "admin" c.username;
    password = fill no_text "admin" c.password;
    jwt_secret = fill no_text secret c.jwt_secret;
    frps = normalize_frps c.frps;
    frpc = normalize_frpc c.frpc;
    monitor = normalize_monitor c.monitor;
    ui = normalize_ui c.ui;
    notify = normalize_notify c.notify;
    updates = normalize_updates c.updates;
  }
