-- ===== src/Examples/Settings.antt =====
-- The settings document at an empty one.
use ycfrp.Base.{
  arith, ℕ, ◌*◌, true, false, none, some, [], ◌∷◌, ◌≡◌, refl, ltb, pos, to_lower, trim_space,
  trim_left, trim_right, is_space, contains, has_prefix, lookup, insert,
}
use ycfrp.Config.Document.{Floats, PanelConfig, NotifyConfig}
use ycfrp.Config.Normalize.{normalize}
use ycfrp.Config.Normalize.Ready.{IsReady, normalize-IsReady}
use ycfrp.Notify.{
  allowed, allow_rate, quiet_period, minutes_residue, should_notify_keyword, first_keyword,
}
use ycfrp.Notify.Rate.{IsSpaced, set_period, IsHit, allowed-IsSpaced, should_notify_keyword-IsHit}
use ycfrp.Examples.Data.{plain, no_server, no_client}

-- numbers without a fraction in place of the real ones
abbrev whole : Floats ℕ
whole = record { zero = 0; one = 1; outside = λ n. ltb 1 n; outside-one = refl }

-- a file that sets nothing, and an opacity that is out of range
abbrev blank : PanelConfig ℕ
blank = record {
  port = pos 0;
  username = "";
  password = "";
  jwt_secret = "";
  frps = no_server;
  frpc = no_client;
  monitor = record {
    enable = false;
    interval_seconds = pos 0;
    interface = "";
    retention_days = pos 0;
    monthly_quota_gb = 2;
  };
  notify = record {
    enable = false;
    qq = record {
      enable = false;
      protocol = "";
      host = "";
      port = pos 0;
      access_token = "";
      admin_qq = "";
      group_ids = [];
      push_enable = false;
    };
    qq_official = record {
      enable = false;
      app_id = "";
      app_secret = "";
      sandbox = false;
      group_open_ids = "";
      user_open_id = "";
      msg_id = "";
      proxy = "";
      listen = false;
      discovered = [];
    };
    wecom = record { enable = false; key = ""; mention_list = ""; mention_all = false };
    dingtalk = record {
      enable = false;
      webhook = "";
      secret = "";
      at_mobiles = "";
      at_all = false;
    };
    feishu = record { enable = false; webhook = ""; secret = "" };
    server_chan = record { enable = false; send_key = ""; channel = "" };
    bark = record { enable = false; server = ""; device_key = ""; sound = ""; group = "" };
    telegram = record { enable = false; bot_token = ""; chat_id = ""; proxy = "" };
    channels = [];
    monitor_errors = false;
    monitor_offline = false;
    monitor_traffic = false;
    traffic_limit_gb = 2;
    keywords = [];
    quiet_minutes = pos 0;
  };
  ui = record {
    theme = "";
    accent_color = "";
    wallpaper = "";
    wallpaper_url = "";
    wallpaper_opacity = 2;
    site_name = "";
    site_logo = "";
    site_footer = "";
    glass_effect = false;
    nav_layout = "";
    ui_style = "";
    online_wallpapers = [];
  };
  updates = record {
    latest_version = "";
    channel = "";
    allow_upload = false;
    source_url = "";
    proxy = "";
    check_enabled = false;
    check_interval_hours = pos 0;
    notify_on_update = false;
    last_check_at = "";
    last_seen_version = "";
  };
}

normalize-IsReady_example :
    IsReady whole (normalize whole "s1" blank)
    × ((normalize whole "s1" blank).frps.token ≡ "")
    × ((normalize whole "s1" blank).frpc.token ≡ "")
    × (normalize whole "s2" (normalize whole "s1" blank) ≡ normalize whole "s1" blank)
normalize-IsReady_example = normalize-IsReady whole "s1" "s2" blank refl

-- at most one in a minute
let_through :
    allowed
      (pos 1)
      "a"
      ((0, "a") ∷ (5, "b") ∷ (59 * 1000000000, "a") ∷ (60 * 1000000000, "a") ∷ [])
      []
    ≡ 0 ∷ 60000000000 ∷ []
unfolding allowed allow_rate quiet_period lookup insert
let_through = refl

allowed-IsSpaced_example : IsSpaced (set_period (pos 1)) none (
    allowed
      (pos 1)
      "a"
      ((0, "a") ∷ (5, "b") ∷ (59 * 1000000000, "a") ∷ (60 * 1000000000, "a") ∷ [])
      [])
allowed-IsSpaced_example =
    allowed-IsSpaced (pos 1) "a"
      ((0, "a") ∷ (5, "b") ∷ (59 * 1000000000, "a") ∷ (60 * 1000000000, "a") ∷ []) (omega arith)

-- One minute more than the product can hold makes it five.
wrapped_period : quiet_period (pos 153722868) ≡ 5 * 60000000000
unfolding quiet_period minutes_residue
wrapped_period = refl

-- watching for one word, among blank ones
abbrev pub watching : NotifyConfig ℕ
watching = record blank.notify {
  enable = true;
  monitor_errors = true;
  keywords = " " ∷ " Error " ∷ [];
}

watched : should_notify_keyword ⦃r = plain⦄ watching "an ERROR" ≡ some "Error"
unfolding should_notify_keyword first_keyword to_lower trim_space trim_left trim_right is_space
    contains has_prefix
watched = refl

should_notify_keyword-IsHit_example :
    (true ≡ false → should_notify_keyword ⦃r = plain⦄ watching "an ERROR" ≡ none)
    × IsHit ⦃r = plain⦄
        (to_lower ⦃r = plain⦄ "an ERROR")
        (should_notify_keyword ⦃r = plain⦄ watching "an ERROR")
should_notify_keyword-IsHit_example = should_notify_keyword-IsHit ⦃r = plain⦄ watching "an ERROR"
