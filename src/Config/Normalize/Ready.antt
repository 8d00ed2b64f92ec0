-- ===== src/Config/Normalize/Ready.antt =====
-- `Normalize` leaves a document that can be started from, and has nothing left to do on it.
use ycfrp.Base.{
  String, Bool, true, false, ◌≡◌, refl, ℤ, pos, is_pos, ◌==◌, inl, inr, Bool-cases, trim_space,
  trim_left, trim_right, is_space,
}
use ycfrp.Config.{FrpsConfig, FrpcConfig}
use ycfrp.Config.Channels.{QqNotifierConfig}
use ycfrp.Config.Document.{Floats, NotifyConfig, UiConfig, UpdateConfig, MonitorConfig, PanelConfig}
use ycfrp.Config.Normalize.{
  fill, no_text, not_pos, no_port, blank_text, default_frps, default_frpc, normalize_frps,
  normalize_frpc, normalize_qq, normalize_updates, normalize_monitor, normalize_ui,
  normalize_notify, normalize,
}

module _ {ℓ} {A : Type ℓ} (missing : A → Bool) (def x : A) where
  -- What is filled in is not missing.
  fill_found : missing def ≡ false → missing (fill missing def x) ≡ false
  fill_found h = elim (Bool-cases (missing x)) [ inl e ↦ rw e h | inr e ↦ rw e e ]

  fill_again : missing def ≡ false → fill missing def (fill missing def x) ≡ fill missing def x
  fill_again h = rw (fill_found h)

-- What is there is kept.
kept {ℓ} :
    {A : Type ℓ} (missing : A → Bool) (def x : A) → missing x ≡ false → fill missing def x ≡ x
kept missing def x h = rw h

fill_pos : (def x : ℤ) → is_pos def ≡ true → is_pos (fill not_pos def x) ≡ true
fill_pos def x h = elim (Bool-cases (is_pos x)) [ inl e ↦ rw e e | inr e ↦ rw e h ]

normalize_frps_again : (c : FrpsConfig) → normalize_frps (normalize_frps c) ≡ normalize_frps c
unfolding normalize_frps
normalize_frps_again c = λ i. record (normalize_frps c) {
  bind_port = fill_again not_pos default_frps.bind_port c.bind_port refl i;
  bind_addr = fill_again no_text default_frps.bind_addr c.bind_addr refl i;
  dashboard_port = fill_again not_pos default_frps.dashboard_port c.dashboard_port refl i;
  dashboard_user = fill_again no_text default_frps.dashboard_user c.dashboard_user refl i;
  dashboard_pwd = fill_again no_text default_frps.dashboard_pwd c.dashboard_pwd refl i;
  log_level = fill_again no_text default_frps.log_level c.log_level refl i;
  log_max_days = fill_again not_pos default_frps.log_max_days c.log_max_days refl i;
}

normalize_frpc_again : (c : FrpcConfig) → normalize_frpc (normalize_frpc c) ≡ normalize_frpc c
unfolding normalize_frpc
normalize_frpc_again c = λ i. record (normalize_frpc c) {
  server_addr = fill_again no_text default_frpc.server_addr c.server_addr refl i;
  server_port = fill_again not_pos default_frpc.server_port c.server_port refl i;
  log_level = fill_again no_text default_frpc.log_level c.log_level refl i;
  log_max_days = fill_again not_pos default_frpc.log_max_days c.log_max_days refl i;
  transport_proto = fill_again no_text default_frpc.transport_proto c.transport_proto refl i;
}

normalize_qq_again : (c : QqNotifierConfig) → normalize_qq (normalize_qq c) ≡ normalize_qq c
unfolding normalize_qq
normalize_qq_again c = λ i. record (normalize_qq c) {
  protocol = fill_again no_text "onebot" c.protocol refl i;
  host = fill_again no_text "127.0.0.1" c.host refl i;
  port = fill_again not_pos (pos 5700) c.port refl i;
}

normalize_updates_again :
    (c : UpdateConfig) → normalize_updates (normalize_updates c) ≡ normalize_updates c
unfolding normalize_updates trim_space trim_left trim_right is_space
normalize_updates_again c = λ i. record (normalize_updates c) {
  latest_version = fill_again no_text "s2609.034" c.latest_version refl i;
  channel = fill_again no_text "stable" c.channel refl i;
  source_url = fill_again blank_text "https://ycfrp.yc1.cc.cd" c.source_url refl i;
  check_interval_hours = fill_again not_pos (pos 6) c.check_interval_hours refl i;
}

module _ {F : Type 0} (floats : Floats F) where
  normalize_monitor_again :
      (c : MonitorConfig F)
      → normalize_monitor floats (normalize_monitor floats c) ≡ normalize_monitor floats c
  unfolding normalize_monitor
  normalize_monitor_again c = λ i. record (normalize_monitor floats c) {
    interval_seconds = fill_again not_pos (pos 5) c.interval_seconds refl i;
    retention_days = fill_again not_pos (pos 30) c.retention_days refl i;
  }

  normalize_ui_again :
      (c : UiConfig F) → normalize_ui floats (normalize_ui floats c) ≡ normalize_ui floats c
  unfolding normalize_ui
  normalize_ui_again c = λ i. record (normalize_ui floats c) {
    theme = fill_again no_text "dark" c.theme refl i;
    accent_color = fill_again no_text "#4f8cff" c.accent_color refl i;
    wallpaper = fill_again no_text "w1" c.wallpaper refl i;
    site_name = fill_again no_text "YCFRP" c.site_name refl i;
    wallpaper_opacity =
        fill_again floats.outside floats.one c.wallpaper_opacity floats.outside-one i;
    nav_layout = fill_again no_text "top" c.nav_layout refl i;
    ui_style = fill_again no_text "default" c.ui_style refl i;
  }

  normalize_notify_again :
      (c : NotifyConfig F)
      → normalize_notify floats (normalize_notify floats c) ≡ normalize_notify floats c
  unfolding normalize_notify
  normalize_notify_again c = λ i. record (normalize_notify floats c) {
    qq = normalize_qq_again c.qq i;
    quiet_minutes = fill_again not_pos (pos 5) c.quiet_minutes refl i;
  }

  -- What the panel needs of a document: a port that can be bound, a user with a password, a secret to
  -- sign sessions with, and the periods of its timers.
  abbrev pub IsReady : PanelConfig F → Type 0
  IsReady c =
      (no_port c.port ≡ false)
      × (no_text c.username ≡ false)
      × (no_text c.password ≡ false)
      × (no_text c.jwt_secret ≡ false)
      × (is_pos c.monitor.interval_seconds ≡ true)
      × (is_pos c.monitor.retention_days ≡ true)
      × (is_pos c.notify.quiet_minutes ≡ true)
      × (is_pos c.updates.check_interval_hours ≡ true)
      × (floats.outside c.ui.wallpaper_opacity ≡ false)

  -- `Normalize`, with a secret that is not empty to fill in, leaves a document that is ready, keeps the
  -- tokens of the server and of the client as they are, empty or not, and changes nothing when
  -- it is done again, whatever secret is at hand then.
  pub normalize-IsReady :
      (secret other : String) (c : PanelConfig F)
      → (secret == "") ≡ false
      → IsReady (normalize floats secret c)
        × ((normalize floats secret c).frps.token ≡ c.frps.token)
        × ((normalize floats secret c).frpc.token ≡ c.frpc.token)
        × (normalize floats other (normalize floats secret c) ≡ normalize floats secret c)
  unfolding normalize
  normalize-IsReady secret other c h = (
    (
      fill_found no_port (pos 38080) c.port refl,
      fill_found no_text "admin" c.username refl,
      fill_found no_text "admin" c.password refl,
      fill_found no_text secret c.jwt_secret h,
      fill_pos (pos 5) c.monitor.interval_seconds refl,
      fill_pos (pos 30) c.monitor.retention_days refl,
      fill_pos (pos 5) c.notify.quiet_minutes refl,
      fill_pos (pos 6) c.updates.check_interval_hours refl,
      fill_found floats.outside floats.one c.ui.wallpaper_opacity floats.outside-one,
    ),
    refl,
    refl,
    λ i. record (normalize floats secret c) {
      port = fill_again no_port (pos 38080) c.port refl i;
      username = fill_again no_text "admin" c.username refl i;
      password = fill_again no_text "admin" c.password refl i;
      jwt_secret = kept no_text other _ (fill_found no_text secret c.jwt_secret h) i;
      frps = normalize_frps_again c.frps i;
      frpc = normalize_frpc_again c.frpc i;
      monitor = normalize_monitor_again c.monitor i;
      ui = normalize_ui_again c.ui i;
      notify = normalize_notify_again c.notify i;
      updates = normalize_updates_again c.updates i;
    },
  )
