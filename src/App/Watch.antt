-- ===== src/App/Watch.antt =====
-- internal/app/app.go, `watchLoop` and `consumeLogs`: what is told of tunnels and of the log.
pub mod Quiet
use Prim.Native.String.{◌++◌}
use ycfrp.Base.{
  ℕ, String, Bool, true, false, not, ◌&&◌, ◌||◌, Option, none, some, List, [], ◌∷◌, ℤ, ◌==◌,
  if◌then◌else◌, Assoc, lookup, insert, Runes,
}
use ycfrp.Base
use ycfrp.Frp.Tunnel.{Tunnel, proxy_phase_label}
use ycfrp.Config.Document.{NotifyConfig}
use ycfrp.Notify.{allow_rate, should_notify_keyword}
use ycfrp.Log.{Entry}

-- `Message` of internal/notify/notify.go
pub record Message : Type 0 where
  pub kind : String
  pub title : String
  pub body : String
  pub target : String
  pub time : ℕ

-- What the loop keeps: the last status of each tunnel, and the notifier's table of `AllowRate`.
pub record Watched : Type 0 where
  pub prev : Assoc String
  pub cooldown : Assoc ℕ

-- the message for a tunnel whose status was `old`, if there is one
unfoldable pub message_for : {F : Type 0} → NotifyConfig F → ℕ → String → Tunnel → Option Message
unfolding proxy_phase_label
message_for cfg now old t =
    if (t.status == "online") && cfg.monitor_offline
    then some (record {
      kind = "tunnel_online";
      title = "隧道已恢复";
      body = "隧道 " ++ (t.name ++ (" 已重新上线，远程地址 " ++ t.remote_addr));
      target = t.name;
      time = now;
    })
    else if (old == "online") && cfg.monitor_offline
    then some (record {
      kind = "tunnel_offline";
      title = "隧道已离线";
      body = "隧道 " ++ (t.name ++ (" 当前状态为 " ++ proxy_phase_label t.status));
      target = t.name;
      time = now;
    })
    else if (t.status == "start error") && cfg.monitor_errors
    then some (record {
      kind = "tunnel_error";
      title = "隧道启动失败";
      body = "隧道 " ++ (t.name ++ (" 启动失败：" ++ t.err));
      target = t.name;
      time = now;
    })
    else none

-- a message that the rate limit lets through, and the table after it
unfoldable pub limited : ℤ → ℕ → String → Option Message → Assoc ℕ → List Message × Assoc ℕ
unfolding allow_rate
limited quiet now key none cooldown = ([], cooldown)
limited quiet now key (some m) cooldown =
    let (yes_, after) = allow_rate quiet now key cooldown in (if yes_ then m ∷ [] else [], after)

-- one tunnel of a round; the readings of the clock in a round are one
unfoldable pub watch_one :
    {F : Type 0} → NotifyConfig F → ℕ → Tunnel → Watched → List Message × Watched
unfolding lookup insert message_for limited
watch_one cfg now t w =
    let w' : Watched = record w { prev = insert t.id t.status w.prev } in
    elim (lookup t.id w.prev) [
      | none ↦ ([], w')
      | some old ↦
          (let key = "tunnel:" ++ (t.id ++ (":" ++ t.status)) in
            let (told, after) =
              limited cfg.quiet_minutes now key (message_for cfg now old t) w.cooldown in
            if (old == t.status) || (t.status == "")
            then ([], w')
            else (told, record w' { cooldown = after }))
    ]

-- a round of the loop, given the tunnels of `Snapshot`
unfoldable pub watch_all :
    {F : Type 0} → NotifyConfig F → ℕ → List Tunnel → Watched → List Message × Watched
unfolding watch_one
watch_all cfg now [] w = ([], w)
watch_all cfg now (t ∷ ts) w =
    let (told, w') = watch_one cfg now t w in
    let (more, w'') = watch_all cfg now ts w' in (Base.◌++◌ told more, w'')

-- `consumeLogs`, for one entry
unfoldable pub consume :
    ⦃r : Runes⦄ → {F : Type 0} → NotifyConfig F → ℕ → Entry → Assoc ℕ → List Message × Assoc ℕ
unfolding should_notify_keyword limited
consume cfg now e cooldown =
    let line = e.message ++ (" " ++ e.raw) in
    elim (should_notify_keyword cfg line) [
      | none ↦ ([], cooldown)
      | some kw ↦
          limited cfg.quiet_minutes now ("keyword:" ++ kw)
            (some (record {
              kind = "keyword";
              title = "关键词告警";
              body = line;
              target = "命中的关键词：" ++ kw;
              time = now;
            }))
            cooldown
    ]
