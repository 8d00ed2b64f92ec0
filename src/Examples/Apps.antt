-- ===== src/Examples/Apps.antt =====
-- The operations on instances and tunnels at small inputs.
use ycfrp.Api.Instances.{instance_view, keep_instance_secrets}
use ycfrp.Api.Instances.Secrets.{with_secrets, view_hides}
use ycfrp.Frp.Engine.Statuses.{InstanceStatus}
use ycfrp.Base.{
  ℕ, trim_space, trim_left, trim_right, is_space, String, true, false, Option, none, some, List, [],
  ◌∷◌, ◌≡◌, refl, ap, sym, ◌==◌, pos, lookup, sort_by, remove, some_inj,
}
use ycfrp.Store.Collection.{
  Codec, written, err, not_found, get, list, delete, flush, save_text, write_out,
}
use ycfrp.Frp.Tunnel.{Tunnel}
use ycfrp.Frp.Engine
use ycfrp.Log
use ycfrp.App.{App, Reading, instance_entity}
use ycfrp.App.Instances.{Folds, delete_instance, remove_tunnels}
use ycfrp.App.Instances.Tidy.{IsTidy}
use ycfrp.App.Instances.Session.{saves, toggles, run, run-IsTidy}
use ycfrp.App.Instances.Removal.{left, delete_instance-left}
use ycfrp.App.Watch.{watch_all}
use ycfrp.App.Watch.Quiet.{watch_again}
use ycfrp.Examples.Data.{plain, hub, leaf, ssh}
use ycfrp.Examples.Logs.{still}
use ycfrp.Examples.Settings.{watching}

-- only the empty list has a text
abbrev encode_none : {T : Type 0} → List T → Option String
encode_none [] = some "[]"
encode_none (x ∷ l) = none

abbrev decode_none : {T : Type 0} → String → Option (List T)
decode_none s = some []

decode-encode_none :
    {T : Type 0} (l : List T) {text : String}
    → encode_none l ≡ some text
    → decode_none text ≡ some l
decode-encode_none [] h = refl
decode-encode_none (x ∷ l) h = cc

encode_none-some :
    {T : Type 0} (l : List T) {text : String} → encode_none l ≡ some text → (text == "") ≡ false
encode_none-some [] h = ap (λ t. t == "") (sym (some_inj h))
encode_none-some (x ∷ l) h = cc

abbrev empty_codec : {T : Type 0} → Codec T
empty_codec = record {
  encode = encode_none;
  decode = decode_none;
  decode-encode = decode-encode_none;
  encode_some = encode_none-some;
}

abbrev ascii : Folds
ascii = record { fold = λ c. c }

abbrev at_one : Reading
at_one = record { now = 1; later = 1; outcome = written; opens = true; logged = 1 }

-- a panel without instances and with one tunnel
abbrev fresh_panel : App
fresh_panel = record {
  instances = record { items = []; path = "instances.json"; file = none; temp = none };
  tunnels = record { items = ("t1", ssh) ∷ []; path = ""; file = none; temp = none };
  engine = Engine.new true;
  log = Log.new (pos 10);
}

-- the hub is saved, a second server that wants its port is refused, and the hub is switched off
run-IsTidy_example :
    IsTidy ⦃f = ascii⦄
      (run ⦃r = plain⦄ ⦃f = ascii⦄ empty_codec empty_codec still fresh_panel (
        saves at_one none 7 hub
        ∷ saves at_one none 8 (record hub { id = ""; name = "Other" })
        ∷ toggles at_one "hub" false
        ∷ [])).instances.items
unfolding lookup
run-IsTidy_example =
    run-IsTidy ⦃r = plain⦄ ⦃f = ascii⦄ empty_codec empty_codec still fresh_panel
      (saves at_one none 7 hub
        ∷ saves at_one none 8 (record hub { id = ""; name = "Other" })
        ∷ toggles at_one "hub" false
        ∷ [])
      ((tt, tt), refl, (λ id i e. cc), (λ id id' a b d e e'. cc))

abbrev panel : App
panel = record fresh_panel {
  instances = record { items = ("leaf", leaf) ∷ []; path = ""; file = none; temp = none };
}

delete_instance-left_example :
    (get instance_entity empty_codec
        (delete_instance empty_codec empty_codec still at_one
          (λ id. written)
          "leaf"
          panel).2.instances
        "leaf"
      ≡ err not_found)
    × ((k : String)
        → lookup k
            (delete_instance empty_codec empty_codec still at_one
              (λ id. written)
              "leaf"
              panel).2.tunnels.items
          ≡ left "leaf" (lookup k panel.tunnels.items))
unfolding delete_instance get delete list flush save_text write_out remove_tunnels lookup sort_by
    remove
delete_instance-left_example =
    delete_instance-left empty_codec empty_codec still at_one (λ id. written) "leaf" panel
      ((tt, tt), (refl, tt)) refl

abbrev no_statuses : List (InstanceStatus ℕ ℕ)
no_statuses = []

abbrev up_ssh : Tunnel
up_ssh = record ssh { status = "online" }

watch_again_example :
    watch_all watching 9
      (up_ssh ∷ [])
      (watch_all watching 5
        (up_ssh ∷ [])
        (record { prev = ("t1", "offline") ∷ []; cooldown = [] })).1
    ≡ (
      [],
      (watch_all watching 5
          (up_ssh ∷ [])
          (record { prev = ("t1", "offline") ∷ []; cooldown = [] })).1,
    )
watch_again_example =
    watch_again watching 5 9 (up_ssh ∷ []) (record { prev = ("t1", "offline") ∷ []; cooldown = [] })
      (tt, tt)

-- With a token and another.
view_hides_example :
    (instance_view
        (with_secrets "abc" "" "" (record hub { server = record hub.server { token = "xyz" } }))
        no_statuses
      ≡ instance_view (record hub { server = record hub.server { token = "xyz" } }) no_statuses)
    × (keep_instance_secrets
          (with_secrets "" "" "" (record hub { server = record hub.server { token = "xyz" } }))
          (record hub { server = record hub.server { token = "xyz" } })
        ≡ record hub { server = record hub.server { token = "xyz" } })
unfolding trim_space trim_left trim_right is_space
view_hides_example =
    view_hides (record hub { server = record hub.server { token = "xyz" } }) no_statuses "abc" "" ""
      refl refl refl
