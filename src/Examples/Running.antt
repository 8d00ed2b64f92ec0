-- ===== src/Examples/Running.antt =====
-- The engine at a server and a client.
use ycfrp.Base.{
  String, true, false, none, some, [], ◌∷◌, ◌≡◌, ◌⊎◌, refl, ◌==◌, ◌↔◌, lookup, insert, trim_space,
  to_lower, trim_left, trim_right, is_space, select,
}
use ycfrp.Frp.Instance.{enabled, same_config, validate, kind_server, kind_client, normalize}
use ycfrp.Frp.Instance.Checks.{same_config_iff, validate_iff, IsAcceptable}
use ycfrp.Frp.Kernel.{graceful_close, cancel}
use ycfrp.Frp.Engine.Apply.Runtimes.{Has}
use ycfrp.Frp.Engine.{Runtime, Engine, stop, close_all, close_actions, tunnels_for}
use ycfrp.Frp.Engine.Apply.{
  apply, named, wanted, is_kept, drop_unwanted, visit_all, visit, round, switch_off, make_ready,
  switch_on,
}
use ycfrp.Frp.Engine.Start.{start_instance, start_service, start_server, start_client, client_setup}
use ycfrp.Frp.Build.{build_server_config}
use ycfrp.Frp.Convert.{build_proxies, tunnel_to_proxy, proxy_of_type}
use ycfrp.Frp.Engine.Apply.Quiet.{apply_settles, apply_keeps, desired_map}
use ycfrp.Frp.Engine.Apply.Again.{apply_again}
use ycfrp.Frp.Engine.Stop.{IsClosed, stop-IsClosed}
use ycfrp.Frp.Engine.Queries.{running, last_error}
use ycfrp.Examples.Data.{plain, willing, hub, leaf, ssh}

-- a server and a client that are to run
abbrev pub wished : Engine
wished = record {
  desired = hub ∷ leaf ∷ [];
  tunnels = ssh ∷ [];
  order = [];
  runtimes = [];
  logged = false;
}

started : (apply ⦃r = plain⦄ willing wished []).0 ≡ none
unfolding apply named normalize trim_space trim_left trim_right is_space to_lower wanted lookup
    insert drop_unwanted visit_all visit round switch_off make_ready is_kept switch_on enabled
    tunnels_for select start_instance start_service start_server build_server_config start_client
    client_setup build_proxies tunnel_to_proxy proxy_of_type
started = refl

apply_again_example :
    apply ⦃r = plain⦄ willing
      (apply ⦃r = plain⦄ willing wished []).1
      (apply ⦃r = plain⦄ willing wished []).2
    ≡ apply ⦃r = plain⦄ willing wished []
apply_again_example = apply_again ⦃r = plain⦄ willing wished [] started

leaf_wanted : lookup "leaf" (desired_map ⦃r = plain⦄ wished) ≡ some leaf
unfolding wanted named normalize trim_space trim_left trim_right is_space to_lower lookup insert
leaf_wanted = refl

apply_settles_example :
    (rt : Runtime) × (lookup "leaf" (apply ⦃r = plain⦄ willing wished []).1.runtimes ≡ some rt)
    × (rt.inst ≡ leaf)
    × (rt.up ≡ true → enabled leaf ≡ true)
    × ((apply ⦃r = plain⦄ willing wished []).0 ≡ none → rt.up ≡ enabled leaf)
apply_settles_example = apply_settles ⦃r = plain⦄ willing wished [] "leaf" leaf leaf_wanted

-- the client as it runs, under its old name
abbrev pub leaf_up : Runtime
leaf_up = record {
  inst = record leaf { name = "Old" };
  tunnels = ssh ∷ [];
  server_svc = none;
  client_svc = some 4;
  cancels = some 5;
  up = true;
  err = "";
  tunnel_count = 1;
  dash = record { addr = ""; user = ""; pass = "" };
}

abbrev pub serving : Engine
serving = record wished { order = "leaf" ∷ []; runtimes = ("leaf", leaf_up) ∷ [] }

leaf_stays : is_kept leaf (some leaf_up) ≡ true
unfolding is_kept enabled
leaf_stays = (same_config_iff (record leaf { name = "Old" }) leaf).1 (refl, refl, refl, refl)

apply_keeps_example :
    lookup "leaf" (apply ⦃r = plain⦄ willing serving []).1.runtimes
    ≡ some (record leaf_up { inst = leaf })
unfolding lookup enabled
apply_keeps_example =
    apply_keeps ⦃r = plain⦄ willing serving [] "leaf" leaf leaf_up leaf_wanted refl refl leaf_stays

stop-IsClosed_example :
    ((id : String) (rt : Runtime)
      → Has id serving.order
      → lookup id serving.runtimes ≡ some rt
      → IsClosed rt (stop serving []).1)
    × (running (stop serving []).0 ≡ (false, false))
    × (last_error (stop serving []).0 ≡ "")
    × ((stop serving []).0.desired ≡ serving.desired)
    × ((stop serving []).0.tunnels ≡ serving.tunnels)
stop-IsClosed_example = stop-IsClosed serving []

-- the order and the actions of a stop
stopped : (stop serving []).1 ≡ graceful_close 4 ∷ cancel 5 ∷ []
unfolding stop close_all lookup close_actions insert
stopped = refl

same_config_iff_example : (same_config hub hub ≡ true) ↔ (
    (hub.kind ≡ hub.kind)
    × (enabled hub ≡ enabled hub)
    × (hub.server ≡ hub.server)
    × (hub.client ≡ hub.client))
same_config_iff_example = same_config_iff hub hub

validate_iff_example : (validate hub ≡ none) ↔ (
    ((trim_space "Hub" == "") ≡ false)
    × (("server" ≡ kind_server) ⊎ ("server" ≡ kind_client))
    × IsAcceptable hub)
validate_iff_example = validate_iff hub
