-- ===== src/Frp/Engine/Apply.antt =====
-- internal/frp/engine.go, `Apply`: the running instances are brought to the desired ones.
pub mod Visit
pub mod Runtimes
pub mod Quiet
pub mod Again
use Prim.Native.String
use Prim.Native.String.{◌++◌}
use ycfrp.Base.{
  ℕ, String, Bool, true, false, ◌&&◌, not, Option, none, some, List, [], ◌∷◌, map, ℤ, ◌==◌,
  if◌then◌else◌, Runes, length, Assoc, lookup, insert, join,
}
use ycfrp.Base
use ycfrp.Frp.Instance.{Instance, is_server, kind_label, enabled, normalize, ports, same_config}
use ycfrp.Frp.StartError.{describe_start_error}
use ycfrp.Frp.Tunnel.{Tunnel}
use ycfrp.Frp.Kernel.{Kernel, Trace, wait_ports, info, error}
use ycfrp.Frp.Engine.{
  DashAuth, Runtime, Engine, act, logf, dash_for, tunnels_for, closed, close_actions, stop,
}
use ycfrp.Frp.Engine.Start.{start_instance, start_summary}

-- `&runtime{inst: inst, dash: dash}`
abbrev pub blank : Instance → DashAuth → Runtime
blank inst dash = record {
  inst = inst;
  tunnels = [];
  server_svc = none;
  client_svc = none;
  cancels = none;
  up = false;
  err = "";
  tunnel_count = 0;
  dash = dash;
}

-- the normalised instances that have an identifier, in order
unfoldable pub named : ⦃r : Runes⦄ → List Instance → List Instance
named [] = []
named (i ∷ is) = let rest = named is in if i.id == "" then rest else normalize i ∷ rest

-- `want`; a later instance takes the place of an earlier one
unfoldable pub wanted : List Instance → Assoc Instance → Assoc Instance
wanted [] m = m
wanted (i ∷ is) m = wanted is (insert i.id i m)

-- the first loop of `Apply`: what is not wanted is closed and dropped
unfoldable pub drop_unwanted : Bool → Assoc Instance → Assoc Runtime → Trace → Assoc Runtime × Trace
drop_unwanted logged want [] w = ([], w)
drop_unwanted logged want ((id, rt) ∷ m) w = elim (lookup id want) [
  | some _ ↦ (let (m', w') = drop_unwanted logged want m w in ((id, rt) ∷ m', w'))
  | none ↦
      drop_unwanted logged want m (
        logf logged info (kind_label rt.inst) ("实例 " ++ rt.inst.name ++ " 已移除")
          (close_actions rt w))
]

-- `waitPortsReleased`, which has nothing to wait for where there is no port
abbrev wait : List ℤ → Trace → Trace
wait [] w = w
wait (p ∷ ps) w = act (wait_ports (p ∷ ps)) w

-- what the second loop carries along
pub record Pass : Type 0 where
  pub runtimes : Assoc Runtime
  pub failures : List String
  pub trace : Trace

-- an instance that is switched off
unfoldable pub switch_off : Bool → Instance → Option Runtime → Trace → Runtime × Trace
switch_off logged inst none w = (blank inst (dash_for inst), w)
switch_off logged inst (some rt) w =
    if rt.up
    then (
      record (closed rt) { inst = inst },
      logf logged info (kind_label inst) ("实例 " ++ inst.name ++ " 已停用") (close_actions rt w),
    )
    else (record rt { inst = inst }, w)

-- a runtime to start from: the old one closed, its ports released, or a new one
unfoldable pub make_ready : Instance → Option Runtime → Trace → Runtime × Trace
make_ready inst none w = (blank inst (dash_for inst), w)
make_ready inst (some rt) w =
    let w' = close_actions rt w in
    (closed rt, (if rt.up && is_server inst then wait (ports inst) w' else w'))

-- an instance that is running with the same configuration stays
unfoldable pub is_kept : Instance → Option Runtime → Bool
is_kept inst none = false
is_kept inst (some rt) = rt.up && same_config rt.inst inst

abbrev pub keep : Instance → Option Runtime → Runtime
keep inst none = blank inst (dash_for inst)
keep inst (some rt) = record rt { inst = inst }

module _ ⦃r : Runes⦄ (k : Kernel) (logged : Bool) (all : List Tunnel) where
  -- the rest of the round: the instance is started
  unfoldable pub switch_on : Instance → Runtime × Trace → Runtime × List String × Trace
  switch_on inst (rt, w) =
      let mine = tunnels_for all inst.id in
      let ready = record rt {
        inst = inst;
        dash = dash_for inst;
        tunnels = mine;
        tunnel_count = length mine;
      } in
      let (failed, rt', w') = start_instance k ready all w in
      elim failed [
        | some e ↦
            (let why = describe_start_error inst e in
              (
                record rt' { err = why; up = false },
                (inst.name ++ "（" ++ kind_label inst ++ "）：" ++ why) ∷ [],
                logf logged error (kind_label inst) ("实例 " ++ inst.name ++ " 启动失败: " ++ why) w',
              ))
        | none ↦ (
          record rt' { err = ""; up = true },
          [],
          logf logged info (kind_label inst) ("实例 " ++ inst.name ++ " 已启动" ++ start_summary rt') w',
        )
      ]

  -- one round of the second loop, on the runtime that stands under the identifier
  unfoldable pub round : Instance → Option Runtime → Trace → Runtime × List String × Trace
  round inst old w =
      let (off, w₁) = switch_off logged inst old w in
      if not (enabled inst)
      then (off, [], w₁)
      else if is_kept inst old
      then (keep inst old, [], w)
      else switch_on inst (make_ready inst old w)

  unfoldable pub visit : Instance → Pass → Pass
  visit inst p =
      let (rt, failures, w) = round inst (lookup inst.id p.runtimes) p.trace in
      record {
        runtimes = insert inst.id rt p.runtimes;
        failures = Base.◌++◌ p.failures failures;
        trace = w;
      }

  -- the second loop, over the identifiers of `order`
  unfoldable pub visit_all : Assoc Instance → List String → Pass → Pass
  visit_all want [] p = p
  visit_all want (id ∷ ids) p = elim (lookup id want) [
    | none ↦ visit_all want ids p
    | some inst ↦ visit_all want ids (visit inst p)
  ]

abbrev pub ids_of : List Instance → List String
ids_of = map (λ i. i.id)

abbrev report : List String → Option String
report [] = none
report (f ∷ fs) = some (join (f ∷ fs) "；")

-- `Apply`
unfoldable pub apply : ⦃r : Runes⦄ → Kernel → Engine → Trace → Option String × Engine × Trace
apply k e w =
    let is = named e.desired in
    let want = wanted is [] in
    let (m, w₁) = drop_unwanted e.logged want e.runtimes w in
    let p =
      visit_all k e.logged e.tunnels want (ids_of is)
        (record { runtimes = m; failures = []; trace = w₁ }) in
    (report p.failures, record e { runtimes = p.runtimes; order = ids_of is }, p.trace)

-- `Start`
unfoldable pub start : ⦃r : Runes⦄ → Kernel → Engine → Trace → Option String × Engine × Trace
start k e w = let (e', w') = stop e w in apply k e' w'
