-- ===== src/Frp/Engine/Apply/Visit.antt =====
-- One round of `Apply`'s second loop.
use ycfrp.Base.{
  length, String, Bool, true, false, Option, none, some, List, [], ◌≡◌, refl, sym, ◌∙◌, arith,
  Runes, inl, inr, Bool-cases,
}
use ycfrp.Frp.Instance.{Instance, enabled}
use ycfrp.Frp.Instance.Checks.{same_config_refl}
use ycfrp.Frp.Tunnel.{Tunnel}
use ycfrp.Frp.Kernel.{Kernel, Trace, Action, Result, ok, err}
use ycfrp.Frp.Engine.{Runtime, tunnels_for, dash_for, closed}
use ycfrp.Frp.Engine.Start.{start_instance, start_service, start_server, start_client}
use ycfrp.Frp.Engine.Apply.{switch_off, make_ready, switch_on, is_kept, round}

-- What a round promises of the runtime that it leaves: it is of the instance, up only where
-- that is switched on, and, unless a failure is reported, up wherever it is.
abbrev pub Settles : Instance → Runtime → List String → Type 0
Settles inst rt failures =
    (rt.inst ≡ inst) × (rt.up ≡ true → enabled inst ≡ true) × (failures ≡ [] → rt.up ≡ enabled inst)

not_kept : (inst : Instance) → is_kept inst none ≡ false
unfolding is_kept
not_kept inst = refl

settled_kept :
    (inst : Instance) (rt : Runtime) → rt.inst ≡ inst → rt.up ≡ true → is_kept inst (some rt) ≡ true
unfolding is_kept
settled_kept inst rt e up = rw (up, e) (same_config_refl inst)

pub kept_again :
    (inst : Instance) (rt : Runtime)
    → is_kept inst (some rt) ≡ true
    → is_kept inst (some (record rt { inst = inst })) ≡ true
unfolding is_kept
kept_again inst rt h = rw (same_config_refl inst) (ground arith)

kept_up : (inst : Instance) (rt : Runtime) → is_kept inst (some rt) ≡ true → rt.up ≡ true
unfolding is_kept
kept_up inst rt h = ground arith

module _ ⦃r : Runes⦄ (k : Kernel) where
  -- Starting does not change what is started.
  start_service-inst :
      (rt : Runtime) (all : List Tunnel) (w : Trace) {rt' : Runtime} {a : Action}
      → start_service k rt all w ≡ ok (rt', a)
      → rt'.inst ≡ rt.inst
  unfolding start_service start_server start_client
  start_service-inst rt all w h = ground arith

  start_instance-inst :
      (rt : Runtime) (all : List Tunnel) (w : Trace) → (start_instance k rt all w).1.inst ≡ rt.inst
  unfolding start_instance
  start_instance-inst rt all w = go (start_service k rt all w) refl
    where
      go :
          (x : Result (Runtime × Action))
          → start_service k rt all w ≡ x
          → (start_instance k rt all w).1.inst ≡ rt.inst
      go (err e) h = rw (h, start_instance)
      go (ok (rt', a)) h = rw (h, start_instance) (start_service-inst rt all w h)

  module _ (logged : Bool) (all : List Tunnel) where
    switch_off-up :
        (inst : Instance) (old : Option Runtime) (w : Trace)
        → ((switch_off logged inst old w).0.inst ≡ inst)
          × ((switch_off logged inst old w).0.up ≡ false)
    unfolding switch_off closed
    switch_off-up inst none w = (refl, refl)
    switch_off-up inst (some rt) w = ground arith

    switch_on-up :
        (inst : Instance) (rt : Runtime) (w : Trace)
        → ((switch_on k logged all inst (rt, w)).0.inst ≡ inst)
          × ((switch_on k logged all inst (rt, w)).1 ≡ []
              → (switch_on k logged all inst (rt, w)).0.up ≡ true)
    unfolding switch_on
    switch_on-up inst rt w =
        let mine = tunnels_for all inst.id in
        let ready = record rt {
          inst = inst;
          dash = dash_for inst;
          tunnels = mine;
          tunnel_count = length mine;
        } in
        ground (arith, start_instance-inst ready all w)

    round_off :
        (inst : Instance) (old : Option Runtime) (w : Trace)
        → enabled inst ≡ false
        → round k logged all inst old w
          ≡ ((switch_off logged inst old w).0, [], (switch_off logged inst old w).1)
    unfolding round
    round_off inst old w e = rw e

    -- An instance that runs with the same configuration is left alone.
    pub round_kept :
        (inst : Instance) (rt : Runtime) (w : Trace)
        → enabled inst ≡ true
        → is_kept inst (some rt) ≡ true
        → round k logged all inst (some rt) w ≡ (record rt { inst = inst }, [], w)
    unfolding round
    round_kept inst rt w e kept = rw (e, kept)

    round_on :
        (inst : Instance) (old : Option Runtime) (w : Trace)
        → enabled inst ≡ true
        → is_kept inst old ≡ false
        → round k logged all inst old w ≡ switch_on k logged all inst (make_ready inst old w)
    unfolding round
    round_on inst old w e new = rw (e, new)

    switch_off_down :
        (rt : Runtime) (w : Trace) → rt.up ≡ false → switch_off logged rt.inst (some rt) w ≡ (rt, w)
    unfolding switch_off
    switch_off_down rt w down = ground arith

    kept-Settles :
        (inst : Instance) (old : Option Runtime) (w : Trace)
        → enabled inst ≡ true
        → is_kept inst old ≡ true
        → Settles inst (round k logged all inst old w).0 (round k logged all inst old w).1
    kept-Settles inst none w e kept = cc (not_kept inst, kept)
    kept-Settles inst (some rt) w e kept =
        rw (round_kept inst rt w e kept) (refl, (λ _. e), λ _. kept_up inst rt kept ∙ sym e)

    pub round-Settles :
        (inst : Instance) (old : Option Runtime) (w : Trace)
        → Settles inst (round k logged all inst old w).0 (round k logged all inst old w).1
    round-Settles inst old w = elim (Bool-cases (enabled inst)) [
      | inr off ↦
          let (same, down) = switch_off-up inst old w in
          rw (round_off inst old w off) (same, (λ h. cc (down, h)), λ _. down ∙ sym off)
      | inl on ↦ elim (Bool-cases (is_kept inst old)) [
        | inl kept ↦ kept-Settles inst old w on kept
        | inr new ↦
            let (rt, w') = make_ready inst old w in
            let (same, up) = switch_on-up inst rt w' in
            rw (round_on inst old w on new) (same, (λ _. on), λ h. up h ∙ sym on)
      ]
    ]

    -- A runtime that is settled with no failure needs nothing: its round leaves it and the kernel
    -- as they are.
    pub round_quiet :
        (inst : Instance) (rt : Runtime) (w : Trace)
        → rt.inst ≡ inst
        → rt.up ≡ enabled inst
        → round k logged all inst (some rt) w ≡ (rt, [], w)
    round_quiet inst rt w e up = elim (Bool-cases (enabled inst)) [
      | inl on ↦ rw (round_kept inst rt w on (settled_kept inst rt e (up ∙ on)), ← e)
      | inr off ↦ rw (round_off inst (some rt) w off, ← e, switch_off_down rt w (up ∙ off))
    ]
