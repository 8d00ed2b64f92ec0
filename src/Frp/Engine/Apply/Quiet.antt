-- ===== src/Frp/Engine/Apply/Quiet.antt =====
-- What `Apply` promises: the desired instances are the running ones, those that need nothing are not
-- touched, and a second `Apply` does nothing.
use ycfrp.Base.{
  String, Bool, true, false, none, some, List, [], ◌∷◌, ◌≡◌, refl, ◌∙◌, ◌==◌, Runes, inl, inr,
  Bool-cases, Option-cases, eq_iff, Assoc, lookup,
}
use ycfrp.Frp.Instance.{Instance, enabled}
use ycfrp.Frp.Kernel.{Kernel, Trace}
use ycfrp.Frp.Engine.{Runtime, Engine}
use ycfrp.Frp.Engine.Apply.{named, wanted, drop_unwanted, ids_of, report, apply, is_kept}
use ycfrp.Frp.Engine.Apply.Runtimes.{
  Has, IsOwn, wanted-IsOwn, wanted-Has, visit_all-Settled, visit_all-Kept,
}

missing-ne :
    (want : Assoc Instance) (j id : String) {inst : Instance}
    → lookup j want ≡ none
    → lookup id want ≡ some inst
    → (j == id) ≡ false
missing-ne want j id e h = elim (Bool-cases (j == id)) [
  | inr other ↦ other
  | inl same ↦ cc ((eq_iff j id).0 same, e, h)
]

lookup-drop_unwanted :
    (logged : Bool) (want : Assoc Instance) (m : Assoc Runtime) (w : Trace) (id : String)
    {inst : Instance}
    → lookup id want ≡ some inst
    → lookup id (drop_unwanted logged want m w).0 ≡ lookup id m
unfolding drop_unwanted lookup
lookup-drop_unwanted logged want [] w id h = refl
lookup-drop_unwanted logged want ((j, rt) ∷ m) w id h = elim (Option-cases (lookup j want)) [
  | inr (i, e) ↦ rw (e, drop_unwanted) (rw (lookup-drop_unwanted logged want m w id h))
  | inl e ↦
      rw (e, drop_unwanted, missing-ne want j id e h) (lookup-drop_unwanted logged want m _ id h)
]

-- the instances that `Apply` works towards
abbrev pub desired_map : ⦃r : Runes⦄ → Engine → Assoc Instance
desired_map e = wanted (named e.desired) []

module _ ⦃r : Runes⦄ (e : Engine) where
  desired-Has :
      (id : String) (inst : Instance)
      → lookup id (desired_map e) ≡ some inst
      → Has id (ids_of (named e.desired))
  unfolding lookup
  desired-Has id inst h = elim (wanted-Has (named e.desired) [] id h) [
    | inl none_yet ↦ cc
    | inr has ↦ has
  ]

  pub desired-IsOwn : IsOwn (desired_map e)
  unfolding lookup
  desired-IsOwn = wanted-IsOwn (named e.desired) [] (λ id inst h. cc)

report-nil : (fs : List String) → report fs ≡ none → fs ≡ []
report-nil [] h = refl
report-nil (f ∷ fs) h = cc

module _ ⦃r : Runes⦄ (k : Kernel) (e : Engine) (w : Trace) where
  -- After `Apply`, each desired instance has a runtime: it is of that instance as normalised, it is
  -- up only where the instance is switched on, and if `Apply` reports no error it is up exactly
  -- where the instance is switched on.
  pub apply_settles :
      (id : String) (inst : Instance)
      → lookup id (desired_map e) ≡ some inst
      → (rt : Runtime) × (lookup id (apply k e w).1.runtimes ≡ some rt)
        × (rt.inst ≡ inst)
        × (rt.up ≡ true → enabled inst ≡ true)
        × ((apply k e w).0 ≡ none → rt.up ≡ enabled inst)
  unfolding apply
  apply_settles id inst h =
      let (m, w₁) = drop_unwanted e.logged (desired_map e) e.runtimes w in
      let (rt, at, (same, on, quiet)) =
        visit_all-Settled k e.logged e.tunnels (desired_map e) id inst h (desired-IsOwn e)
          (ids_of (named e.desired)) (record { runtimes = m; failures = []; trace = w₁ })
          (desired-Has e id inst h) in
      (rt, at, same, on, λ fine. quiet (report-nil _ fine))

  -- An instance that runs with the configuration that is desired keeps its runtime, with its
  -- services and tunnels, through `Apply`, whatever becomes of the others; only the record of the
  -- instance, whose name and note may have changed, is the new one.
  pub apply_keeps :
      (id : String) (inst : Instance) (rt : Runtime)
      → lookup id (desired_map e) ≡ some inst
      → enabled inst ≡ true
      → lookup id e.runtimes ≡ some rt
      → is_kept inst (some rt) ≡ true
      → lookup id (apply k e w).1.runtimes ≡ some (record rt { inst = inst })
  unfolding apply
  apply_keeps id inst rt h on at kept =
      let (m, w₁) = drop_unwanted e.logged (desired_map e) e.runtimes w in
      visit_all-Kept k e.logged e.tunnels (desired_map e) id inst h (desired-IsOwn e) rt
        (ids_of (named e.desired)) (record { runtimes = m; failures = []; trace = w₁ }) on
        (desired-Has e id inst h)
        (rt, lookup-drop_unwanted e.logged (desired_map e) e.runtimes w id h ∙ at, refl, kept)
