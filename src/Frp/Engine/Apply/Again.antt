-- ===== src/Frp/Engine/Apply/Again.antt =====
-- A second `Apply` has nothing to do.
use mathlib.Core.List.{append-nil}
use ycfrp.Base.{
  String, Bool, none, some, List, [], ◌∷◌, ◌≡◌, refl, ap, sym, ◌∙◌, ◌==◌, Runes, inl, inr,
  Bool-cases, Option-cases, some_inj, All-insert_entry, Assoc, lookup, insert, All,
}
use ycfrp.Frp.Instance.{Instance, enabled}
use ycfrp.Frp.Tunnel.{Tunnel}
use ycfrp.Frp.Kernel.{Kernel, Trace}
use ycfrp.Frp.Engine.{Runtime, Engine}
use ycfrp.Frp.Engine.Apply.{Pass, visit, visit_all, named, drop_unwanted, ids_of, apply}
use ycfrp.Frp.Engine.Apply.Quiet.{desired_map, desired-IsOwn, apply_settles}
use ycfrp.Frp.Engine.Apply.Visit.{round_quiet}
use ycfrp.Frp.Engine.Apply.Runtimes.{IsOwn}

-- The identifiers of the runtimes are wanted.
AreWanted : Assoc Instance → Assoc Runtime → Type 0
AreWanted want = All (λ e. (inst : Instance) × (lookup e.0 want ≡ some inst))

drop_unwanted-AreWanted :
    (logged : Bool) (want : Assoc Instance) (m : Assoc Runtime) (w : Trace)
    → AreWanted want (drop_unwanted logged want m w).0
unfolding drop_unwanted AreWanted
drop_unwanted-AreWanted logged want [] w = tt
drop_unwanted-AreWanted logged want ((j, rt) ∷ m) w = elim (Option-cases (lookup j want)) [
  | inr (i, e) ↦ rw (e, drop_unwanted) ((i, e), drop_unwanted-AreWanted logged want m w)
  | inl e ↦ rw (e, drop_unwanted) (drop_unwanted-AreWanted logged want m _)
]

drop_unwanted-quiet :
    (logged : Bool) (want : Assoc Instance) (m : Assoc Runtime) (w : Trace)
    → AreWanted want m
    → drop_unwanted logged want m w ≡ (m, w)
unfolding drop_unwanted AreWanted
drop_unwanted-quiet logged want [] w h = refl
drop_unwanted-quiet logged want ((j, rt) ∷ m) w ((i, e), h) =
    rw (e, drop_unwanted, drop_unwanted-quiet logged want m w h)

insert_again {ℓ} :
    {V : Type ℓ} (k : String) (v : V) (m : Assoc V) → lookup k m ≡ some v → insert k v m ≡ m
unfolding insert lookup
insert_again k v [] h = cc
insert_again k v ((j, w) ∷ m) h = elim (Bool-cases (j == k)) [
  | inl e ↦ rw e (ap (λ x. (j, x) ∷ m) (sym (some_inj (rw e at h))))
  | inr e ↦ rw e (ap (◌∷◌ (j, w)) (insert_again k v m (rw e at h)))
]

insert-AreWanted :
    (want : Assoc Instance) (id : String) (rt : Runtime) (m : Assoc Runtime)
    → (inst : Instance) × (lookup id want ≡ some inst)
    → AreWanted want m
    → AreWanted want (insert id rt m)
unfolding AreWanted
insert-AreWanted want id rt m h a =
    All-insert_entry (λ e. (inst : Instance) × (lookup e.0 want ≡ some inst)) id rt m h a

module _ ⦃r : Runes⦄ (k : Kernel) (logged : Bool) (all : List Tunnel) (want : Assoc Instance)
    (own : IsOwn want) where
  visit_all-AreWanted :
      (ids : List String) (p : Pass)
      → AreWanted want p.runtimes
      → AreWanted want (visit_all k logged all want ids p).runtimes
  unfolding visit_all visit
  visit_all-AreWanted [] p h = h
  visit_all-AreWanted (j ∷ ids) p h = elim (Option-cases (lookup j want)) [
    | inl e ↦ rw (e, visit_all) (visit_all-AreWanted ids p h)
    | inr (inst, e) ↦
        rw (e, visit_all)
          (visit_all-AreWanted ids (visit k logged all inst p) (
            insert-AreWanted want inst.id _ p.runtimes
              (inst, ap (λ i. lookup i want) (own j inst e) ∙ e) h))
  ]

  visit_quiet :
      (inst : Instance) (p : Pass) (rt : Runtime)
      → lookup inst.id p.runtimes ≡ some rt
      → rt.inst ≡ inst
      → rt.up ≡ enabled inst
      → visit k logged all inst p ≡ p
  unfolding visit
  visit_quiet inst p rt at same up = rw (
    at,
    round_quiet k logged all inst rt p.trace same up,
    insert_again inst.id rt p.runtimes at,
    append-nil,
  )

  -- A pass over runtimes that are settled changes nothing.
  visit_all-quiet :
      (ids : List String) (p : Pass)
      → ((id : String) (inst : Instance)
          → lookup id want ≡ some inst
          → (rt : Runtime) × (lookup id p.runtimes ≡ some rt)
            × (rt.inst ≡ inst)
            × (rt.up ≡ enabled inst))
      → visit_all k logged all want ids p ≡ p
  unfolding visit_all
  visit_all-quiet [] p h = refl
  visit_all-quiet (j ∷ ids) p h = elim (Option-cases (lookup j want)) [
    | inl e ↦ rw (e, visit_all) (visit_all-quiet ids p h)
    | inr (inst, e) ↦
        let (rt, at, same, up) = h j inst e in
        let still =
          visit_quiet inst p rt (ap (λ i. lookup i p.runtimes) (own j inst e) ∙ at) same up in
        rw (e, visit_all, still) (visit_all-quiet ids p h)
  ]

-- The runtimes are just what is desired, each up where it is switched on.
IsSettledFor : Assoc Instance → Assoc Runtime → Type 0
IsSettledFor want m =
    (id : String) (inst : Instance)
    → lookup id want ≡ some inst
    → (rt : Runtime) × (lookup id m ≡ some rt) × (rt.inst ≡ inst) × (rt.up ≡ enabled inst)

module _ ⦃r : Runes⦄ (k : Kernel) (e : Engine) (w : Trace) where
  apply_quiet :
      AreWanted (desired_map e) e.runtimes
      → IsSettledFor (desired_map e) e.runtimes
      → apply k e w ≡ (none, record e { order = ids_of (named e.desired) }, w)
  unfolding apply IsSettledFor
  apply_quiet are settled = rw (
    drop_unwanted-quiet e.logged (desired_map e) e.runtimes w are,
    visit_all-quiet k e.logged e.tunnels (desired_map e) (desired-IsOwn e)
        (ids_of (named e.desired)) (record { runtimes = e.runtimes; failures = []; trace = w })
        settled,
  )

  apply-AreWanted : AreWanted (desired_map e) (apply k e w).1.runtimes
  unfolding apply
  apply-AreWanted =
      visit_all-AreWanted k e.logged e.tunnels (desired_map e) (desired-IsOwn e)
        (ids_of (named e.desired)) _ (drop_unwanted-AreWanted e.logged (desired_map e) e.runtimes w)

  apply-IsSettledFor :
      (apply k e w).0 ≡ none → IsSettledFor (desired_map e) (apply k e w).1.runtimes
  unfolding IsSettledFor
  apply-IsSettledFor fine id inst h =
      let (rt, at, same, on, quiet) = apply_settles k e w id inst h in (rt, at, same, quiet fine)

  apply_fine :
      (apply k e w).0 ≡ none
      → (none, record (apply k e w).1 { order = ids_of (named e.desired) }, (apply k e w).2)
        ≡ apply k e w
  unfolding apply
  apply_fine fine = ap (λ f. (f, (apply k e w).1, (apply k e w).2)) (sym fine)

  apply-desired : (apply k e w).1.desired ≡ e.desired
  unfolding apply
  apply-desired = refl

-- A second `Apply` right after one that reported no error changes neither the engine nor anything in
-- the kernel, and reports none.
pub apply_again :
    ⦃r : Runes⦄ (k : Kernel) (e : Engine) (w : Trace)
    → (apply k e w).0 ≡ none
    → apply k (apply k e w).1 (apply k e w).2 ≡ apply k e w
unfolding apply
apply_again k e w fine =
    apply_quiet k (apply k e w).1 (apply k e w).2 (apply-AreWanted k e w)
      (apply-IsSettledFor k e w fine)
    ∙ apply_fine k e w fine
