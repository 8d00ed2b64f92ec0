-- ===== src/Frp/Engine/Apply/Runtimes.antt =====
-- What `Apply` leaves in the map of runtimes.
use ycfrp.Base.{
  String, Bool, true, some, List, [], ◌∷◌, ◌++◌, ◌≡◌, ◌⊎◌, refl, ap, sym, subst, ◌∙◌, ◌==◌, arith,
  Runes, inl, inr, Bool-cases, Option-cases, some_inj, eq_iff, Assoc, lookup, insert, lookup-insert,
}
use ycfrp.Frp.Instance.{Instance, enabled}
use ycfrp.Frp.Tunnel.{Tunnel}
use ycfrp.Frp.Kernel.{Kernel}
use ycfrp.Frp.Engine.{Runtime}
use ycfrp.Frp.Engine.Apply.{Pass, round, visit, visit_all, wanted, ids_of, is_kept}
use ycfrp.Frp.Engine.Apply.Visit.{Settles, round-Settles, round_kept, kept_again}

-- `id` stands in the list.
abbrev pub Has : String → List String → Type 0
Has id [] = ⊥
Has id (x ∷ xs) = (x ≡ id) ⊎ Has id xs

-- Every entry of `want` stands under its own identifier.
abbrev pub IsOwn : Assoc Instance → Type 0
IsOwn want = (id : String) (inst : Instance) → lookup id want ≡ some inst → inst.id ≡ id

pub wanted-IsOwn : (is : List Instance) (m : Assoc Instance) → IsOwn m → IsOwn (wanted is m)
unfolding wanted
wanted-IsOwn [] m h = h
wanted-IsOwn (i ∷ is) m h =
    wanted-IsOwn is (insert i.id i m)
      λ id inst e. ground (arith, lookup-insert i.id id i m, eq_iff i.id id, h id inst)

pub wanted-Has :
    (is : List Instance) (m : Assoc Instance) (id : String) {inst : Instance}
    → lookup id (wanted is m) ≡ some inst
    → (lookup id m ≡ some inst) ⊎ Has id (ids_of is)
unfolding wanted
wanted-Has [] m id h = inl h
wanted-Has (i ∷ is) m id h = elim (wanted-Has is (insert i.id i m) id h) [
  | inr later ↦ inr (inr later)
  | inl e ↦ ground (arith, lookup-insert i.id id i m, eq_iff i.id id)
]

pub append_nil-parts {ℓ} : {A : Type ℓ} (xs ys : List A) → xs ++ ys ≡ [] → (xs ≡ []) × (ys ≡ [])
append_nil-parts [] ys h = (refl, h)
append_nil-parts (x ∷ xs) ys h = cc

reinst : (rt : Runtime) (inst : Instance) → rt.inst ≡ inst → rt ≡ record rt { inst = inst }
reinst rt inst e = λ i. record rt { inst = e i }

module _ ⦃r : Runes⦄ (k : Kernel) (logged : Bool) (all : List Tunnel) (want : Assoc Instance) where
  module _ (id : String) (inst : Instance) (is_wanted : lookup id want ≡ some inst)
      (own : IsOwn want) where
    -- The runtime under the identifier, as a pass has left it.
    abbrev pub SettledIn : Pass → Type 0
    SettledIn p = (rt : Runtime) × (lookup id p.runtimes ≡ some rt) × Settles inst rt p.failures

    visit-Settled : (p : Pass) → SettledIn (visit k logged all inst p)
    unfolding visit
    visit-Settled p =
        let old = lookup inst.id p.runtimes in
        let (same, on, quiet) = round-Settles k logged all inst old p.trace in
        (
          (round k logged all inst old p.trace).0,
          rw (lookup-insert, (eq_iff inst.id id).1 (own id inst is_wanted)),
          (same, on, λ e. quiet (append_nil-parts p.failures _ e).1),
        )

    visited_here :
        (j : String) (inst' : Instance) → lookup j want ≡ some inst' → inst'.id ≡ id → inst ≡ inst'
    visited_here j inst' e here = cc (own j inst' e, is_wanted, e)

    visit-keeps :
        (p : Pass) (j : String) (inst' : Instance)
        → lookup j want ≡ some inst'
        → SettledIn p
        → SettledIn (visit k logged all inst' p)
    visit-keeps p j inst' e (rt, at, (same, on, quiet)) = elim (Bool-cases (inst'.id == id)) [
      | inl here ↦
          subst (λ i. SettledIn (visit k logged all i p))
            (visited_here j inst' e ((eq_iff inst'.id id).0 here)) (visit-Settled p)
      | inr there ↦
          unfold visit in
          (
            rt,
            rw (lookup-insert, there) at,
            (same, on, λ e. quiet (append_nil-parts p.failures _ e).0),
          )
    ]

    visit_all-keeps :
        (ids : List String) (p : Pass) → SettledIn p → SettledIn (visit_all k logged all want ids p)
    unfolding visit_all
    visit_all-keeps [] p s = s
    visit_all-keeps (j ∷ ids) p s = elim (Option-cases (lookup j want)) [
      | inl e ↦ rw (e, visit_all) (visit_all-keeps ids p s)
      | inr (inst', e) ↦
          rw (e, visit_all)
            (visit_all-keeps ids (visit k logged all inst' p) (visit-keeps p j inst' e s))
    ]

    pub visit_all-Settled :
        (ids : List String) (p : Pass) → Has id ids → SettledIn (visit_all k logged all want ids p)
    unfolding visit_all
    visit_all-Settled [] p h = absurd h
    visit_all-Settled (j ∷ ids) p (inl e) =
        rw (e, is_wanted, visit_all)
          (visit_all-keeps ids (visit k logged all inst p) (visit-Settled p))
    visit_all-Settled (j ∷ ids) p (inr h) = elim (Option-cases (lookup j want)) [
      | inl e ↦ rw (e, visit_all) (visit_all-Settled ids p h)
      | inr (inst', e) ↦ rw (e, visit_all) (visit_all-Settled ids (visit k logged all inst' p) h)
    ]

    -- What the runtime under the identifier must be while it is never touched.
    abbrev pub KeptIn : Runtime → Pass → Type 0
    KeptIn rt₀ p =
        (rt : Runtime) × (lookup id p.runtimes ≡ some rt)
        × (record rt { inst = inst } ≡ record rt₀ { inst = inst })
        × (is_kept inst (some rt) ≡ true)

    visit-Kept :
        (rt₀ : Runtime) (p : Pass)
        → enabled inst ≡ true
        → KeptIn rt₀ p
        → (lookup id (visit k logged all inst p).runtimes ≡ some (record rt₀ { inst = inst }))
          × (is_kept inst (some (record rt₀ { inst = inst })) ≡ true)
    unfolding visit
    visit-Kept rt₀ p on (rt, at, same, kept) =
        let h = own id inst is_wanted in
        let at' : lookup inst.id p.runtimes ≡ some rt = ap (λ j. lookup j p.runtimes) h ∙ at in
        let quiet = round_kept k logged all inst rt p.trace on kept in
        (
          rw (lookup-insert, (eq_iff inst.id id).1 h, at', quiet) (ap some same),
          subst (λ x. is_kept inst (some x) ≡ true) same (kept_again inst rt kept),
        )

    visit-keeps_Kept :
        (rt₀ : Runtime) (p : Pass) (j : String) (inst' : Instance)
        → enabled inst ≡ true
        → lookup j want ≡ some inst'
        → KeptIn rt₀ p
        → KeptIn rt₀ (visit k logged all inst' p)
    visit-keeps_Kept rt₀ p j inst' on e (rt, at, same, kept) = elim (Bool-cases (inst'.id == id)) [
      | inl here ↦
          subst (λ i. KeptIn rt₀ (visit k logged all i p))
            (visited_here j inst' e ((eq_iff inst'.id id).0 here))
            (let (at', kept') = visit-Kept rt₀ p on (rt, at, same, kept) in
              (record rt₀ { inst = inst }, at', refl, kept'))
      | inr there ↦ unfold visit in (rt, rw (lookup-insert, there) at, same, kept)
    ]

    visit_all-keeps_Kept :
        (rt₀ : Runtime) (ids : List String) (p : Pass)
        → enabled inst ≡ true
        → KeptIn rt₀ p
        → KeptIn rt₀ (visit_all k logged all want ids p)
    unfolding visit_all
    visit_all-keeps_Kept rt₀ [] p on s = s
    visit_all-keeps_Kept rt₀ (j ∷ ids) p on s = elim (Option-cases (lookup j want)) [
      | inl e ↦ rw (e, visit_all) (visit_all-keeps_Kept rt₀ ids p on s)
      | inr (inst', e) ↦
          rw (e, visit_all)
            (visit_all-keeps_Kept rt₀ ids (visit k logged all inst' p) on
              (visit-keeps_Kept rt₀ p j inst' on e s))
    ]

    -- With the identifier in the list, its runtime ends as it began, but for the instance.
    pub visit_all-Kept :
        (rt₀ : Runtime) (ids : List String) (p : Pass)
        → enabled inst ≡ true
        → Has id ids
        → KeptIn rt₀ p
        → lookup id (visit_all k logged all want ids p).runtimes ≡ some (record rt₀ { inst = inst })
    visit_all-Kept rt₀ ids p on h s =
        let (rt, at, same, kept) = visit_all-keeps_Kept rt₀ ids p on s in
        let (rt', at', (is_inst, up, quiet)) = visit_all-Settled ids p h in
        let one : rt ≡ rt' = some_inj (sym at ∙ at') in
        at ∙ ap some (reinst rt inst (ap (λ x. x.inst) one ∙ is_inst) ∙ same)
