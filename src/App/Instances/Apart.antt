-- ===== src/App/Instances/Apart.antt =====
-- What the checks of `SaveInstance` and `ToggleInstance` keep: instances stay apart.
use ycfrp.Base.{
  ℕ, String, code, Bool, true, false, not, ◌&&◌, ◌||◌, Option, none, some, List, [], ◌∷◌, ℤ, pos,
  negsuc, eqb, eqb_ℤ, ◌==◌, ◌≡◌, ◌≢◌, refl, sym, ap, ◌∙◌, subst, arith, eq_iff, if◌then◌else◌,
  trim_space, inl, inr, Bool-cases, Option-cases, some_inj, All, Assoc, values, lookup,
}
use ycfrp.Frp.Instance.{Instance, is_server, kind_server, enabled, ports}
use ycfrp.App.Instances.{
  Folds, equal_fold, holds, first_port_conflict, port_message, check_other, check_conflicts,
}

-- Two instances of one kind have names that differ in more than their case, and two servers that are switched
-- on share no port.
abbrev pub AreApart : ⦃f : Folds⦄ → Instance → Instance → Type 0
AreApart a b =
    ((a.kind == b.kind) ≡ true → equal_fold (trim_space a.name) (trim_space b.name) ≡ false)
    × (is_server a ≡ true
        → is_server b ≡ true
        → enabled a ≡ true
        → enabled b ≡ true
        → (p : ℤ) → (holds p (ports a) && holds p (ports b)) ≡ false)

eqb_sym : (m n : ℕ) → eqb m n ≡ eqb n m
eqb_sym m n = ground arith

equal_fold_sym : ⦃f : Folds⦄ (s t : String) → equal_fold s t ≡ equal_fold t s
unfolding equal_fold
equal_fold_sym String.[] String.[] = refl
equal_fold_sym String.[] (String.◌∷◌ d t) = refl
equal_fold_sym (String.◌∷◌ c s) String.[] = refl
equal_fold_sym ⦃f⦄ (String.◌∷◌ c s) (String.◌∷◌ d t) =
    rw (equal_fold_sym s t, eqb_sym (code (f.fold c)) (code (f.fold d))) refl

and_sym : (a b : Bool) → (a && b) ≡ (b && a)
and_sym true true = refl
and_sym true false = refl
and_sym false true = refl
and_sym false false = refl

pub AreApart-sym : ⦃f : Folds⦄ (a b : Instance) → AreApart a b → AreApart b a
AreApart-sym a b (n, p) = (
  λ e.
      equal_fold_sym (trim_space b.name) (trim_space a.name)
      ∙ n (ground (arith, eq_iff a.kind b.kind, eq_iff b.kind a.kind)),
  λ sb sa eb ea q. and_sym (holds q (ports b)) (holds q (ports a)) ∙ p sa sb ea eb q,
)

-- A guard that did not answer.
passed :
    (b : Bool) (m : String) (rest : Option String)
    → (if b then some m else rest) ≡ none
    → (b ≡ false) × (rest ≡ none)
passed true m rest h = cc
passed false m rest h = (refl, h)

reached :
    (b : Bool) (rest : Option String) → b ≡ false → (if b then none else rest) ≡ none → rest ≡ none
reached true rest e h = cc
reached false rest e h = h

eqb_ℤ→eq : (q p : ℤ) → eqb_ℤ q p ≡ true → q ≡ p
eqb_ℤ→eq (pos m) (pos n) h = ground arith
eqb_ℤ→eq (negsuc m) (negsuc n) h = ground arith
eqb_ℤ→eq (pos m) (negsuc n) h = cc
eqb_ℤ→eq (negsuc m) (pos n) h = cc

and_false : (b : Bool) → (b && false) ≡ false
and_false true = refl
and_false false = refl

no_conflict :
    (a b : List ℤ) → first_port_conflict a b ≡ none → (p : ℤ) → (holds p a && holds p b) ≡ false
unfolding first_port_conflict
no_conflict a [] h p = and_false (holds p a)
no_conflict a (q ∷ b) h p = elim (Bool-cases (holds q a)) [
  | inl e ↦ cc (rw e at h)
  | inr e ↦ elim (Bool-cases (eqb_ℤ q p)) [
    | inl same ↦ rw (← eqb_ℤ→eq q p same, e) refl
    | inr other ↦ rw other (no_conflict a b (rw e at h) p)
  ]
]

port_message-none : (name : String) (o : Option ℤ) → port_message name o ≡ none → o ≡ none
port_message-none name none h = refl
port_message-none name (some p) h = cc

-- What a check that passes says.
pub check_other-AreApart :
    ⦃f : Folds⦄ (i other : Instance)
    → other.id ≢ i.id
    → trim_space i.name ≡ i.name
    → check_other i other ≡ none
    → AreApart other i
unfolding check_other
check_other-AreApart i other ne trimmed h =
    let id : (other.id == i.id) ≡ false = ground (arith, eq_iff other.id i.id) in
    let (n, h2) =
      passed (other.kind == i.kind && equal_fold (trim_space other.name) i.name) _ _ (rw id at h) in
    (
      λ e. rw trimmed (rw e at n),
      λ so si eo ei.
          let same : (other.kind == i.kind) ≡ true = ground (
            arith,
            eq_iff other.kind i.kind,
            eq_iff other.kind kind_server,
            eq_iff i.kind kind_server,
          ) in
          let h3 =
            reached (not (other.kind == i.kind) || not (is_server i)) _ (rw (same, si) refl) h2 in
          let free = reached (not (enabled other) || not (enabled i)) _ (rw (eo, ei) refl) h3 in
          no_conflict (ports other) (ports i) (port_message-none other.name _ free),
    )

pub check_conflicts-All :
    ⦃f : Folds⦄ (i : Instance) (l : List Instance)
    → check_conflicts i l ≡ none
    → All (λ o. check_other i o ≡ none) l
unfolding check_conflicts
check_conflicts-All i [] h = tt
check_conflicts-All i (o ∷ l) h = elim (Option-cases (check_other i o)) [
  | inl e ↦ (e, check_conflicts-All i l (rw (e, check_conflicts) at h))
  | inr (m, e) ↦ cc (rw (e, check_conflicts) at h)
]

pub All-lookup :
    (P : Instance → Type 0) (m : Assoc Instance) (id : String) (v : Instance)
    → All P (values m)
    → lookup id m ≡ some v
    → P v
unfolding lookup
All-lookup P [] id v h e = cc
All-lookup P ((j, w) ∷ m) id v (p, h) e = elim (Bool-cases (j == id)) [
  | inl k ↦ subst P (some_inj (rw k at e)) p
  | inr k ↦ All-lookup P m id v h (rw k at e)
]

pub id-lookup :
    (m : Assoc Instance) (id : String) (v : Instance)
    → All (λ e. e.1.id ≡ e.0) m
    → lookup id m ≡ some v
    → v.id ≡ id
unfolding lookup
id-lookup [] id v h e = cc
id-lookup ((j, w) ∷ m) id v (p, h) e = elim (Bool-cases (j == id)) [
  | inl k ↦ ap (λ (i : Instance). i.id) (sym (some_inj (rw k at e))) ∙ p ∙ (eq_iff j id).0 k
  | inr k ↦ id-lookup m id v h (rw k at e)
]
