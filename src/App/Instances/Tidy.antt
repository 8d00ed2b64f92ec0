-- ===== src/App/Instances/Tidy.antt =====
-- The store of instances is tidy, and stays so when an instance that passed the checks is put into it.
use ycfrp.Base.{
  ℕ, zero, suc, String, true, false, none, some, ◌==◌, ◌≡◌, ◌≢◌, sym, ◌∙◌, subst, arith, eq_iff,
  trim_space, inl, inr, Bool-cases, Option-cases, some_inj, All-perm, Assoc, lookup, insert, remove,
  lookup-insert, lookup-remove,
}
use mathlib.Core.Bool.{true≢false}
use ycfrp.Store.Collection.{Codec, Collection, Outcome, list, put, delete, creation}
use ycfrp.Store.Collection.Lookup.{put-items, stamped, flush-items}
use ycfrp.Store.Collection.Persistence.{list-IsSorted}
use ycfrp.Store.Collection.Invariant.{IsKeyed, put-WellFormed, delete-WellFormed}
use ycfrp.Frp.Instance.{Instance, enabled, set_entity_meta, validate, ports}
use ycfrp.App.{instance_entity}
use ycfrp.App.Instances.{Folds, check_conflicts, check_other}
use ycfrp.App.Instances.Apart.{
  AreApart, AreApart-sym, check_other-AreApart, check_conflicts-All, All-lookup, id-lookup,
}

-- The name is trimmed, and the settings are in order where the instance is switched on.
abbrev pub IsProper : Instance → Type 0
IsProper i = (trim_space i.name ≡ i.name) × (enabled i ≡ true → validate i ≡ none)

-- Each instance stands under its own identifier, which is not empty, and is proper; two of them are apart.
abbrev pub IsTidy : ⦃f : Folds⦄ → Assoc Instance → Type 0
IsTidy m =
    IsKeyed (λ i. i.id) m
    × (lookup "" m ≡ none)
    × ((id : String) (i : Instance) → lookup id m ≡ some i → IsProper i)
    × ((id id' : String) (a b : Instance)
        → id ≢ id'
        → lookup id m ≡ some a
        → lookup id' m ≡ some b
        → AreApart a b)

stamp-IsProper :
    (id : String) (created updated : ℕ) (i : Instance)
    → IsProper i
    → IsProper (set_entity_meta id created updated i)
unfolding set_entity_meta enabled validate
stamp-IsProper id zero updated i h = h
stamp-IsProper id (suc created) updated i h = h

stamp-AreApart :
    ⦃f : Folds⦄ (id : String) (created updated : ℕ) (a i : Instance)
    → AreApart a i
    → AreApart a (set_entity_meta id created updated i)
unfolding set_entity_meta enabled ports
stamp-AreApart id zero updated a i h = h
stamp-AreApart id (suc created) updated a i h = h

-- What is found after a write.
found :
    (at key : String) (new v : Instance) (m : Assoc Instance) (P : Instance → Type 0)
    → lookup key (insert at new m) ≡ some v
    → (at ≡ key → P new)
    → (at ≢ key → lookup key m ≡ some v → P v)
    → P v
found at key new v m P e p q = elim (Bool-cases (at == key)) [
  | inl same ↦ subst P (some_inj (rw (lookup-insert, same) at e)) (p ((eq_iff at key).0 same))
  | inr other ↦
      q (λ h. true≢false (sym ((eq_iff at key).1 h) ∙ other)) (rw (lookup-insert, other) at e)
]

unequal : (s t : String) → s ≢ t → (s == t) ≡ false
unequal s t ne = ground (arith, eq_iff s t)

insert-IsTidy :
    ⦃f : Folds⦄ (k : String) (i : Instance) (m : Assoc Instance)
    → IsTidy m
    → k ≢ ""
    → IsKeyed (λ i. i.id) (insert k i m)
    → IsProper i
    → ((id : String) (a : Instance) → id ≢ k → lookup id m ≡ some a → AreApart a i)
    → IsTidy (insert k i m)
insert-IsTidy k i m (keyed, blank, proper, apart) ne keyed' p q = (
  keyed',
  rw (lookup-insert, unequal k "" ne) blank,
  λ id a e. found k id i a m IsProper e (λ _. p) (λ _ e'. proper id a e'),
  λ id id' a b d ea eb.
      found k id i a m (λ x. AreApart x b) ea
        (λ same.
          found k id' i b m (λ y. AreApart i y) eb (λ same'. absurd (d (sym same ∙ same')))
            (λ other e'. AreApart-sym b i (q id' b (λ h. other (sym h)) e')))
        (λ other e.
          found k id' i b m (λ y. AreApart a y) eb (λ same'. q id a (λ h. other (sym h)) e)
            (λ other' e'. apart id id' a b d e e')),
)

kept :
    (at key : String) (v : Instance) (m : Assoc Instance)
    → lookup key (remove at m) ≡ some v
    → lookup key m ≡ some v
kept at key v m e = elim (Bool-cases (at == key)) [
  | inl same ↦ cc (rw (lookup-remove, same) at e)
  | inr other ↦ rw (lookup-remove, other) at e
]

remove-IsTidy :
    ⦃f : Folds⦄ (k : String) (m : Assoc Instance)
    → IsTidy m
    → IsKeyed (λ i. i.id) (remove k m)
    → IsTidy (remove k m)
remove-IsTidy k m (keyed, blank, proper, apart) keyed' = (
  keyed',
  rw (lookup-remove, blank) (ground arith),
  λ id a e. proper id a (kept k id a m e),
  λ id id' a b d ea eb. apart id id' a b d (kept k id a m ea) (kept k id' b m eb),
)

module _ ⦃f : Folds⦄ (codec : Codec Instance) where
  -- All the others are apart from an instance that passed the check.
  pub checked :
      (i : Instance) (c : Collection Instance) (id : String) (a : Instance)
      → IsTidy c.items
      → trim_space i.name ≡ i.name
      → check_conflicts i (list instance_entity codec c) ≡ none
      → id ≢ i.id
      → lookup id c.items ≡ some a
      → AreApart a i
  checked i c id a (keyed, blank, proper, apart) trimmed pass ne e =
      let all = check_conflicts-All i (list instance_entity codec c) pass in
      let own = id-lookup c.items id a keyed.1 e in
      check_other-AreApart i a (λ h. ne (sym own ∙ h)) trimmed
        (All-lookup (λ o. check_other i o ≡ none) c.items id a
          (All-perm (λ j. j.id) (λ o. check_other i o ≡ none)
            (list-IsSorted instance_entity codec c).1 all)
          e)

  pub put-IsTidy :
      (i : Instance) (now later : ℕ) (o : Outcome) (c : Collection Instance)
      → IsTidy c.items
      → i.id ≢ ""
      → IsProper i
      → ((id : String) (a : Instance) → id ≢ i.id → lookup id c.items ≡ some a → AreApart a i)
      → IsTidy (put instance_entity codec i now later o c).1.items
  put-IsTidy i now later o c h ne p q =
      let items = put-items instance_entity codec i now later o c (unequal i.id "" ne) in
      let keyed = put-WellFormed instance_entity codec i now later o c h.0 in
      let made = creation instance_entity codec (lookup i.id c.items) now in
      subst IsTidy (sym items) (
        insert-IsTidy i.id (stamped instance_entity codec i now later c) c.items h ne
          (subst (IsKeyed (λ j. j.id)) items keyed) (stamp-IsProper i.id made later i p)
          (λ id a d e. stamp-AreApart i.id made later a i (q id a d e)))

  pub delete-IsTidy :
      (id : String) (o : Outcome) (c : Collection Instance)
      → IsTidy c.items
      → IsTidy (delete instance_entity codec id o c).1.items
  unfolding delete
  delete-IsTidy id o c h = elim (Option-cases (lookup id c.items)) [
    | inl e ↦ rw (e, delete) h
    | inr (v, e) ↦
        let items : (delete instance_entity codec id o c).1.items ≡ remove id c.items =
          rw (e, delete) (flush-items instance_entity codec o _) in
        subst IsTidy (sym items) (
          remove-IsTidy id c.items h (
            subst (IsKeyed (λ j. j.id)) items (delete-WellFormed instance_entity codec id o c h.0)))
  ]
