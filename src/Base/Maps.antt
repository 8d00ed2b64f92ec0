-- ===== src/Base/Maps.antt =====
-- Go's `map[string]V`, as the list of its entries in the order in which a `range` meets them. Go
-- leaves that order open, so a theorem about every list is one about every order.
use Prim.Native.String.{String}
use mathlib.Core.Path.{◌≡◌, refl}
use mathlib.Core.Logic.{◌≢◌, inl, inr}
use mathlib.Core.Option.{Option, none, some}
use mathlib.Core.List.{List, [], ◌∷◌, map}
use native.Mathlib.Omega.{arith}
use text.Mathlib.TextEquality.{eq_iff}
use ycfrp.Base.Tests.{◌==◌, if◌then◌else◌, Bool-cases}
use ycfrp.Base.Lists.{All}

abbrev pub Assoc {ℓ} : Type ℓ → Type ℓ
Assoc V = List (String × V)

module _ {ℓ} {V : Type ℓ} where
  -- `v, ok := m[k]`
  unfoldable pub lookup : String → Assoc V → Option V
  lookup k [] = none
  lookup k ((name, v) ∷ rest) = if name == k then some v else lookup k rest

  -- `m[k] = v`
  unfoldable pub insert : String → V → Assoc V → Assoc V
  insert k v [] = (k, v) ∷ []
  insert k v ((j, w) ∷ m) = let rest = insert k v m in if j == k then (j, v) ∷ m else (j, w) ∷ rest

  -- `delete(m, k)`
  unfoldable pub remove : String → Assoc V → Assoc V
  remove k [] = []
  remove k ((j, v) ∷ m) = let rest = remove k m in if j == k then rest else (j, v) ∷ rest

  -- the values that `range m` meets
  abbrev pub values : Assoc V → List V
  values = map (λ e. e.1)

  abbrev pub keys : Assoc V → List String
  keys = map (λ e. e.0)

  -- A read after a write at `at`.
  pub lookup-insert :
      (at key : String) (new : V) (m : Assoc V)
      → lookup key (insert at new m) ≡ (if at == key then some new else lookup key m)
  unfolding insert lookup
  lookup-insert at key new [] = refl
  lookup-insert at key new ((name, old) ∷ rest) =
      ground (lookup-insert at key new rest, eq_iff name at, eq_iff name key, eq_iff at key, arith)

  -- A read after a deletion at `at`.
  pub lookup-remove :
      (at key : String) (m : Assoc V)
      → lookup key (remove at m) ≡ (if at == key then none else lookup key m)
  unfolding remove lookup
  lookup-remove at key [] = ground arith
  lookup-remove at key ((name, old) ∷ rest) =
      ground (lookup-remove at key rest, eq_iff name at, eq_iff name key, eq_iff at key, arith)

  -- No key stands twice.
  abbrev pub IsMap : Assoc V → Type 0
  IsMap [] = Unit
  IsMap ((k, v) ∷ m) = All (λ j. k ≢ j) (keys m) × IsMap m

  All-insert {κ} :
      (P : String → Type κ) (k : String) (v : V) (m : Assoc V)
      → P k
      → All P (keys m)
      → All P (keys (insert k v m))
  unfolding insert
  All-insert P k v [] p h = (p, tt)
  All-insert P k v ((j, w) ∷ m) p (q, h) = ground (arith, All-insert P k v m p h)

  All-remove {κ} :
      (P : String → Type κ) (k : String) (m : Assoc V) → All P (keys m) → All P (keys (remove k m))
  unfolding remove
  All-remove P k [] h = tt
  All-remove P k ((j, w) ∷ m) (q, h) = ground (arith, All-remove P k m h)

  pub insert-IsMap : (k : String) (v : V) (m : Assoc V) → IsMap m → IsMap (insert k v m)
  unfolding insert
  insert-IsMap k v [] h = (tt, tt)
  insert-IsMap k v ((j, w) ∷ m) (f, h) =
      ground (arith, eq_iff j k, insert-IsMap k v m h, All-insert (λ i. j ≢ i) k v m)

  pub remove-IsMap : (k : String) (m : Assoc V) → IsMap m → IsMap (remove k m)
  unfolding remove
  remove-IsMap k [] h = tt
  remove-IsMap k ((j, w) ∷ m) (f, h) =
      ground (arith, remove-IsMap k m h, All-remove (λ i. j ≢ i) k m)

  pub All-insert_entry {κ} :
      (P : String × V → Type κ) (k : String) (v : V) (m : Assoc V)
      → P (k, v)
      → All P m
      → All P (insert k v m)
  unfolding insert
  All-insert_entry P k v [] p h = (p, tt)
  All-insert_entry P k v ((j, w) ∷ m) p (q, h) = elim (Bool-cases (j == k)) [
    | inl e ↦ rw (e, (eq_iff j k).0 e) (p, h)
    | inr e ↦ rw e (q, All-insert_entry P k v m p h)
  ]

  pub All-remove_entry {κ} :
      (P : String × V → Type κ) (k : String) (m : Assoc V) → All P m → All P (remove k m)
  unfolding remove
  All-remove_entry P k [] h = tt
  All-remove_entry P k ((j, w) ∷ m) (q, h) = elim (Bool-cases (j == k)) [
    | inl e ↦ rw e (All-remove_entry P k m h)
    | inr e ↦ rw e (q, All-remove_entry P k m h)
  ]
