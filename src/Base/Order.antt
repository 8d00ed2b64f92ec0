-- ===== src/Base/Order.antt =====
-- The order of Go's strings, byte by byte, which is that of their code points, and the stable sort
-- by a text key, as `sort.SliceStable` gives it.
use Prim.Native.Char.{code}
use Prim.Native.String.{String}
use mathlib.Core.Path.{◌≡◌, refl, sym, subst, subst₂, ◌∙◌}
use mathlib.Core.Bool.{Bool, true, false}
use mathlib.Core.Logic.{inl, inr, ◌≢◌}
use mathlib.Core.List.{List, [], ◌∷◌, Permᴰ}
use mathlib.Core.List.Permᴰ
use native.Mathlib.Omega.{arith}
use text.Mathlib.TextEquality.{Char-path}
use ycfrp.Base.Tests.{ltb, if◌then◌else◌, Bool-cases}
use ycfrp.Base.Lists.{All}

-- `s < t`
unfoldable pub text_lt : String → String → Bool
text_lt String.[] String.[] = false
text_lt String.[] (String.◌∷◌ d t) = true
text_lt (String.◌∷◌ c s) String.[] = false
text_lt (String.◌∷◌ c s) (String.◌∷◌ d t) =
    let rest = text_lt s t in
    if ltb (code c) (code d) then true else if ltb (code d) (code c) then false else rest

pub text_lt_irrefl : (s : String) → text_lt s s ≡ false
unfolding text_lt
text_lt_irrefl String.[] = refl
text_lt_irrefl (String.◌∷◌ c s) = ground (arith, text_lt_irrefl s)

pub text_lt_asymm : (s t : String) → text_lt s t ≡ true → text_lt t s ≡ false
unfolding text_lt
text_lt_asymm String.[] String.[] h = refl
text_lt_asymm String.[] (String.◌∷◌ d t) h = refl
text_lt_asymm (String.◌∷◌ c s) String.[] h = ground arith
text_lt_asymm (String.◌∷◌ c s) (String.◌∷◌ d t) h = ground (arith, text_lt_asymm s t)

-- "Not above" is transitive.
pub not_above_trans :
    (s t u : String) → text_lt t s ≡ false → text_lt u t ≡ false → text_lt u s ≡ false
unfolding text_lt
not_above_trans String.[] String.[] u h k = k
not_above_trans String.[] (String.◌∷◌ d t) String.[] h k = refl
not_above_trans String.[] (String.◌∷◌ d t) (String.◌∷◌ e u) h k = refl
not_above_trans (String.◌∷◌ c s) String.[] u h k = ground arith
not_above_trans (String.◌∷◌ c s) (String.◌∷◌ d t) String.[] h k = ground arith
not_above_trans (String.◌∷◌ c s) (String.◌∷◌ d t) (String.◌∷◌ e u) h k =
    ground (arith, not_above_trans s t u)

pub eq_of_not_lt : (s t : String) → text_lt s t ≡ false → text_lt t s ≡ false → s ≡ t
unfolding text_lt
eq_of_not_lt String.[] String.[] h k = refl
eq_of_not_lt String.[] (String.◌∷◌ d t) h k = ground arith
eq_of_not_lt (String.◌∷◌ c s) String.[] h k = ground arith
eq_of_not_lt (String.◌∷◌ c s) (String.◌∷◌ d t) h k = ground (arith, Char-path c d, eq_of_not_lt s t)

module _ {ℓ} {A : Type ℓ} (key : A → String) where
  unfoldable pub insert_by : A → List A → List A
  insert_by x [] = x ∷ []
  insert_by x (y ∷ ys) =
      let later = y ∷ insert_by x ys in if text_lt (key y) (key x) then later else x ∷ y ∷ ys

  unfoldable pub sort_by : List A → List A
  unfolding insert_by text_lt
  sort_by [] = []
  sort_by (x ∷ xs) = insert_by x (sort_by xs)

  -- No element stands before one with a smaller key.
  abbrev pub IsSorted : List A → Type 0
  IsSorted [] = Unit
  IsSorted (x ∷ xs) = All (λ y. text_lt (key y) (key x) ≡ false) xs × IsSorted xs

  All-not_above :
      (x y : A) (ys : List A)
      → text_lt (key y) (key x) ≡ false
      → All (λ z. text_lt (key z) (key y) ≡ false) ys
      → All (λ z. text_lt (key z) (key x) ≡ false) ys
  All-not_above x y [] h k = tt
  All-not_above x y (z ∷ zs) h (k, ks) =
      (not_above_trans (key x) (key y) (key z) h k, All-not_above x y zs h ks)

  All-insert_by {κ} :
      (P : A → Type κ) (x : A) (ys : List A) → P x → All P ys → All P (insert_by x ys)
  unfolding insert_by
  All-insert_by P x [] p k = (p, tt)
  All-insert_by P x (y ∷ ys) p (q, k) = elim (Bool-cases (text_lt (key y) (key x))) [
    | inl e ↦ rw e (q, All-insert_by P x ys p k)
    | inr e ↦ rw e (p, (q, k))
  ]

  insert_by-IsSorted : (x : A) (ys : List A) → IsSorted ys → IsSorted (insert_by x ys)
  unfolding insert_by
  insert_by-IsSorted x [] h = (tt, tt)
  insert_by-IsSorted x (y ∷ ys) (b, h) = elim (Bool-cases (text_lt (key y) (key x))) [
    | inl e ↦ rw e (
      All-insert_by (λ z. text_lt (key z) (key y) ≡ false) x ys (text_lt_asymm (key y) (key x) e) b,
      insert_by-IsSorted x ys h,
    )
    | inr e ↦ rw e ((e, All-not_above x y ys e b), (b, h))
  ]

  pub sort_by-IsSorted : (xs : List A) → IsSorted (sort_by xs)
  unfolding sort_by
  sort_by-IsSorted [] = tt
  sort_by-IsSorted (x ∷ xs) = insert_by-IsSorted x (sort_by xs) (sort_by-IsSorted xs)

  insert_by-perm : (x : A) (ys : List A) → Permᴰ (insert_by x ys) (x ∷ ys)
  unfolding insert_by
  insert_by-perm x [] = Permᴰ.refl _
  insert_by-perm x (y ∷ ys) = elim (Bool-cases (text_lt (key y) (key x))) [
    | inl e ↦ rw e (Permᴰ.trans (Permᴰ.cons refl (insert_by-perm x ys)) (Permᴰ.swap refl refl))
    | inr e ↦ rw e (Permᴰ.refl _)
  ]

  pub sort_by-perm : (xs : List A) → Permᴰ (sort_by xs) xs
  unfolding sort_by
  sort_by-perm [] = Permᴰ.refl _
  sort_by-perm (x ∷ xs) =
      Permᴰ.trans (insert_by-perm x (sort_by xs)) (Permᴰ.cons refl (sort_by-perm xs))

  insert_by_swap :
      (x y : A) (l : List A)
      → key x ≢ key y
      → insert_by x (insert_by y l) ≡ insert_by y (insert_by x l)
  unfolding insert_by
  insert_by_swap x y [] ne =
      ground (arith, eq_of_not_lt (key x) (key y), text_lt_asymm (key x) (key y))
  insert_by_swap x y (z ∷ l) ne = ground (
    arith,
    eq_of_not_lt (key x) (key y),
    text_lt_asymm (key x) (key y),
    text_lt_asymm (key x) (key z),
    text_lt_asymm (key y) (key z),
    not_above_trans (key x) (key z) (key y),
    not_above_trans (key y) (key z) (key x),
    insert_by_swap x y l ne,
  )

  -- The keys differ pairwise.
  abbrev pub Distinct : List A → Type 0
  Distinct [] = Unit
  Distinct (x ∷ xs) = All (λ y. key x ≢ key y) xs × Distinct xs

  pub All-perm {κ} : (P : A → Type κ) {xs ys : List A} → Permᴰ xs ys → All P xs → All P ys
  All-perm P Permᴰ.nil h = tt
  All-perm P (Permᴰ.cons e p) (h, k) = (subst P e h, All-perm P p k)
  All-perm P (Permᴰ.swap {l} e f) (h, (h', k)) = (subst P f h', (subst P e h, k))
  All-perm P (Permᴰ.trans p q) h = All-perm P q (All-perm P p h)

  pub Distinct-perm : {xs ys : List A} → Permᴰ xs ys → Distinct xs → Distinct ys
  Distinct-perm Permᴰ.nil h = tt
  Distinct-perm (Permᴰ.cons {a} {b} {l₁} {l₂} e p) (h, k) = (
    subst (λ c. All (λ y. key c ≢ key y) l₂) e (All-perm (λ y. key a ≢ key y) p h),
    Distinct-perm p k,
  )
  Distinct-perm (Permᴰ.swap {a} {b} {a'} {b'} {l} e f) ((h, h'), (k, d)) =
      subst₂ (λ u v. Distinct (u ∷ v ∷ l)) f e (((λ p. h (sym p)), k), (h', d))
  Distinct-perm (Permᴰ.trans p q) d = Distinct-perm q (Distinct-perm p d)

  -- The order in which distinct elements arrive does not show in the sorted list.
  pub sort_by-perm_eq : {xs ys : List A} → Permᴰ xs ys → Distinct xs → sort_by xs ≡ sort_by ys
  unfolding sort_by
  sort_by-perm_eq Permᴰ.nil d = refl
  sort_by-perm_eq (Permᴰ.cons e p) (h, d) = rw (e, sort_by-perm_eq p d)
  sort_by-perm_eq (Permᴰ.swap {a} {b} {a'} {b'} {l} e f) ((h, h'), (k, d)) =
      rw (← e, ← f) (insert_by_swap a b (sort_by l) h)
  sort_by-perm_eq (Permᴰ.trans p q) d = sort_by-perm_eq p d ∙ sort_by-perm_eq q (Distinct-perm p d)
