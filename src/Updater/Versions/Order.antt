-- ===== src/Updater/Versions/Order.antt =====
-- The order of versions.
use ycfrp.Base.{
  ℕ, ◌+◌, ◌-◌, ◌*◌, ◌%◌, ◌<◌, String, Option, none, some, ℤ, pos, negsuc, ltb, code, ◌≡◌, refl, ap,
  ◌∙◌, arith, if◌then◌else◌, inl, inr, Bool-cases, Option-cases, is_digit,
}
use ycfrp.Updater.Versions.{
  word, sign_bit, int64_lt, digits_value, version_parts, both, parse_version, compare_versions,
}

-- The number that digits are, without a bound.
unfoldable pub number_of : ℕ → String → Option ℕ
number_of n String.[] = some n
number_of n (String.◌∷◌ c s) =
    let rest = number_of (n * 10 + (code c - 48)) s in if is_digit (code c) then rest else none

abbrev wrapped : Option ℕ → Option ℕ
wrapped none = none
wrapped (some n) = some (n % word)

step_wraps : (n d : ℕ) → ((n % word) * 10 + d) % word ≡ (n * 10 + d) % word
step_wraps n d = omega arith

digits_value-number_of : (n : ℕ) (s : String) → digits_value (n % word) s ≡ wrapped (number_of n s)
unfolding digits_value number_of
digits_value-number_of n String.[] = refl
digits_value-number_of n (String.◌∷◌ c s) = elim (Bool-cases (is_digit (code c))) [
  | inl e ↦ rw (e, step_wraps n (code c - 48)) (digits_value-number_of (n * 10 + (code c - 48)) s)
  | inr e ↦ rw e refl
]

abbrev pub paired : Option ℕ → Option ℕ → Option (ℕ × ℕ)
paired (some y) (some r) = some (y, r)
paired _ _ = none

abbrev pub numbers : Option (String × String) → Option (ℕ × ℕ)
numbers none = none
numbers (some (ym, rev)) = paired (number_of 0 ym) (number_of 0 rev)

-- The month and the revision that a version says.
unfoldable pub version_numbers : String → Option (ℕ × ℕ)
unfolding number_of
version_numbers v = numbers (version_parts v)

abbrev joined : Option (ℕ × ℕ) → Option ℕ
joined none = none
joined (some (y, r)) = some (((y % word) * 10000 + r % word) % word)

both-paired : (o p : Option ℕ) → both (wrapped o) (wrapped p) ≡ joined (paired o p)
both-paired none none = refl
both-paired none (some r) = refl
both-paired (some y) none = refl
both-paired (some y) (some r) = refl

parse_version-numbers : (v : String) → parse_version v ≡ joined (version_numbers v)
unfolding parse_version version_numbers
parse_version-numbers v = elim (Option-cases (version_parts v)) [
  | inl e ↦ rw (e, parse_version, version_numbers) refl
  | inr ((ym, rev), e) ↦
      rw
        (
          e,
          parse_version,
          version_numbers,
          digits_value-number_of 0 ym,
          digits_value-number_of 0 rev,
        )
        (both-paired (number_of 0 ym) (number_of 0 rev))
]

-- The order by month, then by revision.
abbrev pub by_month : ℕ → ℕ → ℕ → ℕ → ℤ
by_month y r y' r' =
    if ltb y' y
    then pos 1
    else if ltb y y'
    then negsuc 0
    else if ltb r' r
    then pos 1
    else if ltb r r'
    then negsuc 0
    else pos 0

fits :
    (y r : ℕ)
    → y < 100000000000000
    → r < 10000
    → ((y % word) * 10000 + r % word) % word ≡ y * 10000 + r
fits y r h k = omega arith

int64_lt_small : (a b : ℕ) → a < sign_bit → b < sign_bit → int64_lt a b ≡ ltb a b
int64_lt_small a b h k =
    let ea : (a + sign_bit) % word ≡ a + sign_bit = omega arith in
    let eb : (b + sign_bit) % word ≡ b + sign_bit = omega arith in rw (ea, eb) (ground arith)

compare_small :
    (y r y' r' : ℕ) (other : ℤ)
    → r < 10000
    → r' < 10000
    → (if ltb (y' * 10000 + r') (y * 10000 + r)
        then pos 1
        else if ltb (y * 10000 + r) (y' * 10000 + r')
        then negsuc 0
        else pos 0)
      ≡ by_month y r y' r'
compare_small y r y' r' other h k = ground arith

-- `CompareVersions` orders versions by month and then by revision, as long as a month has at most fourteen digits
-- and a revision at most four: the number into which it packs the two neither overflows nor runs over.
pub compare_versions-by_month :
    (a b : String) (y r y' r' : ℕ)
    → version_numbers a ≡ some (y, r)
    → version_numbers b ≡ some (y', r')
    → y < 100000000000000
    → y' < 100000000000000
    → r < 10000
    → r' < 10000
    → compare_versions a b ≡ by_month y r y' r'
unfolding compare_versions
compare_versions-by_month a b y r y' r' ea eb hy hy' hr hr' =
    let pa = parse_version-numbers a ∙ ap joined ea ∙ ap some (fits y r hy hr) in
    let pb = parse_version-numbers b ∙ ap joined eb ∙ ap some (fits y' r' hy' hr') in
    let lt = int64_lt_small (y * 10000 + r) (y' * 10000 + r') (omega arith) (omega arith) in
    let gt = int64_lt_small (y' * 10000 + r') (y * 10000 + r) (omega arith) (omega arith) in
    rw (pa, pb, lt, gt) (compare_small y r y' r' (pos 0) hr hr')
