-- ===== src/Updater/Versions.antt =====
-- internal/updater/updater.go: the addresses and the order of versions. Go's int64 is kept modulo 2 ^ 64; the
-- upper half of the residues are the negative numbers.
pub mod Order
use Prim.Native.String.{◌++◌}
use ycfrp.Base.{
  ℕ, ◌+◌, ◌-◌, ◌*◌, ◌%◌, String, Char, code, Bool, true, false, not, ◌||◌, Option, none, some, ℤ,
  pos, negsuc, ltb, eqb, ◌==◌, if◌then◌else◌, trim_space, trim_prefix, has_prefix, is_digit,
  text_lt,
}

abbrev pub is_slash : Char → Bool
is_slash c = eqb (code c) 47

abbrev pub keep_unless_slash : Char → String → String
keep_unless_slash c String.[] = if is_slash c then String.[] else String.◌∷◌ c String.[]
keep_unless_slash c (String.◌∷◌ d s) = String.◌∷◌ c (String.◌∷◌ d s)

-- `strings.TrimRight(s, "/")`
unfoldable pub trim_slashes : String → String
trim_slashes String.[] = String.[]
trim_slashes (String.◌∷◌ c s) = keep_unless_slash c (trim_slashes s)

-- `ManifestURL`
unfoldable pub manifest_url : String → String
unfolding trim_slashes trim_space
manifest_url base =
    let base' = trim_slashes (trim_space base) in
    if base' == "" then "" else base' ++ "/version.json"

-- `SameOrigin`
unfoldable pub same_origin : String → String → Bool
unfolding trim_slashes trim_space has_prefix
same_origin base target =
    let base' = trim_slashes (trim_space base) in
    let target' = trim_space target in
    if (base' == "") || (target' == "") then false else has_prefix target' (base' ++ "/")

-- 2 ^ 64
abbrev pub word : ℕ
word = 18446744073709551616

abbrev pub sign_bit : ℕ
sign_bit = 9223372036854775808

-- `a < b` for int64
abbrev pub int64_lt : ℕ → ℕ → Bool
int64_lt a b = ltb ((a + sign_bit) % word) ((b + sign_bit) % word)

-- the loop over digits of `parseVersion`
unfoldable pub digits_value : ℕ → String → Option ℕ
digits_value n String.[] = some n
digits_value n (String.◌∷◌ c s) =
    let rest = digits_value ((n * 10 + (code c - 48)) % word) s in
    if is_digit (code c) then rest else none

-- what stands before and after the first point
unfoldable pub at_point : String → Option (String × String)
at_point String.[] = none
at_point (String.◌∷◌ c s) =
    let rest = at_point s in
    if eqb (code c) 46
    then some (String.[], s)
    else elim rest [ none ↦ none | some (h, t) ↦ some (String.◌∷◌ c h, t) ]

abbrev without_s : String → String
without_s v = elim (trim_prefix v "s") [ none ↦ v | some rest ↦ rest ]

-- the two numbers of a version, as texts
unfoldable pub version_parts : String → Option (String × String)
unfolding trim_space trim_prefix at_point
version_parts v = elim (at_point (trim_space (without_s (trim_space v)))) [
  | none ↦ none
  | some (ym, rev) ↦ (if (ym == "") || (rev == "") then none else some (ym, rev))
]

abbrev pub both : Option ℕ → Option ℕ → Option ℕ
both (some ym) (some rev) = some ((ym * 10000 + rev) % word)
both _ _ = none

-- `parseVersion`
unfoldable pub parse_version : String → Option ℕ
unfolding version_parts digits_value
parse_version v = elim (version_parts v) [
  | none ↦ none
  | some (ym, rev) ↦ both (digits_value 0 ym) (digits_value 0 rev)
]

-- `strings.Compare`
abbrev pub compare_texts : String → String → ℤ
compare_texts a b = if text_lt a b then negsuc 0 else if text_lt b a then pos 1 else pos 0

abbrev pub compare_parsed : Option ℕ → Option ℕ → ℤ → ℤ
compare_parsed (some a) (some b) other =
    if int64_lt b a then pos 1 else if int64_lt a b then negsuc 0 else pos 0
compare_parsed _ _ other = other

-- `CompareVersions`
unfoldable pub compare_versions : String → String → ℤ
unfolding parse_version trim_space
compare_versions a b =
    compare_parsed (parse_version a) (parse_version b) (compare_texts (trim_space a) (trim_space b))
