-- ===== src/Base/Text.antt =====
-- What the source calls of Go's `strings` and `strconv`. A text is its sequence of code points,
-- which compare and concatenate as its bytes do.
use Prim.Native.Nat.{ℕ, zero, suc, ◌-◌, ◌/◌, ◌%◌}
use Prim.Native.Char.{Char, code}
use Prim.Native.String.{String, ◌++◌, char_at}
use mathlib.Core.Bool.{Bool, true, false, ◌&&◌, ◌||◌}
use mathlib.Core.List.{List, [], ◌∷◌}
use mathlib.Core.Option.{Option, none, some}
use ycfrp.Base.Tests.{ltb, leb, eqb, ◌==◌, if◌then◌else◌}
use ycfrp.Base.Ints.{ℤ, pos, negsuc}

-- `unicode.IsSpace`
unfoldable pub is_space : ℕ → Bool
is_space c =
    (leb 9 c && leb c 13)
    || eqb c 32
    || eqb c 133
    || eqb c 160
    || eqb c 5760
    || (leb 8192 c && leb c 8202)
    || eqb c 8232
    || eqb c 8233
    || eqb c 8239
    || eqb c 8287
    || eqb c 12288

unfoldable pub trim_left : String → String
unfolding is_space
trim_left String.[] = String.[]
trim_left (String.◌∷◌ c s) =
    let rest = trim_left s in if is_space (code c) then rest else String.◌∷◌ c s

-- a character in front of what is left of a text trimmed at its right
abbrev pub keep_unless_space : Char → String → String
keep_unless_space c String.[] = if is_space (code c) then String.[] else String.◌∷◌ c String.[]
keep_unless_space c (String.◌∷◌ d s) = String.◌∷◌ c (String.◌∷◌ d s)

unfoldable pub trim_right : String → String
unfolding is_space
trim_right String.[] = String.[]
trim_right (String.◌∷◌ c s) = keep_unless_space c (trim_right s)

-- `strings.TrimSpace`
unfoldable pub trim_space : String → String
unfolding trim_left trim_right
trim_space s = trim_right (trim_left s)

-- `strings.HasPrefix`
unfoldable pub has_prefix : String → String → Bool
has_prefix s String.[] = true
has_prefix String.[] (String.◌∷◌ d t) = false
has_prefix (String.◌∷◌ c s) (String.◌∷◌ d t) = eqb (code c) (code d) && has_prefix s t

-- `strings.Contains`
unfoldable pub contains : String → String → Bool
unfolding has_prefix
contains String.[] t = has_prefix String.[] t
contains (String.◌∷◌ c s) t = has_prefix (String.◌∷◌ c s) t || contains s t

-- `strings.HasSuffix`
unfoldable pub has_suffix : String → String → Bool
has_suffix String.[] t = String.[] == t
has_suffix (String.◌∷◌ c s) t = String.◌∷◌ c s == t || has_suffix s t

-- `strings.TrimPrefix`
unfoldable pub trim_prefix : String → String → Option String
trim_prefix s String.[] = some s
trim_prefix String.[] (String.◌∷◌ d t) = none
trim_prefix (String.◌∷◌ c s) (String.◌∷◌ d t) =
    let rest = trim_prefix s t in if eqb (code c) (code d) then rest else none

-- `strings.Join`
unfoldable pub join : List String → String → String
join [] sep = String.[]
join (s ∷ []) sep = s
join (s ∷ t ∷ rest) sep = s ++ (sep ++ join (t ∷ rest) sep)

-- `unicode.ToLower` beyond ASCII, whose table the source does not hold.
pub record Runes : Type 0 where
  pub lower : Char → Char

abbrev lower_char : Runes → Char → Char
lower_char r c =
    if leb 65 (code c) && leb (code c) 90
    then char_at "abcdefghijklmnopqrstuvwxyz" (code c - 65)
    else if ltb (code c) 128
    then c
    else r.lower c

-- `strings.ToLower`
unfoldable pub to_lower : ⦃r : Runes⦄ → String → String
to_lower String.[] = String.[]
to_lower ⦃r⦄ (String.◌∷◌ c s) = String.◌∷◌ (lower_char r c) (to_lower s)

abbrev pub is_digit : ℕ → Bool
is_digit c = leb 48 c && leb c 57

digits_onto : ℕ → ℕ → String → String
digits_onto zero n acc = acc
digits_onto (suc f) n acc =
    let acc' = String.◌∷◌ (char_at "0123456789" (n % 10)) acc in
    let more = digits_onto f (n / 10) acc' in if ltb n 10 then acc' else more

-- `strconv.Itoa`; a number has no more digits than its value plus one
unfoldable pub itoa : ℤ → String
unfolding digits_onto
itoa (pos n) = digits_onto (suc n) n ""
itoa (negsuc n) = "-" ++ digits_onto (suc (suc n)) (suc n) ""

-- `s[:strings.Index(s, sep)]`, where `sep` stands in `s`
unfoldable pub text_before : String → String → Option String
unfolding has_prefix
text_before String.[] sep = if has_prefix String.[] sep then some String.[] else none
text_before (String.◌∷◌ c s) sep =
    let rest = text_before s sep in
    if has_prefix (String.◌∷◌ c s) sep
    then some String.[]
    else elim rest [ none ↦ none | some h ↦ some (String.◌∷◌ c h) ]
