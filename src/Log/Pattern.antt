-- ===== src/Log/Pattern.antt =====
-- The part of package `regexp` that internal/logx/translate.go uses: patterns that start at the
-- start of the text, of literals, greedy runs of a class of characters and a choice of two words. The
-- match is the one that a search with backtracking finds first, as Go's is.
use Prim.Native.String.{◌++◌}
use ycfrp.Base.{
  ℕ, String, Bool, not, ◌||◌, ◌&&◌, Option, none, some, List, [], ◌∷◌, eqb, leb, ◌==◌,
  if◌then◌else◌, trim_prefix, code,
}

pub data Atom : Type 0 where
  lit : String → Atom
  one many many1 : (ℕ → Bool) → Atom
  either : String → String → Atom

-- An atom with the number of the group it stands in, 0 for none.
abbrev pub Pattern : Type 0
Pattern = List (ℕ × Atom)

-- a piece of a replacement text: `$n` is a group
pub data Part : Type 0 where
  text : String → Part
  group : ℕ → Part

-- What each atom took, and what is left of the text.
abbrev pub Match : Type 0
Match = List String × String

abbrev pub took : String → Option Match → Option Match
took s none = none
took s (some (ts, rest)) = some (s ∷ ts, rest)

-- one more character in front of what the first atom took
abbrev pub longer : String → Option Match → Option Match
longer c none = none
longer c (some ([], rest)) = none
longer c (some (t ∷ ts, rest)) = some ((c ++ t) ∷ ts, rest)

abbrev pub first_of : Option Match → Option Match → Option Match
first_of (some m) other = some m
first_of none other = other

-- The longest run for which the rest of the pattern matches.
unfoldable pub greedy : (ℕ → Bool) → (String → Option Match) → String → Option Match
greedy p next String.[] = took "" (next String.[])
greedy p next (String.◌∷◌ c s) =
    let more = greedy p next s in
    let stop = took "" (next (String.◌∷◌ c s)) in
    if p (code c) then first_of (longer (String.◌∷◌ c String.[]) more) stop else stop

unfoldable pub greedy1 : (ℕ → Bool) → (String → Option Match) → String → Option Match
unfolding greedy
greedy1 p next String.[] = none
greedy1 p next (String.◌∷◌ c s) =
    if p (code c) then longer (String.◌∷◌ c String.[]) (greedy p next s) else none

abbrev pub after_word : String → (String → Option Match) → Option String → Option Match
after_word w next none = none
after_word w next (some rest) = took w (next rest)

unfoldable pub single : (ℕ → Bool) → (String → Option Match) → String → Option Match
single p next String.[] = none
single p next (String.◌∷◌ c s) = if p (code c) then took (String.◌∷◌ c String.[]) (next s) else none

-- `whole` for a pattern that ends with `$`
unfoldable pub match_from : Bool → Pattern → String → Option Match
unfolding single greedy greedy1 trim_prefix
match_from whole [] s = if whole && not (s == "") then none else some ([], s)
match_from whole ((_, lit w) ∷ atoms) s = after_word w (match_from whole atoms) (trim_prefix s w)
match_from whole ((_, one p) ∷ atoms) s = single p (match_from whole atoms) s
match_from whole ((_, many p) ∷ atoms) s = greedy p (match_from whole atoms) s
match_from whole ((_, many1 p) ∷ atoms) s = greedy1 p (match_from whole atoms) s
match_from whole ((_, either v w) ∷ atoms) s =
    first_of (after_word v (match_from whole atoms) (trim_prefix s v))
      (after_word w (match_from whole atoms) (trim_prefix s w))

-- the text that a group took
unfoldable pub captured : ℕ → Pattern → List String → String
captured n [] ts = ""
captured n (a ∷ atoms) [] = ""
captured n ((g, _) ∷ atoms) (t ∷ ts) =
    let rest = captured n atoms ts in if eqb g n then t ++ rest else rest

-- `Expand`
unfoldable pub fill : Pattern → List String → List Part → String
unfolding captured
fill atoms ts [] = ""
fill atoms ts (text s ∷ parts) = s ++ fill atoms ts parts
fill atoms ts (group n ∷ parts) = captured n atoms ts ++ fill atoms ts parts

abbrev pub not_newline : ℕ → Bool
not_newline c = not (eqb c 10)

abbrev pub not_bracket : ℕ → Bool
not_bracket c = not (eqb c 93)

abbrev pub not_colon : ℕ → Bool
not_colon c = not (eqb c 58)

abbrev pub digit : ℕ → Bool
digit c = leb 48 c && leb c 57

-- `\s`
abbrev pub blank : ℕ → Bool
blank c = eqb c 9 || eqb c 10 || eqb c 12 || eqb c 13 || eqb c 32
