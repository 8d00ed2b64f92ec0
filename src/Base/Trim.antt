-- ===== src/Base/Trim.antt =====
-- A text that was trimmed is trimmed.
use Prim.Native.Char.{Char, code}
use Prim.Native.String.{String}
use mathlib.Core.Path.{◌≡◌, refl, ap, ◌∙◌}
use mathlib.Core.Bool.{false}
use mathlib.Core.Logic.{inl, inr}
use ycfrp.Base.Tests.{Bool-cases}
use ycfrp.Base.Text.{is_space, trim_left, trim_right, trim_space, keep_unless_space}

-- No blank stands at the start.
abbrev StartsWell : String → Type 0
StartsWell String.[] = Unit
StartsWell (String.◌∷◌ c s) = is_space (code c) ≡ false

-- No blank stands at the end.
abbrev EndsWell : String → Type 0
EndsWell String.[] = Unit
EndsWell (String.◌∷◌ c String.[]) = is_space (code c) ≡ false
EndsWell (String.◌∷◌ c (String.◌∷◌ d s)) = EndsWell (String.◌∷◌ d s)

trim_left-StartsWell : (s : String) → StartsWell (trim_left s)
unfolding trim_left
trim_left-StartsWell String.[] = tt
trim_left-StartsWell (String.◌∷◌ c s) = elim (Bool-cases (is_space (code c))) [
  | inl e ↦ rw e (trim_left-StartsWell s)
  | inr e ↦ rw (e, StartsWell) e
]

trim_left_same : (s : String) → StartsWell s → trim_left s ≡ s
unfolding trim_left
trim_left_same String.[] h = refl
trim_left_same (String.◌∷◌ c s) h = rw h refl

keep-EndsWell : (c : Char) (s : String) → EndsWell s → EndsWell (keep_unless_space c s)
keep-EndsWell c String.[] h = elim (Bool-cases (is_space (code c))) [
  | inl e ↦ rw e tt
  | inr e ↦ rw (e, EndsWell) e
]
keep-EndsWell c (String.◌∷◌ d s) h = h

trim_right-EndsWell : (s : String) → EndsWell (trim_right s)
unfolding trim_right
trim_right-EndsWell String.[] = tt
trim_right-EndsWell (String.◌∷◌ c s) = keep-EndsWell c (trim_right s) (trim_right-EndsWell s)

trim_right_same : (s : String) → EndsWell s → trim_right s ≡ s
unfolding trim_right
trim_right_same String.[] h = refl
trim_right_same (String.◌∷◌ c String.[]) h = rw h refl
trim_right_same (String.◌∷◌ c (String.◌∷◌ d s)) h =
    ap (keep_unless_space c) (trim_right_same (String.◌∷◌ d s) h)

keep-StartsWell :
    (c : Char) (s : String) → is_space (code c) ≡ false → StartsWell (keep_unless_space c s)
keep-StartsWell c String.[] h = rw (h, StartsWell) h
keep-StartsWell c (String.◌∷◌ d s) h = h

trim_right-StartsWell : (s : String) → StartsWell s → StartsWell (trim_right s)
unfolding trim_right
trim_right-StartsWell String.[] h = tt
trim_right-StartsWell (String.◌∷◌ c s) h = keep-StartsWell c (trim_right s) h

pub trim_space_idem : (s : String) → trim_space (trim_space s) ≡ trim_space s
unfolding trim_space
trim_space_idem s =
    ap trim_right (
      trim_left_same (trim_right (trim_left s))
        (trim_right-StartsWell (trim_left s) (trim_left-StartsWell s)))
    ∙ trim_right_same (trim_right (trim_left s)) (trim_right-EndsWell (trim_left s))
