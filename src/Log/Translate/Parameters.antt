-- ===== src/Log/Translate/Parameters.antt =====
-- What a translated message is made of.
use Prim.Native.String.{◌++◌}
use ycfrp.Base
use text.Mathlib.TextLemmas.{append_assoc, nil-append, cons-append, append-nil}
use ycfrp.Base.{
  ℕ, String, Char, subst, Bool, true, false, Option, none, some, List, [], ◌∷◌, ◌≡◌, ◌⊎◌, inl, inr,
  refl, sym, ap, ◌∙◌, arith, All, Option-cases, Bool-cases, trim_prefix, eqb, code, ◌==◌, not, ◌&&◌,
  some_inj, eq_iff,
}
use text.Mathlib.TextEquality.{Char-path}
use ycfrp.Log.Pattern.{
  Pattern, Match, lit, one, many, many1, either, took, longer, first_of, after_word, greedy,
  greedy1, single, match_from, fill,
}
use ycfrp.Log.Rules.{Rule}
use ycfrp.Log.Table.{kernel_trans}
use ycfrp.Log.Translate.{first_rule, translate_kernel}

unfoldable pub concat : List String → String
concat [] = ""
concat (t ∷ ts) = t ++ concat ts

-- What was taken and what is left make the text; nothing is left where the whole text is asked for.
abbrev RebuildsTo : Bool → String → Option Match → Type 0
RebuildsTo end s none = Unit
RebuildsTo end s (some (ts, rest)) = (concat ts ++ rest ≡ s) × (end ≡ true → rest ≡ "")

one_char : (c : Char) (s : String) → String.◌∷◌ c String.[] ++ s ≡ String.◌∷◌ c s
one_char c s = cons-append c String.[] s ∙ ap (String.◌∷◌ c) (nil-append s)

append-trim_prefix : (s w rest : String) → trim_prefix s w ≡ some rest → w ++ rest ≡ s
unfolding trim_prefix
append-trim_prefix s String.[] rest e = ap (λ t. "" ++ t) (sym (some_inj e)) ∙ nil-append s
append-trim_prefix String.[] (String.◌∷◌ d w) rest e = cc
append-trim_prefix (String.◌∷◌ c s) (String.◌∷◌ d w) rest e =
    elim (Bool-cases (eqb (code c) (code d))) [
      | inl same ↦
          cons-append d w rest
          ∙ ap (String.◌∷◌ d) (append-trim_prefix s w rest (rw same at e))
          ∙ ap (λ k. String.◌∷◌ k s) (sym (Char-path c d (ground arith)))
      | inr other ↦ cc (rw other at e)
    ]

module _ (end : Bool) where
  abbrev Rebuilds : String → Option Match → Type 0
  Rebuilds = RebuildsTo end

  took-Rebuilds : (w s : String) (o : Option Match) → Rebuilds s o → Rebuilds (w ++ s) (took w o)
  unfolding concat
  took-Rebuilds w s none h = tt
  took-Rebuilds w s (some (ts, rest)) (h, k) =
      (append_assoc w (concat ts) rest ∙ ap (λ u. w ++ u) h, k)

  longer-Rebuilds :
      (w s : String) (o : Option Match) → Rebuilds s o → Rebuilds (w ++ s) (longer w o)
  unfolding concat
  longer-Rebuilds w s none h = tt
  longer-Rebuilds w s (some ([], rest)) h = tt
  longer-Rebuilds w s (some (t ∷ ts, rest)) (h, k) = (
    ap (λ u. u ++ rest) (append_assoc w t (concat ts))
        ∙ append_assoc w (t ++ concat ts) rest
        ∙ ap (λ u. w ++ u) h,
    k,
  )

  first_of-Rebuilds :
      (s : String) (o p : Option Match) → Rebuilds s o → Rebuilds s p → Rebuilds s (first_of o p)
  first_of-Rebuilds s none p h k = k
  first_of-Rebuilds s (some m) p h k = h

  longer_char :
      (c : Char) (s : String) (o : Option Match)
      → Rebuilds s o
      → Rebuilds (String.◌∷◌ c s) (longer (String.◌∷◌ c String.[]) o)
  longer_char c s o h =
      subst (λ t. Rebuilds t (longer (String.◌∷◌ c String.[]) o)) (one_char c s)
        (longer-Rebuilds (String.◌∷◌ c String.[]) s o h)

  took_char :
      (c : Char) (s : String) (o : Option Match)
      → Rebuilds s o
      → Rebuilds (String.◌∷◌ c s) (took (String.◌∷◌ c String.[]) o)
  took_char c s o h =
      subst (λ t. Rebuilds t (took (String.◌∷◌ c String.[]) o)) (one_char c s)
        (took-Rebuilds (String.◌∷◌ c String.[]) s o h)

  took_nothing : (s : String) (o : Option Match) → Rebuilds s o → Rebuilds s (took "" o)
  took_nothing s o h = subst (λ t. Rebuilds t (took "" o)) (nil-append s) (took-Rebuilds "" s o h)

  module _ (next : String → Option Match) (sound : (s : String) → Rebuilds s (next s)) where
    greedy-Rebuilds : (p : ℕ → Bool) (s : String) → Rebuilds s (greedy p next s)
    unfolding greedy
    greedy-Rebuilds p String.[] = took_nothing "" (next "") (sound "")
    greedy-Rebuilds p (String.◌∷◌ c s) =
        let whole = String.◌∷◌ c s in
        let stop = took_nothing whole (next whole) (sound whole) in
        let more = longer_char c s (greedy p next s) (greedy-Rebuilds p s) in
        elim (Bool-cases (p (code c))) [
          | inl e ↦ rw e (first_of-Rebuilds whole _ _ more stop)
          | inr e ↦ rw e stop
        ]

    greedy1-Rebuilds : (p : ℕ → Bool) (s : String) → Rebuilds s (greedy1 p next s)
    unfolding greedy1
    greedy1-Rebuilds p String.[] = tt
    greedy1-Rebuilds p (String.◌∷◌ c s) = elim (Bool-cases (p (code c))) [
      | inl e ↦ rw e (longer_char c s (greedy p next s) (greedy-Rebuilds p s))
      | inr e ↦ rw e tt
    ]

    single-Rebuilds : (p : ℕ → Bool) (s : String) → Rebuilds s (single p next s)
    unfolding single
    single-Rebuilds p String.[] = tt
    single-Rebuilds p (String.◌∷◌ c s) = elim (Bool-cases (p (code c))) [
      | inl e ↦ rw e (took_char c s (next s) (sound s))
      | inr e ↦ rw e tt
    ]

    after_word-Rebuilds : (s w : String) → Rebuilds s (after_word w next (trim_prefix s w))
    after_word-Rebuilds s w = elim (Option-cases (trim_prefix s w)) [
      | inl e ↦ rw e tt
      | inr (rest, e) ↦ rw e (
          subst (λ t. Rebuilds t (took w (next rest))) (append-trim_prefix s w rest e)
            (took-Rebuilds w rest (next rest) (sound rest)))
    ]

ending : (end : Bool) (s : String) → (end && not (s == "")) ≡ false → end ≡ true → s ≡ ""
ending end s e h = ground (arith, eq_iff s "")

match_from-Rebuilds :
    (end : Bool) (p : Pattern) (s : String) → RebuildsTo end s (match_from end p s)
unfolding match_from concat
match_from-Rebuilds end [] s = elim (Bool-cases (end && not (s == ""))) [
  | inl e ↦ rw e tt
  | inr e ↦ rw e (nil-append s, ending end s e)
]
match_from-Rebuilds end ((_, lit w) ∷ p) s =
    after_word-Rebuilds end (match_from end p) (match_from-Rebuilds end p) s w
match_from-Rebuilds end ((_, one f) ∷ p) s =
    single-Rebuilds end (match_from end p) (match_from-Rebuilds end p) f s
match_from-Rebuilds end ((_, many f) ∷ p) s =
    greedy-Rebuilds end (match_from end p) (match_from-Rebuilds end p) f s
match_from-Rebuilds end ((_, many1 f) ∷ p) s =
    greedy1-Rebuilds end (match_from end p) (match_from-Rebuilds end p) f s
match_from-Rebuilds end ((_, either v w) ∷ p) s =
    first_of-Rebuilds end s _ _
      (after_word-Rebuilds end (match_from end p) (match_from-Rebuilds end p) s v)
      (after_word-Rebuilds end (match_from end p) (match_from-Rebuilds end p) s w)

append-nil_of : (s t u : String) → s ++ t ≡ u → t ≡ "" → s ≡ u
append-nil_of s t u h e = sym (append-nil s) ∙ ap (λ v. s ++ v) (sym e) ∙ h

-- The whole text is taken by a pattern that ends with `$`.
match_whole : (p : Pattern) (s : String) (m : Match) → match_from true p s ≡ some m → concat m.0 ≡ s
match_whole p s m e =
    let (h, k) : RebuildsTo true s (some m) =
      subst (RebuildsTo true s) e (match_from-Rebuilds true p s) in
    append-nil_of (concat m.0) m.1 s h (k refl)

-- The pattern of the rule does not match the message.
abbrev pub Misses : String → Rule → Type 0
Misses msg r = match_from true r.atoms msg ≡ none

-- The rule is the first of the list that matches the message, and this is what its atoms took.
abbrev pub IsFirst : String → List Rule → Rule → Match → Type 0
IsFirst msg rules r m =
    (before : List Rule) × (after : List Rule) × (rules ≡ Base.◌++◌ before (r ∷ after))
    × All (Misses msg) before
    × (match_from true r.atoms msg ≡ some m)

-- No rule of a list matches, or this is the first that does.
abbrev IsHit : String → List Rule → Option (Rule × Match) → Type 0
IsHit msg rules none = All (Misses msg) rules
IsHit msg rules (some (r, m)) = IsFirst msg rules r m

IsHit-later :
    (msg : String) (r : Rule) (rules : List Rule) (o : Option (Rule × Match))
    → Misses msg r
    → IsHit msg rules o
    → IsHit msg (r ∷ rules) o
IsHit-later msg r rules none n h = (n, h)
IsHit-later msg r rules (some hit) n (before, after, e, a, m) =
    (r ∷ before, after, ap (◌∷◌ r) e, (n, a), m)

first_rule-IsHit : (msg : String) (rules : List Rule) → IsHit msg rules (first_rule msg rules)
unfolding first_rule
first_rule-IsHit msg [] = tt
first_rule-IsHit msg (r ∷ rules) = elim (Option-cases (match_from true r.atoms msg)) [
  | inl e ↦
      let skips : first_rule msg (r ∷ rules) ≡ first_rule msg rules = rw (e, first_rule) refl in
      subst (IsHit msg (r ∷ rules)) (sym skips)
        (IsHit-later msg r rules (first_rule msg rules) e (first_rule-IsHit msg rules))
  | inr (m, e) ↦
      let takes : first_rule msg (r ∷ rules) ≡ some (r, m) = rw (e, first_rule) refl in
      subst (IsHit msg (r ∷ rules)) (sym takes) ([], rules, refl, tt, e)
]

-- A message of the kernel that the pattern of no rule of the table matches is shown as it is. Any other is shown as
-- the text of the first rule whose pattern matches, filled with what the atoms of the pattern took; put together,
-- what they took is the message, with nothing lost or made up.
pub translate_kernel-made :
    (msg : String)
    → (All (Misses msg) kernel_trans × (translate_kernel msg ≡ msg))
      ⊎ ((r : Rule) × (m : Match) × IsFirst msg kernel_trans r m
          × (concat m.0 ≡ msg)
          × (translate_kernel msg ≡ fill r.atoms m.0 r.template))
unfolding translate_kernel
translate_kernel-made msg = elim (Option-cases (first_rule msg kernel_trans)) [
  | inl e ↦ inl (subst (IsHit msg kernel_trans) e (first_rule-IsHit msg kernel_trans), rw e refl)
  | inr ((r, m), e) ↦
      let (before, after, c, a, k) : IsFirst msg kernel_trans r m =
        subst (IsHit msg kernel_trans) e (first_rule-IsHit msg kernel_trans) in
      inr (r, m, (before, after, c, a, k), match_whole r.atoms msg m k, rw e refl)
]
