-- ===== src/Log/Translate.antt =====
-- internal/logx/translate.go: the kernel's messages in Chinese.
pub mod Parameters
use ycfrp.Base.{
  ℕ, ◌+◌, ◌-◌, String, Bool, true, false, not, ◌||◌, ◌&&◌, Option, none, some, List, [], ◌∷◌, Char,
  code, eqb, ltb, ◌==◌, if◌then◌else◌, trim_space,
}
use ycfrp.Log.Pattern.{Pattern, lit, one, many, many1, Match, match_from, fill, digit, blank}
use ycfrp.Log.Rules.{Rule}
use ycfrp.Log.Table.{kernel_trans}

-- the loop of `translateKernel`
unfoldable pub first_rule : String → List Rule → Option (Rule × Match)
unfolding match_from
first_rule msg [] = none
first_rule msg (r ∷ rs) =
    let rest = first_rule msg rs in
    elim (match_from true r.atoms msg) [ none ↦ rest | some m ↦ some (r, m) ]

-- `ReplaceAllString` by the rule that matches
abbrev pub replaced : String → Option (Rule × Match) → String
replaced msg none = msg
replaced msg (some (r, m)) = fill r.atoms m.0 r.template

-- `translateKernel`
unfoldable pub translate_kernel : String → String
unfolding first_rule fill kernel_trans
translate_kernel msg = replaced msg (first_rule msg kernel_trans)

abbrev level_letter : ℕ → Bool
level_letter c = eqb c 84 || eqb c 68 || eqb c 73 || eqb c 87 || eqb c 69

abbrev no_bracket : ℕ → Bool
no_bracket c = not (eqb c 91 || eqb c 93)

-- `reKernelLevel`
abbrev re_kernel_level : Pattern
re_kernel_level = (0, lit "[") ∷ (0, one level_letter) ∷ (0, lit "]") ∷ (0, many1 blank) ∷ []

-- `reKernelCaller`
abbrev re_kernel_caller : Pattern
re_kernel_caller =
    (0, lit "[")
    ∷ (0, many no_bracket)
    ∷ (0, lit ".go:")
    ∷ (0, many1 digit)
    ∷ (0, lit "]")
    ∷ (0, many1 blank)
    ∷ []

-- `ReplaceAllString(msg, "")` for a pattern that starts with `^`
unfoldable pub strip : Pattern → String → String
unfolding match_from
strip p s = elim (match_from false p s) [ none ↦ s | some m ↦ m.1 ]

-- the bytes of a character in UTF-8
abbrev width : ℕ → ℕ
width c = if ltb c 128 then 1 else if ltb c 2048 then 2 else if ltb c 65536 then 3 else 4

-- `len(s)`, in bytes
unfoldable byte_length : String → ℕ
byte_length String.[] = 0
byte_length (String.◌∷◌ d s) = width (code d) + byte_length s

-- `s[i] == c`, for an ASCII character, which is no byte of a longer one
unfoldable byte_is : String → ℕ → ℕ → Bool
byte_is String.[] i c = false
byte_is (String.◌∷◌ d s) i c =
    let later = byte_is s (i - width (code d)) c in
    if eqb i 0 then eqb (code d) c else if ltb i (width (code d)) then false else later

-- `s[n:]`, where a character starts at byte `n`
unfoldable drop_bytes : ℕ → String → String
drop_bytes n String.[] = String.[]
drop_bytes n (String.◌∷◌ d s) =
    let rest = drop_bytes (n - width (code d)) s in if eqb n 0 then String.◌∷◌ d s else rest

-- the timestamp of the kernel in front of a line
unfoldable pub has_timestamp : String → Bool
unfolding byte_length byte_is
has_timestamp msg =
    ltb 24 (byte_length msg)
    && byte_is msg 4 45
    && byte_is msg 7 45
    && byte_is msg 10 32
    && byte_is msg 19 46
    && byte_is msg 23 32

-- `cleanKernelMessage`
unfoldable pub clean_kernel_message : String → String
unfolding has_timestamp drop_bytes strip translate_kernel
clean_kernel_message line =
    let msg = trim_space line in
    let msg' = if has_timestamp msg then trim_space (drop_bytes 24 msg) else msg in
    translate_kernel (strip re_kernel_caller (strip re_kernel_level msg'))
