-- ===== src/Frp/Export/Quote.antt =====
-- A quoted text is read back as it was.
use Prim.Native.Char.{Char, code}
use Prim.Native.String.{char_at}
use text.Mathlib.TextEquality.{Char-path}
use ycfrp.Base.{
  String, Bool, true, false, Option, none, some, ◌≡◌, refl, sym, ap, eqb, if◌then◌else◌, inl, inr,
  Bool-cases, arith,
}
use ycfrp.Frp.Export.Json.{json_char, json_escape, json_string}
use ycfrp.Frp.Export.{backslash, quote, toml_char, toml_escape, toml_string}

abbrev push : Char → Option (String × String) → Option (String × String)
push c none = none
push c (some (s, rest)) = some (String.◌∷◌ c s, rest)

-- the character that an escape stands for, of those that the two formats share
abbrev unescaped : Char → Char
unescaped c =
    if eqb (code c) 110 then char_at "\n" 0 else if eqb (code c) 116 then char_at "\t" 0 else c

-- A quoted text of TOML or JSON, from after its opening quote: what it stands for, and what follows
-- its closing quote. The flag says whether a backslash came before.
unfoldable pub read_quoted : Bool → String → Option (String × String)
read_quoted escaped String.[] = none
read_quoted true (String.◌∷◌ c s) = push (unescaped c) (read_quoted false s)
read_quoted false (String.◌∷◌ c s) =
    let after = read_quoted true s in
    let next = read_quoted false s in
    if eqb (code c) 34 then some ("", s) else if eqb (code c) 92 then after else push c next

code_is : (c d : Char) → eqb (code c) (code d) ≡ true → c ≡ d
code_is c d h = Char-path c d (ground arith)

-- An escape that stands for a character is read as it.
reads :
    (c d : Char) (s rest : String)
    → eqb (code c) (code d) ≡ true
    → push d (some (s, rest)) ≡ push c (some (s, rest))
reads c d s rest e = ap (λ x. push x (some (s, rest))) (sym (code_is c d e))

read-toml_char :
    (c : Char) (t s rest : String)
    → read_quoted false t ≡ some (s, rest)
    → read_quoted false (toml_char c t) ≡ some (String.◌∷◌ c s, rest)
unfolding read_quoted
read-toml_char c t s rest h = elim (Bool-cases (eqb (code c) 92)) [
  | inl e ↦ rw e (rw h (reads c backslash s rest e))
  | inr e ↦ rw e (elim (Bool-cases (eqb (code c) 34)) [
    | inl f ↦ rw f (rw h (reads c quote s rest f))
    | inr f ↦ rw f (elim (Bool-cases (eqb (code c) 10)) [
      | inl g ↦ rw g (rw h (reads c (char_at "\n" 0) s rest g))
      | inr g ↦ rw g (rw (f, e, h) refl)
    ])
  ])
]

read-json_char :
    (c : Char) (t s rest : String)
    → read_quoted false t ≡ some (s, rest)
    → read_quoted false (json_char c t) ≡ some (String.◌∷◌ c s, rest)
unfolding read_quoted
read-json_char c t s rest h = elim (Bool-cases (eqb (code c) 9)) [
  | inl e ↦ rw e (rw h (reads c (char_at "\t" 0) s rest e))
  | inr e ↦ rw e (read-toml_char c t s rest h)
]

closing : (rest : String) → read_quoted false (String.◌∷◌ quote rest) ≡ some ("", rest)
unfolding read_quoted
closing rest = refl

read-toml_escape :
    (s rest : String) → read_quoted false (toml_escape s (String.◌∷◌ quote rest)) ≡ some (s, rest)
unfolding toml_escape
read-toml_escape String.[] rest = closing rest
read-toml_escape (String.◌∷◌ c s) rest =
    read-toml_char c (toml_escape s (String.◌∷◌ quote rest)) s rest (read-toml_escape s rest)

read-json_escape :
    (s rest : String) → read_quoted false (json_escape s (String.◌∷◌ quote rest)) ≡ some (s, rest)
unfolding json_escape
read-json_escape String.[] rest = closing rest
read-json_escape (String.◌∷◌ c s) rest =
    read-json_char c (json_escape s (String.◌∷◌ quote rest)) s rest (read-json_escape s rest)

-- a quoted text with its opening quote
unfoldable pub open_quoted : String → Option (String × String)
open_quoted String.[] = none
open_quoted (String.◌∷◌ c s) = if eqb (code c) 34 then read_quoted false s else none

-- A reader of quoted texts that knows the escapes \\, \", \n and \t reads every text that the export
-- quotes, for TOML or for JSON, back as it was, and to its end: no text breaks out of its quotes.
pub open_quoted_lem :
    (s : String)
    → (open_quoted (toml_string s) ≡ some (s, "")) × (open_quoted (json_string s) ≡ some (s, ""))
unfolding open_quoted toml_string json_string
open_quoted_lem s = (read-toml_escape s "", read-json_escape s "")
