-- ===== src/Api/Auth.antt =====
-- internal/api/auth.go: the tokens of a login. HMAC, base64, JSON and bcrypt are given.
pub mod Tokens
use Prim.Native.Char.{Char, code}
use Prim.Native.String
use Prim.Native.String.{◌++◌, char_at}
use ycfrp.Base.{
  ℕ, ◌+◌, ◌*◌, String, Bool, true, false, not, ◌||◌, Option, none, some, List, [], ◌∷◌, ltb, eqb,
  ◌==◌, ◌≡◌, if◌then◌else◌, has_prefix, trim_prefix, trim_space,
}

-- `tokenPayload`; an instant is in seconds
pub record TokenPayload : Type 0 where
  pub user : String
  pub issue : ℕ
  pub exp : ℕ

-- whether a text holds a dot
unfoldable pub has_dot : String → Bool
has_dot String.[] = false
has_dot (String.◌∷◌ c s) = eqb (code c) b'.' || has_dot s

-- What the code calls of Go's `crypto` and `encoding`.
pub record Crypto (Bytes : Type 0) : Type 0 where
  -- HMAC of SHA-256, under a secret
  pub mac : String → String → Bytes
  -- `subtle.ConstantTimeCompare`
  pub equal : Bytes → Bytes → Bool
  -- `base64.RawURLEncoding`
  pub encode : Bytes → String
  pub decode : String → Option Bytes
  pub marshal : TokenPayload → Option Bytes
  pub unmarshal : Bytes → Option TokenPayload
  pub equal-path : (a b : Bytes) → equal a b ≡ true → a ≡ b
  pub equal-refl : (a : Bytes) → equal a a ≡ true
  pub decode-encode : (b : Bytes) → decode (encode b) ≡ some b
  -- A dot is no letter of the alphabet.
  pub has_dot-encode : (b : Bytes) → has_dot (encode b) ≡ false
  pub unmarshal-marshal : (p : TokenPayload) {b : Bytes} → marshal p ≡ some b → unmarshal b ≡ some p

pub data Answer : Type 0 where
  accepted : String → Answer
  malformed no_secret damaged forged expired : Answer

abbrev pub token_ttl : ℕ
token_ttl = 7 * 24 * 3600

abbrev pub dot : Char
dot = char_at "." 0

abbrev cons_first : Char → List String → List String
cons_first c [] = String.◌∷◌ c String.[] ∷ []
cons_first c (f ∷ fs) = String.◌∷◌ c f ∷ fs

-- `strings.Split` at dots
unfoldable pub split_dots : String → List String
split_dots String.[] = String.[] ∷ []
split_dots (String.◌∷◌ c s) =
    let rest = split_dots s in if eqb (code c) b'.' then String.[] ∷ rest else cons_first c rest

module _ {Bytes : Type 0} (crypto : Crypto Bytes) where
  open crypto use {mac, equal, encode, decode, marshal, unmarshal}

  -- `signToken`, under a secret at an instant; `none` is an error
  unfoldable pub sign_token : String → ℕ → String → Option String
  sign_token secret now user =
      if secret == ""
      then none
      else elim (marshal (record { user = user; issue = now; exp = now + token_ttl })) [
        | none ↦ none
        | some payload ↦
            (let body = encode payload in some (body ++ String.◌∷◌ dot (encode (mac secret body))))
      ]

  abbrev read_payload : ℕ → Option TokenPayload → Answer
  read_payload now none = damaged
  read_payload now (some p) = if ltb p.exp now then expired else accepted p.user

  abbrev read_body : ℕ → Option Bytes → Answer
  read_body now none = damaged
  read_body now (some raw) = read_payload now (unmarshal raw)

  abbrev read_signature : String → ℕ → String → Option Bytes → Answer
  read_signature secret now body none = damaged
  read_signature secret now body (some actual) =
      if not (equal (mac secret body) actual) then forged else read_body now (decode body)

  abbrev read_parts : String → ℕ → List String → Answer
  read_parts secret now (body ∷ sig ∷ []) =
      if secret == "" then no_secret else read_signature secret now body (decode sig)
  read_parts secret now _ = malformed

  -- `verifyToken`
  unfoldable pub verify_token : String → ℕ → String → Answer
  unfolding split_dots
  verify_token secret now token = read_parts secret now (split_dots token)

  -- `requireAuth`, given the token of the request: whether the handler is called
  unfoldable pub require_auth : String → String → ℕ → String → Bool
  unfolding verify_token
  require_auth secret username now token =
      if token == ""
      then false
      else elim (verify_token secret now token) [ accepted user ↦ user == username | _ ↦ false ]

-- `checkPassword`, given what bcrypt says of a hash and a password
unfoldable pub check_password : (String → String → Bool) → String → String → Bool
unfolding has_prefix
check_password bcrypt stored submitted =
    if has_prefix stored "$2a$" || has_prefix stored "$2b$" || has_prefix stored "$2y$"
    then bcrypt stored submitted
    else stored == submitted

-- `tokenFrom`, of the `Authorization` header and the cookie where there is one
unfoldable pub token_from : String → Option String → String
unfolding trim_prefix trim_space
token_from header cookie = elim (trim_prefix header "Bearer ") [
  | some t ↦ trim_space t
  | none ↦ elim cookie [ some v ↦ v | none ↦ "" ]
]
