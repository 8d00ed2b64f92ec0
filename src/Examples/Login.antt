-- ===== src/Examples/Login.antt =====
-- The login at one user.
use ycfrp.Base.{
  ℕ, String, Bool, true, false, ◌&&◌, Option, none, some, eqb, ◌==◌, ◌≡◌, refl, sym, ap,
  if◌then◌else◌, inl, inr, Bool-cases, eq_iff, arith,
}
use ycfrp.Frp.Instance.{same_bool}
use ycfrp.Api.Auth.{
  TokenPayload, Crypto, has_dot, sign_token, require_auth, split_dots, verify_token,
}
use ycfrp.Api.Auth.Tokens.{IsSigned, require_auth-IsSigned, require_auth-sign_token}

abbrev pub only : TokenPayload
only = record { user = "admin"; issue = 0; exp = 604800 }

abbrev is_only : TokenPayload → Bool
is_only p = p.user == "admin" && (eqb p.issue 0 && eqb p.exp 604800)

abbrev marshal_only : TokenPayload → Option Bool
marshal_only p = if is_only p then some false else none

abbrev unmarshal_only : Bool → Option TokenPayload
unmarshal_only b = some only

eqb-path : (m n : ℕ) → eqb m n ≡ true → m ≡ n
eqb-path m n h = ground arith

pub only_path : (p : TokenPayload) → is_only p ≡ true → only ≡ p
only_path p h =
    let user = (eq_iff p.user "admin").0 (ground arith) in
    let issue = eqb-path p.issue 0 (ground arith) in
    let exp = eqb-path p.exp 604800 (ground arith) in
    λ i. record { user = sym user i; issue = sym issue i; exp = sym exp i }

pub unmarshal-marshal_only :
    (p : TokenPayload) {b : Bool} → marshal_only p ≡ some b → unmarshal_only b ≡ some p
unmarshal-marshal_only p h = elim (Bool-cases (is_only p)) [
  | inl e ↦ ap some (only_path p e)
  | inr e ↦ cc (rw e at h)
]

abbrev letter : Bool → String
letter true = "m"
letter false = "p"

abbrev of_letter : String → Option Bool
of_letter s = if s == "m" then some true else if s == "p" then some false else none

pub of_letter-letter : (b : Bool) → of_letter (letter b) ≡ some b
of_letter-letter true = refl
of_letter-letter false = refl

pub has_dot-letter : (b : Bool) → has_dot (letter b) ≡ false
unfolding has_dot
has_dot-letter true = refl
has_dot-letter false = refl

pub same_bool-path : (a b : Bool) → same_bool a b ≡ true → a ≡ b
same_bool-path true true h = refl
same_bool-path true false h = cc
same_bool-path false true h = cc
same_bool-path false false h = refl

pub same_bool_refl : (a : Bool) → same_bool a a ≡ true
same_bool_refl true = refl
same_bool_refl false = refl

-- bytes of which there are two: the payload of the one user at the instant 0, and its signature
abbrev toy : Crypto Bool
toy = record {
  mac = λ s b. true;
  equal = same_bool;
  encode = letter;
  decode = of_letter;
  marshal = marshal_only;
  unmarshal = unmarshal_only;
  equal-path = same_bool-path;
  equal-refl = same_bool_refl;
  decode-encode = of_letter-letter;
  has_dot-encode = has_dot-letter;
  unmarshal-marshal = unmarshal-marshal_only;
}

signed_once : sign_token toy "s" 0 "admin" ≡ some "p.m"
unfolding sign_token
signed_once = refl

passes : require_auth toy "s" "admin" 600000 "p.m" ≡ true
unfolding require_auth verify_token split_dots
passes = refl

-- without its signature, or a week later, it does not
fails : require_auth toy "s" "admin" 600000 "p.p" ≡ false
unfolding require_auth verify_token split_dots
fails = refl

too_late : require_auth toy "s" "admin" 604801 "p.m" ≡ false
unfolding require_auth verify_token split_dots
too_late = refl

require_auth-IsSigned_example : IsSigned toy "s" 600000 "p.m" "admin"
require_auth-IsSigned_example = require_auth-IsSigned toy "s" "admin" 600000 "p.m" passes

require_auth-sign_token_example : require_auth toy "s" "admin" 604800 "p.m" ≡ true
require_auth-sign_token_example =
    require_auth-sign_token toy "s" "admin" 0 604800 signed_once (omega arith)
