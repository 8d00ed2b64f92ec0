-- ===== src/Api/Auth/Tokens.antt =====
-- A token that was signed is accepted while it lives, and what is accepted was signed.
use Prim.Native.Char.{code}
use Prim.Native.String.{◌++◌}
use text.Mathlib.TextLemmas.{nil-append, cons-append}
use ycfrp.Base.{
  ℕ, ◌+◌, ◌≤◌, String, true, false, Option, none, some, List, [], ◌∷◌, ltb, eqb, ◌==◌, ◌≡◌, refl,
  sym, ap, subst, inl, inr, Bool-cases, Option-cases, arith, eq_iff,
}
use ycfrp.Api.Auth.{
  TokenPayload, Crypto, Answer, accepted, has_dot, split_dots, dot, token_ttl, sign_token,
  verify_token, require_auth, read_parts, read_payload, read_signature, read_body,
}

split_whole : (b : String) → has_dot b ≡ false → split_dots b ≡ b ∷ []
unfolding split_dots has_dot
split_whole String.[] h = refl
split_whole (String.◌∷◌ c s) h = elim (Bool-cases (eqb (code c) b'.')) [
  | inl e ↦ cc (rw e at h)
  | inr e ↦ rw e (rw (split_whole s (rw e at h)))
]

split_parts :
    (a b : String)
    → has_dot a ≡ false
    → has_dot b ≡ false
    → split_dots (a ++ String.◌∷◌ dot b) ≡ a ∷ b ∷ []
unfolding split_dots has_dot
split_parts String.[] b h k = rw (nil-append (String.◌∷◌ dot b)) (rw (split_whole b k))
split_parts (String.◌∷◌ c s) b h k =
    rw (cons-append c s (String.◌∷◌ dot b)) (elim (Bool-cases (eqb (code c) b'.')) [
      | inl e ↦ cc (rw e at h)
      | inr e ↦ rw e (rw (split_parts s b (rw e at h) k))
    ])

module _ {Bytes : Type 0} (crypto : Crypto Bytes) where
  open crypto use {mac, equal, encode, decode, marshal, unmarshal}

  -- What an accepted token is: two parts, the second the signature of the first under a secret that
  -- is not empty, the first a payload of that user that has not expired.
  abbrev pub IsSigned : String → ℕ → String → String → Type 0
  IsSigned secret now token user =
      (body sig : String) × (raw : Bytes) × (p : TokenPayload) × (split_dots token
        ≡ body ∷ sig ∷ [])
      × ((secret == "") ≡ false)
      × (decode sig ≡ some (mac secret body))
      × (decode body ≡ some raw)
      × (unmarshal raw ≡ some p)
      × (p.user ≡ user)
      × (now ≤ p.exp)

  token_of : {a b : String} → some a ≡ some b → a ≡ b
  token_of h = cc

  abbrev Lives : ℕ → String → TokenPayload → Type 0
  Lives now user p = (p.user ≡ user) × (now ≤ p.exp)

  payload_sound :
      (now : ℕ) (user : String) (o : Option TokenPayload)
      → read_payload crypto now o ≡ accepted user
      → (p : TokenPayload) × (o ≡ some p) × Lives now user p
  payload_sound now user none h = cc
  payload_sound now user (some p) h = elim (Bool-cases (ltb p.exp now)) [
    | inl e ↦ cc (rw e at h)
    | inr e ↦ (p, refl, (user_of (rw e at h), ground arith))
  ]
    where
      user_of : {a b : String} → accepted a ≡ accepted b → a ≡ b
      user_of h = cc

  body_sound :
      (now : ℕ) (user : String) (o : Option Bytes)
      → read_body crypto now o ≡ accepted user
      → (raw : Bytes) × (p : TokenPayload) × (o ≡ some raw)
        × (unmarshal raw ≡ some p)
        × Lives now user p
  body_sound now user none h = cc
  body_sound now user (some raw) h =
      let (p, e, lives) = payload_sound now user (unmarshal raw) h in (raw, p, refl, e, lives)

  signature_sound :
      (secret : String) (now : ℕ) (user body : String) (o : Option Bytes)
      → read_signature crypto secret now body o ≡ accepted user
      → (raw : Bytes) × (p : TokenPayload) × (o ≡ some (mac secret body))
        × (decode body ≡ some raw)
        × (unmarshal raw ≡ some p)
        × Lives now user p
  signature_sound secret now user body none h = cc
  signature_sound secret now user body (some actual) h =
      elim (Bool-cases (equal (mac secret body) actual)) [
        | inr e ↦ cc (rw e at h)
        | inl e ↦
            let (raw, p, at, read, lives) = body_sound now user (decode body) (rw e at h) in
            (raw, p, ap some (sym (crypto.equal-path (mac secret body) actual e)), at, read, lives)
      ]

  parts_sound :
      (secret : String) (now : ℕ) (user body sig : String)
      → read_parts crypto secret now (body ∷ sig ∷ []) ≡ accepted user
      → ((secret == "") ≡ false)
        × (read_signature crypto secret now body (decode sig) ≡ accepted user)
  parts_sound secret now user body sig h = elim (Bool-cases (secret == "")) [
    | inl e ↦ cc (rw e at h)
    | inr e ↦ (e, rw e at h)
  ]

  token_sound :
      (secret : String) (now : ℕ) (token user : String) (parts : List String)
      → split_dots token ≡ parts
      → read_parts crypto secret now parts ≡ accepted user
      → IsSigned secret now token user
  token_sound secret now token user [] e h = cc
  token_sound secret now token user (a ∷ []) e h = cc
  token_sound secret now token user (a ∷ b ∷ c ∷ ps) e h = cc
  token_sound secret now token user (body ∷ sig ∷ []) e h =
      let (ne, h') = parts_sound secret now user body sig h in
      let (raw, p, signed, at, read, (same, alive)) =
        signature_sound secret now user body (decode sig) h' in
      (body, sig, raw, p, e, ne, signed, at, read, same, alive)

  -- A request passes `requireAuth` only with a token that is signed under the secret of the panel, for
  -- the user name that the panel has now, and that has not expired.
  pub require_auth-IsSigned :
      (secret username : String) (now : ℕ) (token : String)
      → require_auth crypto secret username now token ≡ true
      → IsSigned secret now token username
  unfolding require_auth verify_token
  require_auth-IsSigned secret username now token h = elim (Bool-cases (token == "")) [
    | inl e ↦ cc (rw e at h)
    | inr e ↦ go (read_parts crypto secret now (split_dots token)) refl (rw e at h)
  ]
    where
      go :
          (a : Answer)
          → read_parts crypto secret now (split_dots token) ≡ a
          → (elim a [ accepted user ↦ user == username | _ ↦ false ]) ≡ true
          → IsSigned secret now token username
      go (accepted user) e k =
          subst (IsSigned secret now token) ((eq_iff user username).0 k)
            (token_sound secret now token user _ refl e)
      go _ e k = cc

  -- the token of a body
  abbrev signed : String → String → String
  signed secret body = body ++ String.◌∷◌ dot (encode (mac secret body))

  verify_signed :
      (secret body : String) (now : ℕ) (raw : Bytes) (p : TokenPayload)
      → (secret == "") ≡ false
      → has_dot body ≡ false
      → decode body ≡ some raw
      → unmarshal raw ≡ some p
      → ltb p.exp now ≡ false
      → verify_token crypto secret now (signed secret body) ≡ accepted p.user
  unfolding verify_token
  verify_signed secret body now raw p ne plain_body at read alive =
      rw
        (split_parts body (encode (mac secret body)) plain_body
          (crypto.has_dot-encode (mac secret body)))
        (rw (ne, crypto.decode-encode (mac secret body))
          (rw (crypto.equal-refl (mac secret body), at) (rw read (rw alive refl))))

  signed-ne : (secret body : String) → has_dot body ≡ false → (signed secret body == "") ≡ false
  unfolding has_dot
  signed-ne secret body plain_body = elim (Bool-cases (signed secret body == "")) [
    | inr e ↦ e
    | inl e ↦
        let parts =
          split_parts body (encode (mac secret body)) plain_body
            (crypto.has_dot-encode (mac secret body)) in
        cc (ap split_dots ((eq_iff (signed secret body) "").0 e), parts, split_whole "" refl)
  ]

  require_auth-signed :
      (secret username body : String) (now : ℕ) (raw : Bytes) (p : TokenPayload)
      → (secret == "") ≡ false
      → has_dot body ≡ false
      → decode body ≡ some raw
      → unmarshal raw ≡ some p
      → ltb p.exp now ≡ false
      → p.user ≡ username
      → require_auth crypto secret username now (signed secret body) ≡ true
  unfolding require_auth
  require_auth-signed secret username body now raw p ne plain_body at read alive user =
      rw
        (
          signed-ne secret body plain_body,
          verify_signed secret body now raw p ne plain_body at read alive,
        )
        ((eq_iff p.user username).1 user)

  -- A token that `signToken` makes for the user of the panel passes `requireAuth` for seven days, under
  -- the same secret.
  pub require_auth-sign_token :
      (secret username : String) (then_ now : ℕ) {token : String}
      → sign_token crypto secret then_ username ≡ some token
      → now ≤ then_ + token_ttl
      → require_auth crypto secret username now token ≡ true
  unfolding sign_token
  require_auth-sign_token secret username then_ now {token} h alive =
      elim (Bool-cases (secret == "")) [
        | inl e ↦ cc (rw e at h)
        | inr ne ↦
            let p : TokenPayload = record {
              user = username;
              issue = then_;
              exp = then_ + token_ttl;
            } in
            elim (Option-cases (marshal p)) [
              | inl e ↦ cc (rw (ne, e) at h)
              | inr (raw, e) ↦
                  subst (λ t. require_auth crypto secret username now t ≡ true)
                    (token_of (rw (ne, e) at h))
                    (require_auth-signed secret username (encode raw) now raw p ne
                      (crypto.has_dot-encode raw) (crypto.decode-encode raw)
                      (crypto.unmarshal-marshal p e) (ground arith) refl)
            ]
      ]
