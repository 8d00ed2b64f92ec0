-- ===== src/Qq/Tokens/Reuse.antt =====
-- When a token is used again, and when the platform is asked.
use ycfrp.Base.{
  ℕ, ◌+◌, ◌-◌, ◌*◌, ◌<◌, String, false, Option, none, some, ℤ, ◌==◌, ◌≡◌, refl, sym, ap, ◌∙◌,
  eq_iff, trim_space, Assoc, lookup, insert, remove, lookup-insert, lookup-remove, lt→ltb, subst,
}
use ycfrp.Qq.Tokens.{
  CachedToken, Reply, got, reused, fresh, second, fetch, cached, token, invalidate,
}

module _ (parse_duration : String → Option ℤ) where
  token-fresh :
      (app_id secret : String) (now later : ℕ) (reply : Reply) (t : String) (ttl : ℕ)
      (cache : Assoc CachedToken)
      → (trim_space app_id == "") ≡ false
      → (trim_space secret == "") ≡ false
      → cached parse_duration (trim_space app_id) now cache ≡ none
      → fetch parse_duration reply ≡ got t ttl
      → token parse_duration app_id secret now reply later cache ≡ (
        fresh t,
        insert
            (trim_space app_id)
            (record { token = t; expires = (later + ttl) - 60 * second })
            cache,
      )
  unfolding token
  token-fresh app_id secret now later reply t ttl cache a b gone asked = rw (a, b, gone, asked) refl

  token-cached :
      (app_id secret : String) (now later : ℕ) (reply : Reply) (t : String)
      (cache : Assoc CachedToken)
      → (trim_space app_id == "") ≡ false
      → (trim_space secret == "") ≡ false
      → cached parse_duration (trim_space app_id) now cache ≡ some t
      → token parse_duration app_id secret now reply later cache ≡ (reused t, cache)
  unfolding token
  token-cached app_id secret now later reply t cache a b kept = rw (a, b, kept) refl

  cached-insert :
      (id : String) (now : ℕ) (c : CachedToken) (cache : Assoc CachedToken)
      → now < c.expires
      → cached parse_duration id now (insert id c cache) ≡ some c.token
  unfolding cached
  cached-insert id now c cache h =
      let found : lookup id (insert id c cache) ≡ some c =
        rw (lookup-insert, (eq_iff id id).1 refl) refl in
      rw (found, cached, lt→ltb now c.expires h) refl

  cached-invalidate :
      (id : String) (now : ℕ) (cache : Assoc CachedToken)
      → cached parse_duration id now (invalidate id cache) ≡ none
  unfolding cached invalidate
  cached-invalidate id now cache =
      let gone : lookup id (remove id cache) ≡ none =
        rw (lookup-remove, (eq_iff id id).1 refl) refl in
      rw (gone, cached) refl

  -- A token that the platform gave is used again, without asking, until 60 seconds before it expires, for the same
  -- application whatever blanks stand around its identifier and whatever secret is given with it; and not any more
  -- once `Invalidate` was called with the identifier that it is kept under, the one without blanks around it.
  pub token_reused :
      (app_id secret app_id' secret' : String) (now later now' later' : ℕ) (reply reply' : Reply)
      (t : String) (ttl : ℕ) (cache : Assoc CachedToken)
      → (trim_space app_id == "") ≡ false
      → (trim_space secret == "") ≡ false
      → (trim_space secret' == "") ≡ false
      → trim_space app_id' ≡ trim_space app_id
      → cached parse_duration (trim_space app_id) now cache ≡ none
      → fetch parse_duration reply ≡ got t ttl
      → now' < (later + ttl) - 60 * second
      → let (answer, after) = token parse_duration app_id secret now reply later cache in
        (answer ≡ fresh t)
        × (token parse_duration app_id' secret' now' reply' later' after ≡ (reused t, after))
        × (cached parse_duration (trim_space app_id) now' (invalidate (trim_space app_id) after)
            ≡ none)
  token_reused app_id secret app_id' secret' now later now' later' reply reply' t ttl cache a b b'
        same gone asked soon =
      let first = token-fresh app_id secret now later reply t ttl cache a b gone asked in
      let id = trim_space app_id in
      let kept : CachedToken = record { token = t; expires = (later + ttl) - 60 * second } in
      let held =
        ap (λ k. cached parse_duration k now' (insert id kept cache)) same
        ∙ cached-insert id now' kept cache soon in
      let full = ap (λ k. k == "") same ∙ a in
      (
        ap (λ p. p.0) first,
        subst (λ m. token parse_duration app_id' secret' now' reply' later' m ≡ (reused t, m))
            (ap (λ p. p.1) (sym first))
            (token-cached app_id' secret' now' later' reply' t (insert id kept cache) full b' held),
        cached-invalidate id now' _,
      )
