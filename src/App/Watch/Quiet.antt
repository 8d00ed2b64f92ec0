-- ===== src/App/Watch/Quiet.antt =====
-- A round in which nothing changed tells nothing.
use ycfrp.Base.{
  ℕ, String, ◌||◌, some, List, [], ◌∷◌, ◌==◌, ◌≡◌, ◌≢◌, refl, sym, ap, ◌∙◌, arith, eq_iff, inl, inr,
  Bool-cases, Option-cases, some_inj, Assoc, lookup, insert, lookup-insert, All, Distinct,
}
use ycfrp.Frp.Tunnel.{Tunnel}
use ycfrp.Config.Document.{NotifyConfig}
use ycfrp.App.Watch.{Watched, watch_one, watch_all}

insert-same : (k v : String) (m : Assoc String) → lookup k m ≡ some v → insert k v m ≡ m
unfolding lookup insert
insert-same k v [] e = cc
insert-same k v ((j, w) ∷ m) e = elim (Bool-cases (j == k)) [
  | inl h ↦ rw h (ap (λ x. (j, x) ∷ m) (sym (some_inj (rw h at e))))
  | inr h ↦ rw h (ap (λ n. (j, w) ∷ n) (insert-same k v m (rw h at e)))
]

-- The loop has seen each tunnel at the status that it has.
abbrev pub IsSeen : Watched → List Tunnel → Type 0
IsSeen w ts = All (λ t. lookup t.id w.prev ≡ some t.status) ts

module _ {F : Type 0} (cfg : NotifyConfig F) where
  watch_one-prev :
      (now : ℕ) (t : Tunnel) (w : Watched)
      → (watch_one cfg now t w).1.prev ≡ insert t.id t.status w.prev
  unfolding watch_one
  watch_one-prev now t w = elim (Option-cases (lookup t.id w.prev)) [
    | inl e ↦ rw (e, watch_one) refl
    | inr (old, e) ↦ elim (Bool-cases ((old == t.status) || (t.status == ""))) [
      | inl h ↦ rw (e, watch_one, h) refl
      | inr h ↦ rw (e, watch_one, h) refl
    ]
  ]

  watch_one-quiet :
      (now : ℕ) (t : Tunnel) (w : Watched)
      → lookup t.id w.prev ≡ some t.status
      → watch_one cfg now t w ≡ ([], w)
  unfolding watch_one
  watch_one-quiet now t w e =
      rw (e, watch_one, (eq_iff t.status t.status).1 refl, insert-same t.id t.status w.prev e) refl

  watch_all-quiet :
      (now : ℕ) (ts : List Tunnel) (w : Watched) → IsSeen w ts → watch_all cfg now ts w ≡ ([], w)
  unfolding watch_all
  watch_all-quiet now [] w h = refl
  watch_all-quiet now (t ∷ ts) w (e, h) =
      rw (watch_one-quiet now t w e, watch_all-quiet now ts w h) refl

  watch_all-other :
      (now : ℕ) (k : String) (ts : List Tunnel) (w : Watched)
      → All (λ t. k ≢ t.id) ts
      → lookup k (watch_all cfg now ts w).1.prev ≡ lookup k w.prev
  unfolding watch_all
  watch_all-other now k [] w h = refl
  watch_all-other now k (t ∷ ts) w (n, h) =
      watch_all-other now k ts (watch_one cfg now t w).1 h
      ∙ ap (lookup k) (watch_one-prev now t w)
      ∙ rw lookup-insert (ground (arith, eq_iff t.id k))

  watch_all-IsSeen :
      (now : ℕ) (ts : List Tunnel) (w : Watched)
      → Distinct (λ t. t.id) ts
      → IsSeen (watch_all cfg now ts w).1 ts
  unfolding watch_all
  watch_all-IsSeen now [] w d = tt
  watch_all-IsSeen now (t ∷ ts) w (n, d) =
      let w' = (watch_one cfg now t w).1 in
      (
        watch_all-other now t.id ts w' n
            ∙ ap (lookup t.id) (watch_one-prev now t w)
            ∙ rw (lookup-insert, (eq_iff t.id t.id).1 refl) refl,
        watch_all-IsSeen now ts w' d,
      )

  -- Once `watchLoop` has seen tunnels with identifiers of their own, a round in which they are as they were tells
  -- nothing and changes nothing: a message tells a change, once.
  pub watch_again :
      (now later : ℕ) (ts : List Tunnel) (w : Watched)
      → Distinct (λ t. t.id) ts
      → watch_all cfg later ts (watch_all cfg now ts w).1 ≡ ([], (watch_all cfg now ts w).1)
  watch_again now later ts w d = watch_all-quiet later ts _ (watch_all-IsSeen now ts w d)
