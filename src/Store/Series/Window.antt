-- ===== src/Store/Series/Window.antt =====
-- A series holds the newest samples, as many as its bound allows.
use mathlib.Core.List.{append-nil, append_assoc}
use ycfrp.Base.{
  ℕ, zero, suc, ◌+◌, ◌-◌, ◌≤◌, String, Option, none, some, List, [], ◌∷◌, ◌++◌, map, ◌≡◌, refl, ◌∙◌,
  ap, arith, ltb, length, drop, length-append, length-drop, inl, inr, Bool-cases,
}
use ycfrp.Store.Series.{Series, Write, wrote, broke, put_file, save, trim, append, append_all}

module _ {ℓ} {A : Type ℓ} where
  save-points : (w : Write) (t : Option String) (s : Series A) → (save w t s).points ≡ s.points
  unfolding save put_file
  save-points w none s = refl
  save-points wrote (some t) s = ground arith
  save-points (broke _) (some t) s = ground arith

  save-max : (w : Write) (t : Option String) (s : Series A) → (save w t s).max ≡ s.max
  unfolding save put_file
  save-max w none s = refl
  save-max wrote (some t) s = ground arith
  save-max (broke _) (some t) s = ground arith

  -- The last `n` elements.
  unfoldable pub newest : ℕ → List A → List A
  newest n l = drop (length l - n) l

  drop_none : (m : List A) → m ≡ drop 0 m
  unfolding drop
  drop_none [] = refl
  drop_none (x ∷ m) = refl

  trim-newest : (n : ℕ) (l : List A) → trim n l ≡ newest n l
  unfolding trim newest
  trim-newest n l = elim (Bool-cases (ltb n (length l))) [
    | inl e ↦ rw e
    | inr e ↦ rw e (let z : length l - n ≡ 0 = ground arith in rw z (drop_none l))
  ]

  length-newest : (n : ℕ) (l : List A) → length (newest n l) ≤ n
  unfolding newest
  length-newest n l = omega (arith, length-drop (length l - n) l)

  drop-append : (k : ℕ) (l m : List A) → k ≤ length l → drop k (l ++ m) ≡ drop k l ++ m
  unfolding drop
  drop-append zero [] m h = refl
  drop-append zero (x ∷ l) m h = refl
  drop-append (suc k) [] m h = absurd (omega arith)
  drop-append (suc k) (x ∷ l) m h = drop-append k l m (omega arith)

  drop_same : (j : ℕ) (l : List A) (k : ℕ) → j ≡ k → drop j l ≡ drop k l
  drop_same j l k e = rw e

  drop_nil : (j k : ℕ) → drop {A = A} j [] ≡ drop k []
  unfolding drop
  drop_nil zero zero = refl
  drop_nil zero (suc k) = refl
  drop_nil (suc j) zero = refl
  drop_nil (suc j) (suc k) = refl

  drop_cons : (x : A) (l : List A) (j k : ℕ) → k ≡ suc j → drop j l ≡ drop k (x ∷ l)
  unfolding drop
  drop_cons x l j k e = rw e

  drop-drop : (j k : ℕ) (l : List A) → drop j (drop k l) ≡ drop (k + j) l
  unfolding drop
  drop-drop j zero [] = drop_same j [] _ (omega arith)
  drop-drop j zero (x ∷ l) = drop_same j (x ∷ l) _ (omega arith)
  drop-drop j (suc k) [] = drop_nil j (suc k + j)
  drop-drop j (suc k) (x ∷ l) = drop-drop j k l ∙ drop_cons x l (k + j) _ (omega arith)

  -- Older samples may be dropped before the next one comes.
  newest-newest-append : (n : ℕ) (l m : List A) → newest n (newest n l ++ m) ≡ newest n (l ++ m)
  unfolding newest
  newest-newest-append n l m =
      let k = length l - n in
      let joined = drop-append k l m (omega arith) in
      rw (← joined) (
        drop-drop (length (drop k (l ++ m)) - n) k (l ++ m)
        ∙ drop_same (k + (length (drop k (l ++ m)) - n)) (l ++ m) (length (l ++ m) - n)
            (omega (arith, length-drop k (l ++ m), length-append l m)))

  newest_all : (n : ℕ) (l : List A) → length l ≤ n → l ≡ newest n l
  unfolding newest
  newest_all n l h = let z : length l - n ≡ 0 = omega arith in rw z (drop_none l)

  module _ (encode : List A → Option String) where
    -- After an `Append`, whatever the file system does, at most `max` samples are held; they are
    -- the newest of those held before and the new one, in order, and the bound is the same.
    pub append-newest :
        (w : Write) (x : A) (s : Series A)
        → ((append encode w x s).points ≡ newest s.max (s.points ++ x ∷ []))
          × (length (append encode w x s).points ≤ s.max)
          × ((append encode w x s).max ≡ s.max)
    unfolding append
    append-newest w x s =
        let kept = trim s.max (s.points ++ x ∷ []) in
        let held = save-points w (encode kept) (record s { points = kept }) in
        let cut = trim-newest s.max (s.points ++ x ∷ []) in
        (
          held ∙ cut,
          rw (held, cut) (length-newest s.max (s.points ++ x ∷ [])),
          save-max w (encode kept) (record s { points = kept }),
        )

    samples : List (Write × A) → List A
    samples = map (λ e. e.1)

    append_step :
        (w : Write) (x : A) (s : Series A) (n : ℕ) (old : List A)
        → s.max ≡ n
        → s.points ≡ newest n old
        → (append encode w x s).points ≡ newest n (old ++ x ∷ [])
    append_step w x s n old m h =
        (append-newest w x s).0
        ∙ ap (λ k. newest k (s.points ++ x ∷ [])) m
        ∙ ap (λ l. newest n (l ++ x ∷ [])) h
        ∙ newest-newest-append n old (x ∷ [])

    append_all_from :
        (calls : List (Write × A)) (s : Series A) (n : ℕ) (old : List A)
        → s.max ≡ n
        → s.points ≡ newest n old
        → (append_all encode calls s).points ≡ newest n (old ++ samples calls)
    unfolding append_all samples
    append_all_from [] s n old m h = rw append-nil h
    append_all_from ((w, x) ∷ rest) s n old m h =
        append_all_from rest (append encode w x s) n (old ++ x ∷ []) ((append-newest w x s).2 ∙ m)
          (append_step w x s n old m h)
        ∙ ap (newest n) (append_assoc old (x ∷ []) (samples rest))

    -- A series that starts within its bound shows, after any run of `Append`s, exactly the newest
    -- `max` of all the samples it ever held.
    pub append_all-newest :
        (calls : List (Write × A)) (s : Series A)
        → length s.points ≤ s.max
        → (append_all encode calls s).points ≡ newest s.max (s.points ++ map (λ e. e.1) calls)
    unfolding samples
    append_all-newest calls s h =
        append_all_from calls s s.max s.points refl (newest_all s.max s.points h)
