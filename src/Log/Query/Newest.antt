-- ===== src/Log/Query/Newest.antt =====
-- What `Query` answers.
use Prim.Native.String as Text
use ycfrp.Base.{
  ℕ, zero, suc, ◌≤◌, ◌+◌, String, Bool, true, false, List, [], ◌∷◌, ◌++◌, ℤ, pos, negsuc, ◌≡◌, refl,
  arith, inl, inr, Bool-cases, All, select, Runes, to_lower, trim_space, contains, ◌⊎◌, ◌↔◌, eq_iff,
  ltb, not, ◌==◌, if◌then◌else◌,
}
use ycfrp.Log.{Entry, Logger, level_rank}
use ycfrp.Log.Query.{is_reached, is_wanted, backwards, gather, insert_newest, sort_newest, query}

-- The clock did not go back while the entries were taken.
abbrev pub IsInTime : List Entry → Type 0
IsInTime [] = Unit
IsInTime (e ∷ l) = All (λ f. e.time ≤ f.time) l × IsInTime l

-- The first of a list, as many as a positive limit allows; any other limit is none.
unfoldable pub take : {A : Type 0} → ℕ → List A → List A
take zero l = []
take (suc n) [] = []
take (suc n) (e ∷ l) = e ∷ take n l

unfoldable pub limited : {A : Type 0} → ℤ → List A → List A
unfolding take
limited (pos zero) l = l
limited (pos (suc n)) l = take (suc n) l
limited (negsuc _) l = l

-- Each entry is at least as late as those after it.
abbrev IsFalling : List Entry → Type 0
IsFalling [] = Unit
IsFalling (e ∷ l) = All (λ f. f.time ≤ e.time) l × IsFalling l

All-last : (P : Entry → Type 0) (l : List Entry) (e : Entry) → All P l → P e → All P (l ++ e ∷ [])
All-last P [] e h p = (p, tt)
All-last P (f ∷ l) e (q, h) p = (q, All-last P l e h p)

All-backwards : (P : Entry → Type 0) (l : List Entry) → All P l → All P (backwards l)
unfolding backwards
All-backwards P [] h = tt
All-backwards P (e ∷ l) (p, h) = All-last P (backwards l) e (All-backwards P l h) p

IsFalling-last :
    (l : List Entry) (e : Entry)
    → All (λ f. e.time ≤ f.time) l
    → IsFalling l
    → IsFalling (l ++ e ∷ [])
IsFalling-last [] e h k = (tt, tt)
IsFalling-last (f ∷ l) e (p, h) (q, k) =
    (All-last (λ g. g.time ≤ f.time) l e q p, IsFalling-last l e h k)

backwards-IsFalling : (l : List Entry) → IsInTime l → IsFalling (backwards l)
unfolding backwards
backwards-IsFalling [] h = tt
backwards-IsFalling (e ∷ l) (a, h) =
    IsFalling-last (backwards l) e (All-backwards (λ f. e.time ≤ f.time) l a)
      (backwards-IsFalling l h)

All-select : (P : Entry → Type 0) (p : Entry → Bool) (l : List Entry) → All P l → All P (select p l)
unfolding select
All-select P p [] h = tt
All-select P p (e ∷ l) (q, h) = elim (Bool-cases (p e)) [
  | inl k ↦ rw k (q, All-select P p l h)
  | inr k ↦ rw k (All-select P p l h)
]

select-IsFalling : (p : Entry → Bool) (l : List Entry) → IsFalling l → IsFalling (select p l)
unfolding select
select-IsFalling p [] h = tt
select-IsFalling p (e ∷ l) (q, h) = elim (Bool-cases (p e)) [
  | inl k ↦ rw k (All-select (λ f. f.time ≤ e.time) p l q, select-IsFalling p l h)
  | inr k ↦ rw k (select-IsFalling p l h)
]

All-take : (P : Entry → Type 0) (n : ℕ) (l : List Entry) → All P l → All P (take n l)
unfolding take
All-take P zero l h = tt
All-take P (suc n) [] h = tt
All-take P (suc n) (e ∷ l) (p, h) = (p, All-take P n l h)

take-IsFalling : (n : ℕ) (l : List Entry) → IsFalling l → IsFalling (take n l)
unfolding take
take-IsFalling zero l h = tt
take-IsFalling (suc n) [] h = tt
take-IsFalling (suc n) (e ∷ l) (q, h) =
    (All-take (λ f. f.time ≤ e.time) n l q, take-IsFalling n l h)

limited-IsFalling : (limit : ℤ) (l : List Entry) → IsFalling l → IsFalling (limited limit l)
unfolding limited
limited-IsFalling (pos zero) l h = h
limited-IsFalling (pos (suc n)) l h = take-IsFalling (suc n) l h
limited-IsFalling (negsuc _) l h = h

insert_newest_first :
    (e : Entry) (l : List Entry) → All (λ f. f.time ≤ e.time) l → insert_newest e l ≡ e ∷ l
unfolding insert_newest
insert_newest_first e [] h = refl
insert_newest_first e (f ∷ l) (p, h) = ground arith

-- The sort leaves what is in order as it is.
sort_newest_same : (l : List Entry) → IsFalling l → sort_newest l ≡ l
unfolding sort_newest
sort_newest_same [] h = refl
sort_newest_same (e ∷ l) (q, h) = rw (sort_newest_same l h) (insert_newest_first e l q)

gather_all :
    {A : Type 0} (p : A → Bool) (limit : ℤ) (n : ℕ) (l : List A)
    → ((k : ℕ) → is_reached limit k ≡ false)
    → gather p limit n l ≡ select p l
unfolding gather select
gather_all p limit n [] h = refl
gather_all p limit n (e ∷ l) h =
    rw (h (suc n), gather_all p limit (suc n) l h, gather_all p limit n l h) refl

reached_now : (limit n : ℕ) → limit ≡ n + 1 → is_reached (pos limit) (suc n) ≡ true
reached_now limit n h = ground arith

reached_later :
    (limit n more : ℕ) → limit ≡ n + suc (suc more) → is_reached (pos limit) (suc n) ≡ false
reached_later limit n more h = ground arith

-- With `n` found of `limit`, the loop takes the rest.
gather_some :
    {A : Type 0} (p : A → Bool) (limit n more : ℕ) (l : List A)
    → limit ≡ n + suc more
    → gather p (pos limit) n l ≡ take (suc more) (select p l)
unfolding gather select take
gather_some p limit n more [] h = refl
gather_some p limit n zero (e ∷ l) h = elim (Bool-cases (p e)) [
  | inl k ↦ rw (k, reached_now limit n h) refl
  | inr k ↦ rw (k, gather_some p limit n zero l h) refl
]
gather_some p limit n (suc more) (e ∷ l) h = elim (Bool-cases (p e)) [
  | inl k ↦
      rw (k, reached_later limit n more h, gather_some p limit (suc n) more l (omega arith)) refl
  | inr k ↦ rw (k, gather_some p limit n (suc more) l h) refl
]

pub gather-limited :
    {A : Type 0} (p : A → Bool) (limit : ℤ) (l : List A)
    → gather p limit 0 l ≡ limited limit (select p l)
unfolding limited
gather-limited p (pos zero) l = gather_all p (pos zero) 0 l (λ k. refl)
gather-limited p (pos (suc n)) l = gather_some p (suc n) 0 n l (omega arith)
gather-limited p (negsuc k) l = gather_all p (negsuc k) 0 l (λ k. refl)

-- The entry has at least the level, and its message, its raw line or its source holds the keyword in whatever
-- case and without the blanks around it; every entry holds a blank one.
abbrev pub IsWanted : ⦃r : Runes⦄ → String → String → Entry → Type 0
IsWanted min keyword e =
    let kw = to_lower (trim_space keyword) in
    (level_rank min ≤ level_rank e.level)
    × ((kw ≡ "")
        ⊎ (contains
              (to_lower
                (Text.◌++◌ e.message (Text.◌++◌ " " (Text.◌++◌ e.raw (Text.◌++◌ " " e.source)))))
              kw
            ≡ true))

tests_iff :
    (level least : ℕ) (blank holds : Bool)
    → ((if ltb level least then false else if not blank then holds else true) ≡ true)
      ↔ ((least ≤ level) × ((blank ≡ true) ⊎ (holds ≡ true)))
tests_iff level least blank holds = ground arith

is_wanted_iff :
    ⦃r : Runes⦄ (min keyword : String) (e : Entry)
    → (is_wanted min (to_lower (trim_space keyword)) e ≡ true) ↔ IsWanted min keyword e
unfolding is_wanted
is_wanted_iff min keyword e =
    let kw = to_lower (trim_space keyword) in
    let hay =
      to_lower (Text.◌++◌ e.message (Text.◌++◌ " " (Text.◌++◌ e.raw (Text.◌++◌ " " e.source)))) in
    let (here, back) =
      tests_iff (level_rank e.level) (level_rank min) (kw == "") (contains hay kw) in
    let (empty, is_empty) = eq_iff kw "" in
    (
      (λ h. let (a, b) = here h in (a, elim b [ inl k ↦ inl (empty k) | inr k ↦ inr k ])),
      λ h. back (h.0, elim h.1 [ inl k ↦ inl (is_empty k) | inr k ↦ inr k ]),
    )

-- Where the clock did not go back, `Query` answers the newest entries that are wanted, the newest first: all of
-- them, or as many as a positive limit allows. Wanted is an entry exactly when it has at least the level and holds the
-- keyword.
pub query-newest :
    ⦃r : Runes⦄ (min keyword : String) (limit : ℤ) (l : Logger)
    → IsInTime l.entries
    → (query min keyword limit l
        ≡ limited limit
            (select (is_wanted min (to_lower (trim_space keyword))) (backwards l.entries)))
      × ((e : Entry)
          → (is_wanted min (to_lower (trim_space keyword)) e ≡ true) ↔ IsWanted min keyword e)
unfolding query
query-newest min keyword limit l h =
    let p = is_wanted min (to_lower (trim_space keyword)) in
    let found = gather-limited p limit (backwards l.entries) in
    (
      rw found (
          sort_newest_same (limited limit (select p (backwards l.entries))) (
            limited-IsFalling limit (select p (backwards l.entries))
              (select-IsFalling p (backwards l.entries) (backwards-IsFalling l.entries h)))),
      λ e. is_wanted_iff min keyword e,
    )
