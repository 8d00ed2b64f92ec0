-- ===== src/Notify/Rate.antt =====
-- How far apart the notifications of a key are, and what raises one.
use ycfrp.Base.{
  ℕ, zero, suc, ◌+◌, ◌-◌, ◌*◌, ◌≤◌, ◌<◌, String, true, false, ◌&&◌, Option, none, some, List, [],
  ◌∷◌, ℤ, pos, negsuc, ltb, ◌≡◌, ◌⊎◌, refl, sym, ap, ◌∙◌, ◌==◌, inl, inr, Bool-cases, Option-cases,
  subst, eq_iff, arith, Assoc, lookup, lookup-insert, Runes, to_lower, trim_space, contains,
}
use ycfrp.Config.Document.{NotifyConfig}
use ycfrp.Notify.{
  first_keyword, should_notify_keyword, minute, minutes_residue, quiet_period, allow_rate, allowed,
}

-- Each instant is at least `gap` after the one before it, which is given for the first.
abbrev pub IsSpaced : ℕ → Option ℕ → List ℕ → Type 0
IsSpaced gap last [] = Unit
IsSpaced gap none (t ∷ ts) = IsSpaced gap (some t) ts
IsSpaced gap (some last) (t ∷ ts) = (last + gap ≤ t) × IsSpaced gap (some t) ts

quiet_period-pos : (q : ℤ) → 0 < quiet_period q
unfolding quiet_period
quiet_period-pos q = ground arith

-- The setting in nanoseconds; five minutes where it is not positive.
unfoldable pub set_period : ℤ → ℕ
set_period (negsuc n) = 5 * minute
set_period (pos zero) = 5 * minute
set_period (pos (suc n)) = suc n * minute

-- How far a setting is from 0.
abbrev pub size : ℤ → ℕ
size (pos n) = n
size (negsuc n) = suc n

-- Up to 153722867 minutes the product does not wrap.
quiet_period_exact : (q : ℤ) → size q ≤ 153722867 → quiet_period q ≡ set_period q
unfolding quiet_period minutes_residue set_period
quiet_period_exact (pos zero) h = refl
quiet_period_exact (pos (suc n)) h = ground arith
quiet_period_exact (negsuc n) h = ground arith

allow_rate-other :
    (q : ℤ) (now : ℕ) (k key : String) (m : Assoc ℕ)
    → (k == key) ≡ false
    → lookup key (allow_rate q now k m).1 ≡ lookup key m
unfolding allow_rate
allow_rate-other q now k key m ne = elim (Option-cases (lookup k m)) [
  | inl e ↦ rw (e, allow_rate) (rw (lookup-insert, ne))
  | inr (last, e) ↦
      rw (e, allow_rate)
        (elim (Bool-cases (ltb (now - last) (quiet_period q))) [
          | inl early ↦ rw early refl
          | inr late ↦ rw late (rw (lookup-insert, ne))
        ])
]

-- The quiet period has gone by since the last time, where there was one.
abbrev IsDue : ℕ → ℕ → Option ℕ → Type 0
IsDue gap now none = Unit
IsDue gap now (some last) = last + gap ≤ now

-- A call is refused and changes nothing, or is let through when it is due and noted.
abbrev Answers : ℤ → ℕ → String → Assoc ℕ → Type 0
Answers q now k m =
    (((allow_rate q now k m).0 ≡ false) × ((allow_rate q now k m).1 ≡ m))
    ⊎ (((allow_rate q now k m).0 ≡ true)
        × (lookup k (allow_rate q now k m).1 ≡ some now)
        × IsDue (quiet_period q) now (lookup k m))

due_of : (now last gap : ℕ) → 0 < gap → ltb (now - last) gap ≡ false → last + gap ≤ now
due_of now last gap h e = ground arith

allow_rate-answers : (q : ℤ) (now : ℕ) (k : String) (m : Assoc ℕ) → Answers q now k m
unfolding allow_rate
allow_rate-answers q now k m = elim (Option-cases (lookup k m)) [
  | inl e ↦ rw (e, allow_rate) (inr (refl, rw (lookup-insert, (eq_iff k k).1 refl), tt))
  | inr (last, e) ↦
      rw (e, allow_rate)
        (elim (Bool-cases (ltb (now - last) (quiet_period q))) [
          | inl early ↦ rw early (inl (refl, refl))
          | inr late ↦
              let due = due_of now last (quiet_period q) (quiet_period-pos q) late in
              rw late (inr (refl, rw (lookup-insert, (eq_iff k k).1 refl), due))
        ])
]

due_step :
    (gap now : ℕ) (last : Option ℕ) (ts : List ℕ)
    → IsDue gap now last
    → IsSpaced gap (some now) ts
    → IsSpaced gap last (now ∷ ts)
due_step gap now none ts d h = h
due_step gap now (some last) ts d h = (d, h)

allowed-IsSpacedAfter :
    (q : ℤ) (key : String) (calls : List (ℕ × String)) (m : Assoc ℕ)
    → IsSpaced (quiet_period q) (lookup key m) (allowed q key calls m)
unfolding allowed
allowed-IsSpacedAfter q key [] m = tt
allowed-IsSpacedAfter q key ((now, k) ∷ calls) m =
    let m' = (allow_rate q now k m).1 in
    let gap = quiet_period q in
    elim (Bool-cases (k == key)) [
      | inr ne ↦ rw ne (
          subst (λ o. IsSpaced gap o (allowed q key calls m')) (allow_rate-other q now k key m ne)
            (allowed-IsSpacedAfter q key calls m'))
      | inl e ↦
          let same = (eq_iff k key).0 e in
          rw e (elim (allow_rate-answers q now k m) [
            | inl (refused, still) ↦ rw refused (
                subst (λ n. IsSpaced gap (lookup key n) (allowed q key calls m')) still
                  (allowed-IsSpacedAfter q key calls m'))
            | inr (through, noted, due) ↦
                let noted' = ap (λ j. lookup j m') (sym same) ∙ noted in
                rw through (
                  due_step gap now (lookup key m) (allowed q key calls m')
                    (subst (λ j. IsDue gap now (lookup j m)) same due)
                    (subst (λ o. IsSpaced gap o (allowed q key calls m')) noted'
                      (allowed-IsSpacedAfter q key calls m')))
          ])
    ]

-- Of whatever calls of `AllowRate` at whatever instants, from an empty table and for one setting of
-- the quiet period of at most 153722867 minutes either way, those that let a key through are at least that period
-- apart, or five minutes where the setting is not positive.
pub allowed-IsSpaced :
    (q : ℤ) (key : String) (calls : List (ℕ × String))
    → size q ≤ 153722867
    → IsSpaced (set_period q) none (allowed q key calls [])
unfolding lookup
allowed-IsSpaced q key calls h =
    subst (λ gap. IsSpaced gap none (allowed q key calls [])) (quiet_period_exact q h)
      (allowed-IsSpacedAfter q key calls [])

-- What `first_keyword` answers is not empty, and the line holds it in lower case.
abbrev pub IsHit : ⦃r : Runes⦄ → String → Option String → Type 0
IsHit line none = Unit
IsHit line (some kw) = ((kw == "") ≡ false) × (contains line (to_lower kw) ≡ true)

first_keyword-IsHit :
    ⦃r : Runes⦄ (line : String) (ks : List String) → IsHit line (first_keyword line ks)
unfolding first_keyword
first_keyword-IsHit line [] = tt
first_keyword-IsHit line (k ∷ ks) = elim (Bool-cases (trim_space k == "")) [
  | inl e ↦ rw e (first_keyword-IsHit line ks)
  | inr ne ↦ rw ne (elim (Bool-cases (contains line (to_lower (trim_space k)))) [
    | inl e ↦ rw e (ne, e)
    | inr e ↦ rw e (first_keyword-IsHit line ks)
  ])
]

-- `ShouldNotifyKeyword` answers no keyword unless notifications and the watch for errors are both on,
-- and then only one that is not empty and that the line holds, whatever the case of either.
pub should_notify_keyword-IsHit :
    ⦃r : Runes⦄ {F : Type 0} (c : NotifyConfig F) (line : String)
    → ((c.enable && c.monitor_errors) ≡ false → should_notify_keyword c line ≡ none)
      × IsHit (to_lower line) (should_notify_keyword c line)
unfolding should_notify_keyword
should_notify_keyword-IsHit c line = elim (Bool-cases c.enable) [
  | inr off ↦ rw off ((λ _. refl), tt)
  | inl on ↦ rw on (elim (Bool-cases c.monitor_errors) [
    | inr off ↦ rw off ((λ _. refl), tt)
    | inl watch ↦ rw watch ((λ h. cc), first_keyword-IsHit (to_lower line) c.keywords)
  ])
]
