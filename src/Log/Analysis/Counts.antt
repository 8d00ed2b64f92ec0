-- ===== src/Log/Analysis/Counts.antt =====
-- What `Analyze` counts.
use mathlib.Core.Path.{fun_ext}
use Prim.Native.String as Text
use ycfrp.Base.{
  suc, ◌+◌, String, Bool, true, false, Option, none, some, List, [], ◌∷◌, ℤ, ◌≡◌, refl, ap, ◌∙◌,
  arith, eq_iff, ◌==◌, if◌then◌else◌, Runes, Assoc, lookup, lookup-insert, map, select, length, inl,
  inr, Bool-cases, ltb, leb, ◌&&◌,
}
use ycfrp.Log.{Entry, Logger, level_rank, level_warn}
use ycfrp.Log.Lines.{Hint, hints, matches, first_hint, explain}
use ycfrp.Log.Query.{backwards, gather}
use ycfrp.Log.Query.Newest.{limited, gather-limited}
use ycfrp.Log.Analysis.{
  Bucket, grown, bump, bump_for, problem, tally, has_bucket, bucket_of, report, analyze,
}

-- the hint, if there is one, has this pattern
abbrev is_case_of : String → Option Hint → Bool
is_case_of k none = false
is_case_of k (some h) = h.pattern_ == k

abbrev first : {A : Type 0} → List A → Option A
first [] = none
first (a ∷ l) = some a

-- An entry of at least the level warn whose first hint has this pattern; a hint fits where the message or the raw
-- line holds its pattern, whatever the case of either.
unfoldable pub is_case : ⦃r : Runes⦄ → String → Entry → Bool
is_case k e =
    leb (level_rank level_warn) (level_rank e.level)
    && is_case_of k (first (select (matches (Text.◌++◌ e.message (Text.◌++◌ " " e.raw))) hints))

first_hint_lem :
    ⦃r : Runes⦄ (line : String) (hs : List Hint)
    → first_hint line hs ≡ first (select (matches line) hs)
unfolding first_hint select
first_hint_lem line [] = refl
first_hint_lem line (h ∷ hs) = elim (Bool-cases (matches line h)) [
  | inl e ↦ rw e refl
  | inr e ↦ rw e (first_hint_lem line hs)
]

is_case_lem : ⦃r : Runes⦄ (k : String) (e : Entry) → is_case_of k (problem e) ≡ is_case k e
unfolding is_case problem explain
is_case_lem k e =
    let found = first_hint_lem (Text.◌++◌ e.message (Text.◌++◌ " " e.raw)) hints in
    elim (Bool-cases (ltb (level_rank e.level) (level_rank level_warn))) [
      | inl low ↦
          let low' : leb (level_rank level_warn) (level_rank e.level) ≡ false = ground arith in
          rw (low, low') refl
      | inr high ↦
          let high' : leb (level_rank level_warn) (level_rank e.level) ≡ true = ground arith in
          rw (high, high', found) refl
    ]

-- The bucket of the entries of one problem, the newest of which comes first.
unfoldable pub summary : List Entry → Option Bucket
summary [] = none
summary (e ∷ l) = some (record { count = suc (length l); last = e.time; sample = e.message })

abbrev joined : Option Bucket → List Entry → Option Bucket
joined none l = summary l
joined (some b) l = some (record b { count = b.count + length l })

joined-grown :
    (e : Entry) (o : Option Bucket) (l : List Entry)
    → joined (some (grown e o)) l ≡ joined o (e ∷ l)
unfolding grown summary
joined-grown e none l =
    ap (λ n. some (record { count = n; last = e.time; sample = e.message })) (omega arith)
joined-grown e (some b) l = ap (λ n. some (record b { count = n })) (omega arith)

joined-nil : (o : Option Bucket) → o ≡ joined o []
unfolding summary
joined-nil none = refl
joined-nil (some b) = ap (λ n. some (record b { count = n })) (omega arith)

bump_step :
    (k : String) (e : Entry) (o : Option Hint) (agg : Assoc Bucket) (l : List Entry)
    → joined (lookup k (bump_for e o agg)) l
      ≡ joined (lookup k agg) (if is_case_of k o then e ∷ l else l)
unfolding bump
bump_step k e none agg l = refl
bump_step k e (some h) agg l = elim (Bool-cases (h.pattern_ == k)) [
  | inl same ↦
      rw (lookup-insert, same, (eq_iff h.pattern_ k).0 same) (joined-grown e (lookup k agg) l)
  | inr other ↦ rw (lookup-insert, other) refl
]

lookup-tally :
    ⦃r : Runes⦄ (k : String) (l : List Entry) (agg : Assoc Bucket)
    → lookup k (tally l agg) ≡ joined (lookup k agg) (select (is_case k) l)
unfolding tally select
lookup-tally k [] agg = joined-nil (lookup k agg)
lookup-tally k (e ∷ l) agg =
    lookup-tally k l (bump_for e (problem e) agg)
    ∙ bump_step k e (problem e) agg (select (is_case k) l)
    ∙ ap (λ b. joined (lookup k agg) (if b then e ∷ select (is_case k) l else select (is_case k) l))
        (is_case_lem k e)

-- the bucket of a hint, by the entries alone
unfoldable pub cases : ⦃r : Runes⦄ → Logger → Hint → Option Bucket
unfolding summary is_case
cases l h = summary (select (is_case h.pattern_) (backwards l.entries))

abbrev pub is_met : Option Bucket → Bool
is_met none = false
is_met (some b) = true

tally-cases :
    ⦃r : Runes⦄ (l : Logger) (h : Hint)
    → lookup h.pattern_ (tally (backwards l.entries) []) ≡ cases l h
unfolding cases lookup
tally-cases l h = lookup-tally h.pattern_ (backwards l.entries) []

-- The loop over the hints, for a table that answers as `of` does.
reports_of :
    (agg : Assoc Bucket) (of : Hint → Option Bucket) (limit : ℤ) (hs : List Hint)
    → ((h : Hint) → lookup h.pattern_ agg ≡ of h)
    → map (λ h. report h (bucket_of (lookup h.pattern_ agg))) (gather (has_bucket agg) limit 0 hs)
      ≡ map (λ h. report h (bucket_of (of h))) (limited limit (select (λ h. is_met (of h)) hs))
reports_of agg of limit hs e =
    let shown : (λ (h : Hint). report h (bucket_of (lookup h.pattern_ agg)))
        ≡ (λ (h : Hint). report h (bucket_of (of h))) =
      fun_ext (λ h. ap (λ o. report h (bucket_of o)) (e h)) in
    let met : has_bucket agg ≡ (λ (h : Hint). is_met (of h)) = fun_ext (λ h. ap is_met (e h)) in
    ap (λ f. map f (gather (has_bucket agg) limit 0 hs)) shown
    ∙ ap (map (λ h. report h (bucket_of (of h))))
        (gather-limited (has_bucket agg) limit hs ∙ ap (λ p. limited limit (select p hs)) met)

-- `Analyze` reports each hint that is the first one of an entry of at least the level warn, in the order of the
-- hints, as many as a positive limit allows: with the number of such entries of the log, and the time and the message
-- of the newest of them. Entries below warn count for none.
pub analyze-cases :
    ⦃r : Runes⦄ (limit : ℤ) (l : Logger)
    → analyze limit l
      ≡ map
          (λ h. report h (bucket_of (cases l h)))
          (limited limit (select (λ h. is_met (cases l h)) hints))
unfolding analyze
analyze-cases limit l =
    reports_of (tally (backwards l.entries) []) (cases l) limit hints (tally-cases l)
