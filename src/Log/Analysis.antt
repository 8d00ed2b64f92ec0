-- ===== src/Log/Analysis.antt =====
-- internal/logx/logx.go, `Analyze` and `analyzeLocked`: the problems in the log with what to do.
pub mod Counts
use Prim.Native.String.{◌++◌}
use ycfrp.Base.{
  ℕ, suc, String, Bool, true, false, Option, none, some, List, [], ◌∷◌, ℤ, pos, ltb, if◌then◌else◌,
  Runes, Assoc, lookup, insert, map,
}
use ycfrp.Log.{Entry, Logger, level_rank, level_warn}
use ycfrp.Log.Lines.{Hint, hints, explain}
use ycfrp.Log.Query.{backwards, gather}

-- `bucket`
pub record Bucket : Type 0 where
  pub count : ℕ
  pub last : ℕ
  pub sample : String

-- an item of the answer
pub record Report : Type 0 where
  pub title : String
  pub cause : String
  pub fix_ : String
  pub count : ℕ
  pub last : ℕ
  pub sample : String

-- `b.count++`, for the bucket that is there or a new one
unfoldable pub grown : Entry → Option Bucket → Bucket
grown e none = record { count = 1; last = e.time; sample = e.message }
grown e (some b) = record b { count = suc b.count }

unfoldable pub bump : String → Entry → Assoc Bucket → Assoc Bucket
unfolding grown lookup insert
bump k e agg = insert k (grown e (lookup k agg)) agg

-- the hint of an entry that is a problem
unfoldable pub problem : ⦃r : Runes⦄ → Entry → Option Hint
unfolding explain level_rank
problem e =
    if ltb (level_rank e.level) (level_rank level_warn)
    then none
    else explain (e.message ++ (" " ++ e.raw))

abbrev pub bump_for : Entry → Option Hint → Assoc Bucket → Assoc Bucket
bump_for e none agg = agg
bump_for e (some h) agg = bump h.pattern_ e agg

-- the loop over the entries, from the newest
unfoldable pub tally : ⦃r : Runes⦄ → List Entry → Assoc Bucket → Assoc Bucket
unfolding bump problem
tally [] agg = agg
tally (e ∷ l) agg = tally l (bump_for e (problem e) agg)

abbrev pub has_bucket : Assoc Bucket → Hint → Bool
has_bucket agg h = elim (lookup h.pattern_ agg) [ none ↦ false | some b ↦ true ]

abbrev pub bucket_of : Option Bucket → Bucket
bucket_of none = record { count = 0; last = 0; sample = "" }
bucket_of (some b) = b

abbrev pub report : Hint → Bucket → Report
report h b = record {
  title = h.title;
  cause = h.cause;
  fix_ = h.fix_;
  count = b.count;
  last = b.last;
  sample = b.sample;
}

-- `Analyze`
unfoldable pub analyze : ⦃r : Runes⦄ → ℤ → Logger → List Report
unfolding tally gather backwards hints
analyze limit l =
    let agg = tally (backwards l.entries) [] in
    map (λ h. report h (bucket_of (lookup h.pattern_ agg))) (gather (has_bucket agg) limit 0 hints)

-- `sort.SliceStable` by the larger count
unfoldable pub insert_larger : Report → List Report → List Report
insert_larger e [] = e ∷ []
insert_larger e (f ∷ l) =
    let later = f ∷ insert_larger e l in if ltb e.count f.count then later else e ∷ f ∷ l

unfoldable pub sort_larger : List Report → List Report
unfolding insert_larger
sort_larger [] = []
sort_larger (e ∷ l) = insert_larger e (sort_larger l)

-- `analyzeLocked`
unfoldable pub analyze_locked : ⦃r : Runes⦄ → Logger → List Report
unfolding analyze sort_larger
analyze_locked l = sort_larger (analyze (pos 0) l)
