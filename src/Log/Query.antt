-- ===== src/Log/Query.antt =====
-- internal/logx/logx.go, `Query`: what the panel shows of the log.
pub mod Newest
use Prim.Native.String.{◌++◌}
use ycfrp.Base
use ycfrp.Base.{
  ℕ, suc, String, Bool, true, false, not, ◌&&◌, List, [], ◌∷◌, ℤ, pos, negsuc, ltb, leb, ◌==◌,
  if◌then◌else◌, Runes, to_lower, contains, trim_space,
}
use ycfrp.Log.{Entry, Logger, level_rank}

-- `limit > 0 && n >= limit`
abbrev pub is_reached : ℤ → ℕ → Bool
is_reached (pos limit) n = ltb 0 limit && leb limit n
is_reached (negsuc _) n = false

-- an entry of at least this level that has the keyword, which is in lower case
unfoldable pub is_wanted : ⦃r : Runes⦄ → String → String → Entry → Bool
unfolding level_rank to_lower contains
is_wanted min keyword e =
    let hay = to_lower (e.message ++ (" " ++ (e.raw ++ (" " ++ e.source)))) in
    if ltb (level_rank e.level) (level_rank min)
    then false
    else if not (keyword == "")
    then contains hay keyword
    else true

-- the entries from the last to the first
unfoldable pub backwards : List Entry → List Entry
backwards [] = []
backwards (e ∷ l) = Base.◌++◌ (backwards l) (e ∷ [])

-- the loop, with the number of entries found so far
unfoldable pub gather : {A : Type 0} → (A → Bool) → ℤ → ℕ → List A → List A
gather wanted limit n [] = []
gather wanted limit n (e ∷ l) =
    let found =
      e
      ∷ (let more = gather wanted limit (suc n) l in
          if is_reached limit (suc n) then [] else more) in
    let rest = gather wanted limit n l in if wanted e then found else rest

-- `sort.SliceStable` by the later time
unfoldable pub insert_newest : Entry → List Entry → List Entry
insert_newest e [] = e ∷ []
insert_newest e (f ∷ l) =
    let later = f ∷ insert_newest e l in if ltb e.time f.time then later else e ∷ f ∷ l

unfoldable pub sort_newest : List Entry → List Entry
unfolding insert_newest
sort_newest [] = []
sort_newest (e ∷ l) = insert_newest e (sort_newest l)

-- `Query`
unfoldable pub query : ⦃r : Runes⦄ → String → String → ℤ → Logger → List Entry
unfolding gather sort_newest is_wanted backwards
query min keyword limit l =
    sort_newest
      (gather (is_wanted min (to_lower (trim_space keyword))) limit 0 (backwards l.entries))
