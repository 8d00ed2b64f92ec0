-- ===== src/Examples/Logs.antt =====
-- The log at small inputs.
use ycfrp.Base.{
  arith, ◌⊎◌, ◌↔◌, All, true, List, [], ◌∷◌, ◌≡◌, pos, map, select, to_lower, trim_space,
}
use ycfrp.Log.{Entry, Logger, Calendar, new, level_info, level_warn, level_error}
use ycfrp.Log.Calls.{entry_of}
use ycfrp.Log.Calls.Ring.{
  logs, min_levels, subscribes, unsubscribes, receives, ledger, run, IsRecent, run-IsRecent,
}
use ycfrp.Log.Calls.Streams.{IsOrderly, run-IsOrderly}
use ycfrp.Log.Capture.{captured_lines, split_lines}
use ycfrp.Log.Capture.Chunks.{joined, finished, captured_lines-split}
use ycfrp.Log.Query.{query, is_wanted, backwards}
use ycfrp.Log.Query.Newest.{limited, IsWanted, query-newest}
use ycfrp.Log.Lines.{hints}
use ycfrp.Log.Analysis.{report, bucket_of, analyze}
use ycfrp.Log.Analysis.Counts.{cases, is_met, analyze-cases}
use ycfrp.Log.Rules.{Rule}
use ycfrp.Log.Table.{kernel_trans}
use ycfrp.Log.Pattern.{Match, fill}
use ycfrp.Log.Translate.{translate_kernel}
use ycfrp.Log.Translate.Parameters.{concat, Misses, IsFirst, translate_kernel-made}
use ycfrp.Examples.Data.{plain}

abbrev pub still : Calendar
still = record { day = λ n. "d"; stamp = λ n. "s"; hour = λ n. "h"; join_path = λ a b. b }

abbrev calls : List ycfrp.Log.Calls.Ring.Call
calls =
    subscribes
    ∷ logs true 1 "info" "panel" "one"
    ∷ min_levels "warn"
    ∷ logs true 2 "info" "panel" "two"
    ∷ logs true 3 "error" "panel" "three"
    ∷ receives 0
    ∷ subscribes
    ∷ unsubscribes 0
    ∷ []

abbrev first_last : List Entry
first_last = entry_of 1 "info" "panel" "one" ∷ entry_of 3 "error" "panel" "three" ∷ []

-- A log with room for one keeps the last entry.
run-IsRecent_example :
    IsRecent 1
      (ledger ⦃r = plain⦄ calls (record { asked = level_info; history = [] })).history
      (run still ⦃r = plain⦄ calls (new (pos 1))).entries
unfolding new
run-IsRecent_example = run-IsRecent still ⦃r = plain⦄ (pos 1) calls

abbrev begun : Logger
begun = new (pos 9)

run-IsOrderly_example :
    IsOrderly (run still ⦃r = plain⦄ calls begun).next_sub (run still ⦃r = plain⦄ calls begun).subs
unfolding new
run-IsOrderly_example = run-IsOrderly still ⦃r = plain⦄ calls begun tt

abbrev shown : Logger
shown = record begun { entries = first_last }

query-newest_example :
    (query ⦃r = plain⦄ "info" "PANEL" (pos 1) shown
      ≡ limited (pos 1) (
          select
            (is_wanted ⦃r = plain⦄ "info" (to_lower ⦃r = plain⦄ (trim_space "PANEL")))
            (backwards first_last)))
    × ((e : Entry)
        → (is_wanted ⦃r = plain⦄ "info" (to_lower ⦃r = plain⦄ (trim_space "PANEL")) e ≡ true)
          ↔ IsWanted ⦃r = plain⦄ "info" "PANEL" e)
unfolding entry_of
query-newest_example =
    query-newest ⦃r = plain⦄ "info" "PANEL" (pos 1) shown ((omega arith, tt), (tt, tt))

-- "a", a line feed and "b" in two reads
captured_lines-split_example :
    captured_lines [] ((97 ∷ []) ∷ (10 ∷ 98 ∷ []) ∷ [])
    ≡ finished (split_lines (joined ((97 ∷ []) ∷ (10 ∷ 98 ∷ []) ∷ [])))
captured_lines-split_example = captured_lines-split ((97 ∷ []) ∷ (10 ∷ 98 ∷ []) ∷ [])

analyze-cases_example :
    analyze ⦃r = plain⦄ (pos 2) shown
    ≡ map
        (λ h. report h (bucket_of (cases ⦃r = plain⦄ shown h)))
        (limited (pos 2) (select (λ h. is_met (cases ⦃r = plain⦄ shown h)) hints))
analyze-cases_example = analyze-cases ⦃r = plain⦄ (pos 2) shown

translate_kernel-made_example :
    (All (Misses "receive heartbeat") kernel_trans
      × (translate_kernel "receive heartbeat" ≡ "receive heartbeat"))
    ⊎ ((r : Rule) × (m : Match) × IsFirst "receive heartbeat" kernel_trans r m
        × (concat m.0 ≡ "receive heartbeat")
        × (translate_kernel "receive heartbeat" ≡ fill r.atoms m.0 r.template))
translate_kernel-made_example = translate_kernel-made "receive heartbeat"
