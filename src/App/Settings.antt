-- ===== src/App/Settings.antt =====
-- internal/app/app.go: the level of the log, and the status that the panel shows.
use ycfrp.Base
use ycfrp.Base.{
  ℕ, String, Bool, true, false, not, ◌||◌, Option, none, some, List, [], ◌∷◌, ltb, ◌==◌,
  if◌then◌else◌, Runes, to_lower, trim_space, Assoc, lookup, insert, remove, values,
}
use ycfrp.Frp.Instance.{Instance, enabled, is_server}
use ycfrp.Frp.Tunnel.{Tunnel}
use ycfrp.Log.{level_trace, level_debug, level_info, level_warn, level_error}

-- `logRank`
unfoldable pub log_rank : ⦃r : Runes⦄ → String → ℕ
unfolding to_lower trim_space
log_rank s =
    let l = to_lower (trim_space s) in
    if l == "trace"
    then 0
    else if l == "debug"
    then 1
    else if (l == "info") || (l == "")
    then 2
    else if (l == "warn") || (l == "warning")
    then 3
    else if l == "error"
    then 4
    else 2

-- `parseLevel`
unfoldable pub parse_level : ⦃r : Runes⦄ → String → String
unfolding to_lower trim_space
parse_level s =
    let l = to_lower (trim_space s) in
    if l == "trace"
    then level_trace
    else if l == "debug"
    then level_debug
    else if (l == "warn") || (l == "warning")
    then level_warn
    else if l == "error"
    then level_error
    else level_info

-- the level of the log of an instance
abbrev pub instance_level : Instance → String
instance_level i = if is_server i then i.server.log_level else i.client.log_level

-- `verboseLogLevel`, from the level of the settings and the instances that `List` answers
unfoldable pub verbose_log_level : ⦃r : Runes⦄ → String → List Instance → String
unfolding log_rank enabled
verbose_log_level level [] = level
verbose_log_level level (i ∷ l) =
    let lower = verbose_log_level (instance_level i) l in
    let same = verbose_log_level level l in
    if not (enabled i)
    then same
    else if ltb (log_rank (instance_level i)) (log_rank level)
    then lower
    else same

-- `byID` of `Snapshot`
unfoldable pub live_by_id : List Tunnel → Assoc Tunnel → Assoc Tunnel
unfolding insert
live_by_id [] m = m
live_by_id (t ∷ l) m = live_by_id l (insert t.id t m)

-- the loop over the stored tunnels, and what is left of `byID` after it
unfoldable pub take_live : List Tunnel → Assoc Tunnel → List Tunnel × Assoc Tunnel
unfolding lookup remove
take_live [] m = ([], m)
take_live (t ∷ l) m =
    let (without, rest) = take_live l m in
    let (shown, rest') = take_live l (remove t.id m) in
    elim (lookup t.id m) [ none ↦ (t ∷ without, rest) | some live ↦ (live ∷ shown, rest') ]

-- the tunnels of `Snapshot` of the application, from the stored ones and those that the engine reports
unfoldable pub merged_tunnels : List Tunnel → List Tunnel → List Tunnel
unfolding live_by_id take_live
merged_tunnels stored live =
    let (shown, rest) = take_live stored (live_by_id live []) in Base.◌++◌ shown (values rest)
