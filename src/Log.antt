-- ===== src/Log.antt =====
-- internal/logx/logx.go: the panel's log, a bounded list of entries that is also sent to listeners
-- and to a file per day. Each method holds the lock while it touches the state, and is one step, also
-- `append`, which sends after it; the clock, the calendar and the file system are arguments.
pub mod Archive
pub mod Lines
pub mod Pattern
pub mod Rules
pub mod Table
pub mod Translate
pub mod Calls
pub mod Capture
pub mod Query
pub mod Analysis
pub mod Export
use Prim.Native.String.{◌++◌}
use ycfrp.Base.{
  ℕ, suc, ◌-◌, ◌/◌, String, Bool, true, false, ◌||◌, not, Option, none, some, List, [], ◌∷◌, ℤ, pos,
  negsuc, ltb, eqb, ◌==◌, if◌then◌else◌, length, drop, Assoc, lookup, insert,
}
use ycfrp.Base

-- `Level`; the level of an entry may be any text
abbrev pub level_trace : String
level_trace = "trace"

abbrev pub level_debug : String
level_debug = "debug"

abbrev pub level_info : String
level_info = "info"

abbrev pub level_warn : String
level_warn = "warn"

abbrev pub level_error : String
level_error = "error"

abbrev pub level_fatal : String
level_fatal = "fatal"

-- `LevelLabel`
unfoldable pub level_label : String → String
level_label l =
    if l == level_trace
    then "追踪"
    else if l == level_debug
    then "调试"
    else if l == level_info
    then "信息"
    else if l == level_warn
    then "警告"
    else if l == level_error
    then "错误"
    else if l == level_fatal
    then "严重"
    else "信息"

-- `LevelRank`
unfoldable pub level_rank : String → ℕ
level_rank l =
    if l == level_trace
    then 0
    else if l == level_debug
    then 1
    else if l == level_info
    then 2
    else if l == level_warn
    then 3
    else if l == level_error
    then 4
    else if l == level_fatal
    then 5
    else 2

-- `Entry`
pub record Entry : Type 0 where
  pub time : ℕ
  pub level : String
  pub label : String
  pub source : String
  pub message : String
  pub raw : String

-- `l.file`: the file's path, and whether it is still open
pub record Handle : Type 0 where
  pub name : String
  pub is_open : Bool

-- `Logger`. A listener is the queue of what it has not received yet. `disk` holds the files of the
-- log, `printed` what went to the console.
pub record Logger : Type 0 where
  pub entries : List Entry
  pub capacity : ℕ
  pub subs : List (ℕ × List Entry)
  pub next_sub : ℕ
  pub dir : String
  pub file : Option Handle
  pub file_date : String
  pub min_level : String
  pub cli_level : String
  pub disk : Assoc String
  pub printed : List String

-- What packages `time` and `path/filepath` make of an instant and of a path: the formats
-- `2006-01-02`, `2006-01-02 15:04:05` and `15:04:05`, and `filepath.Join`.
pub record Calendar : Type 0 where
  pub day : ℕ → String
  pub stamp : ℕ → String
  pub hour : ℕ → String
  pub join_path : String → String → String

-- `New`; a capacity that is not positive means 2000
abbrev capacity_of : ℤ → ℕ
capacity_of (pos n) = if ltb 0 n then n else 2000
capacity_of (negsuc n) = 2000

unfoldable pub new : ℤ → Logger
new c = record {
  entries = [];
  capacity = capacity_of c;
  subs = [];
  next_sub = 0;
  dir = "";
  file = none;
  file_date = "";
  min_level = level_info;
  cli_level = level_info;
  disk = [];
  printed = [];
}

-- `SetDir`
abbrev pub set_dir : String → Logger → Logger
set_dir d l = record l { dir = d }

-- `SetMinLevel`
abbrev pub set_min_level : String → Logger → Logger
set_min_level v l = record l { min_level = v }

-- `SetConsoleLevel`
abbrev pub set_console_level : String → Logger → Logger
set_console_level v l = record l { cli_level = v }

-- `Subscribe`
unfoldable pub subscribe : Logger → ℕ × Logger
subscribe l = (l.next_sub, record l { subs = (l.next_sub, []) ∷ l.subs; next_sub = suc l.next_sub })

-- `delete(l.subs, id)`
unfoldable pub remove_sub : ℕ → List (ℕ × List Entry) → List (ℕ × List Entry)
remove_sub id [] = []
remove_sub id ((n, q) ∷ m) = let rest = remove_sub id m in if eqb n id then rest else (n, q) ∷ rest

-- `Unsubscribe`; deleting an identifier that is not there does nothing
unfoldable pub unsubscribe : ℕ → Logger → Logger
unfolding remove_sub
unsubscribe id l = record l { subs = remove_sub id l.subs }

-- the non-blocking send to one listener, whose channel holds 256 entries
unfoldable pub offer : Entry → ℕ × List Entry → ℕ × List Entry
offer e (n, q) = if ltb (length q) 256 then (n, Base.◌++◌ q (e ∷ [])) else (n, q)

-- The receive of a listener takes the oldest of its entries.
unfoldable pub receive : ℕ → List (ℕ × List Entry) → List (ℕ × List Entry)
receive id [] = []
receive id ((n, q) ∷ m) =
    let rest = receive id m in if eqb n id then (n, drop 1 q) ∷ m else (n, q) ∷ rest

-- `append`, the entries: those that remain once there are more than the capacity
unfoldable pub ring : ℕ → List Entry → List Entry
ring cap l = if ltb cap (length l) then drop (length l - (cap - cap / 8)) l else l
