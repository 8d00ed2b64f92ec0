-- ===== src/Log/Calls.antt =====
-- internal/logx/logx.go: what puts an entry into the log.
pub mod Ring
pub mod Streams
use Prim.Native.String.{◌++◌}
use ycfrp.Base.{
  ℕ, String, Bool, true, false, List, [], ◌∷◌, map, leb, ltb, eqb, code, ◌==◌, if◌then◌else◌, Runes,
  trim_space,
}
use ycfrp.Base
use ycfrp.Log.{Entry, Logger, Calendar, level_label, level_rank, ring, offer}
use ycfrp.Log.Archive.{write_file}
use ycfrp.Log.Lines.{detect_level, trim_line_end}
use ycfrp.Log.Translate.{clean_kernel_message}

-- the entry that `Log` makes
unfoldable pub entry_of : ℕ → String → String → String → Entry
entry_of now level source message = record {
  time = now;
  level = level;
  label = level_label level;
  source = source;
  message = message;
  raw = "";
}

-- the entry that `LogRaw` makes
unfoldable pub raw_entry : ⦃r : Runes⦄ → ℕ → String → String → Entry
raw_entry now source line = record {
  time = now;
  level = detect_level line;
  label = level_label (detect_level line);
  source = source;
  message = clean_kernel_message line;
  raw = line;
}

module _ (cal : Calendar) where
  abbrev console_line : Entry → String
  console_line e = cal.hour e.time ++ (" [" ++ (e.label ++ ("] " ++ (e.message ++ "\n"))))

  -- the echo on the console
  unfoldable pub echo : Entry → Logger → Logger
  unfolding level_rank
  echo e l =
      if leb (level_rank l.cli_level) (level_rank e.level)
      then record l { printed = console_line e ∷ l.printed }
      else l

  -- `append`, given whether the file of the day can be opened, as one step. The code holds the lock only for the ring
  -- and for the copy of the listeners: an `Unsubscribe` between that and the sending is not modelled.
  unfoldable pub append : Bool → Entry → Logger → Logger
  unfolding ring offer write_file level_rank echo
  append opens e l =
      let kept : Logger = record l {
        entries = ring l.capacity (Base.◌++◌ l.entries (e ∷ []));
        subs = map (offer e) l.subs;
      } in
      if ltb (level_rank e.level) (level_rank l.min_level)
      then l
      else write_file cal opens e (echo e kept)

  -- `Log`
  unfoldable pub log : Bool → ℕ → String → String → String → Logger → Logger
  unfolding append entry_of
  log opens now level source message l = append opens (entry_of now level source message) l

  -- `LogRaw`
  unfoldable pub log_raw : ⦃r : Runes⦄ → Bool → ℕ → String → String → Logger → Logger
  unfolding append raw_entry trim_line_end
  log_raw opens now source line l =
      let line' = trim_line_end line in
      if trim_space line' == "" then l else append opens (raw_entry now source line') l
