-- ===== src/Log/Archive.antt =====
-- internal/logx/logx.go, `writeFile`: the file of the day.
use Prim.Native.String.{◌++◌}
use ycfrp.Base.{
  String, Bool, true, false, ◌||◌, not, Option, none, some, ◌==◌, if◌then◌else◌, Assoc, lookup,
  insert,
}
use ycfrp.Log.{Entry, Handle, Logger, Calendar}

module _ (cal : Calendar) where
  -- the line of an entry in the file
  abbrev file_line : Entry → String
  file_line e = cal.stamp e.time ++ (" [" ++ (e.label ++ ("] " ++ (e.message ++ "\n"))))

  -- `f.WriteString`, on a file that may have been closed
  abbrev after : Option String → String → String
  after none line = line
  after (some old) line = old ++ line

  unfoldable pub write_line : String → Handle → Assoc String → Assoc String
  write_line line h disk =
      if h.is_open then insert h.name (after (lookup h.name disk) line) disk else disk

  abbrev write_to : String → Option Handle → Assoc String → Assoc String
  write_to line none disk = disk
  write_to line (some h) disk = write_line line h disk

  -- `_ = l.file.Close()`
  abbrev close_file : Option Handle → Option Handle
  close_file none = none
  close_file (some h) = some (record h { is_open = false })

  abbrev is_nil : Option Handle → Bool
  is_nil none = true
  is_nil (some h) = false

  -- `writeFile`, given whether `os.OpenFile` succeeds
  unfoldable pub write_file : Bool → Entry → Logger → Logger
  unfolding write_line
  write_file opens e l =
      let date = cal.day e.time in
      let h : Handle = record {
        name = cal.join_path l.dir ("ycfrp-" ++ (date ++ ".log"));
        is_open = true;
      } in
      if l.dir == ""
      then l
      else if not (l.file_date == date) || is_nil l.file
      then (if opens
          then record l {
            file = some h;
            file_date = date;
            disk = write_line (file_line e) h l.disk;
          }
          else record l { file = close_file l.file })
      else record l { disk = write_to (file_line e) l.file l.disk }
