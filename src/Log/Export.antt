-- ===== src/Log/Export.antt =====
-- internal/logx/logx.go, `Export`: the log as a text document.
use Prim.Native.String.{◌++◌}
use ycfrp.Base.{ℕ, String, ◌||◌, List, [], ◌∷◌, pos, itoa, ◌==◌, if◌then◌else◌, Runes}
use ycfrp.Log.{Entry, Logger, Calendar}
use ycfrp.Log.Analysis.{Report, analyze_locked}

-- `strings.Repeat("=", 72)`
abbrev rule : String
rule = "========================================================================"

module _ (cal : Calendar) where
  -- the lines of one entry
  unfoldable pub export_entry : Entry → String
  export_entry e =
      let head =
        cal.stamp e.time
        ++ (" [" ++ (e.label ++ ("] (" ++ (e.source ++ (") " ++ (e.message ++ "\n")))))) in
      if e.raw == "" || e.raw == e.message then head else head ++ ("    原始: " ++ (e.raw ++ "\n"))

  unfoldable pub export_entries : List Entry → String
  unfolding export_entry
  export_entries [] = ""
  export_entries (e ∷ l) = export_entry e ++ export_entries l

  unfoldable pub export_reports : List Report → String
  unfolding itoa
  export_reports [] = ""
  export_reports (r ∷ l) =
      ("· " ++ (r.title ++ ("（出现 " ++ (itoa (pos r.count) ++ " 次）\n"))))
      ++ (("  原因: " ++ (r.cause ++ "\n")) ++ (("  建议: " ++ (r.fix_ ++ "\n\n")) ++ export_reports l))

  abbrev export_analysis : List Report → String
  export_analysis [] = ""
  export_analysis (r ∷ l) = ("\n" ++ (rule ++ "\n")) ++ ("问题定位\n\n" ++ export_reports (r ∷ l))

  -- `Export`
  unfoldable pub export : ⦃r : Runes⦄ → ℕ → Logger → String
  unfolding export_entries export_reports analyze_locked
  export now l =
      "YCFRP 运行日志导出\n"
      ++ (("导出时间: " ++ (cal.stamp now ++ "\n"))
          ++ ((rule ++ "\n\n") ++ (export_entries l.entries ++ export_analysis (analyze_locked l))))
