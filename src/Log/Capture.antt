-- ===== src/Log/Capture.antt =====
-- internal/logx/logx.go, `Capture` and `Write`: the output of the kernel, line by line.
pub mod Chunks
use ycfrp.Base.{
  ℕ, zero, suc, String, Bool, List, [], ◌∷◌, ◌++◌, Option, none, some, eqb, if◌then◌else◌, Runes,
  drop, ◌==◌, select, not, trim_space, length,
}
use ycfrp.Log.{Logger, Calendar}
use ycfrp.Log.Calls.{log_raw}

-- `indexByte`; `none` is -1
unfoldable pub index_byte : List ℕ → ℕ → Option ℕ
index_byte [] c = none
index_byte (b ∷ l) c =
    let rest = index_byte l c in
    if eqb b c then some 0 else elim rest [ none ↦ none | some n ↦ some (suc n) ]

-- `b[:n]`
unfoldable pub first_bytes : ℕ → List ℕ → List ℕ
first_bytes zero l = []
first_bytes (suc n) [] = []
first_bytes (suc n) (b ∷ l) = b ∷ first_bytes n l

-- the inner loop: the lines that are complete, and what is left in the buffer
unfoldable pub drain : ℕ → List ℕ → List (List ℕ) × List ℕ
unfolding index_byte first_bytes drop
drain zero buf = ([], buf)
drain (suc fuel) buf = elim (index_byte buf 10) [
  | none ↦ ([], buf)
  | some n ↦
      (let (lines, rest) = drain fuel (drop (suc n) buf) in (first_bytes n buf ∷ lines, rest))
]

-- the lines that `Capture` logs, given what the reads of the pipe answer until it ends; a buffer has no
-- more lines than bytes
unfoldable pub captured_lines : List ℕ → List (List ℕ) → List (List ℕ)
unfolding drain
captured_lines buf (chunk ∷ chunks) =
    let (lines, rest) = drain (length (buf ++ chunk)) (buf ++ chunk) in
    lines ++ captured_lines rest chunks
captured_lines [] [] = []
captured_lines (b ∷ buf) [] = (b ∷ buf) ∷ []

-- `strings.Split(s, "\n")`, of the bytes of a text
unfoldable pub split_lines : List ℕ → List (List ℕ)
split_lines [] = [] ∷ []
split_lines (b ∷ l) = elim (split_lines l) [
  | [] ↦ (b ∷ []) ∷ []
  | line ∷ lines ↦ (if eqb b 10 then [] ∷ line ∷ lines else (b ∷ line) ∷ lines)
]

-- Whether each call can open the file of the day, and what time it is then, by the number of the call;
-- and the text of bytes.
module _ (cal : Calendar) (opens : ℕ → Bool) (now : ℕ → ℕ) (text_of : List ℕ → String) where
  -- `LogRaw` for each line, the first of which is call number `k`
  unfoldable pub log_lines : ⦃r : Runes⦄ → ℕ → String → List (List ℕ) → Logger → Logger
  unfolding log_raw
  log_lines k source [] l = l
  log_lines k source (line ∷ lines) l =
      log_lines (suc k) source lines (log_raw cal (opens k) (now k) source (text_of line) l)

  -- `Capture`, from its start to the end of the pipe
  unfoldable pub capture : ⦃r : Runes⦄ → String → List (List ℕ) → Logger → Logger
  unfolding log_lines captured_lines
  capture source chunks l = log_lines 0 source (captured_lines [] chunks) l

  -- `Write`, with the number of bytes that it reports
  unfoldable pub write : ⦃r : Runes⦄ → List ℕ → Logger → ℕ × Logger
  unfolding log_lines split_lines
  write p l = (
    length p,
    log_lines 0 "kernel" (select (λ line. not (trim_space (text_of line) == "")) (split_lines p)) l,
  )
