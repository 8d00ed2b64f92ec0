-- ===== src/Store/Series.antt =====
-- internal/store/store.go, `SeriesStore`. The code never looks into a sample, so its type is open.
pub mod Window
use ycfrp.Base.{
  ℕ, ◌-◌, String, ℤ, pos, negsuc, Option, none, some, List, [], ◌∷◌, ◌++◌, ltb, ◌==◌, if◌then◌else◌,
  is_pos, length, drop,
}

pub record Series {ℓ} (A : Type ℓ) : Type ℓ where
  pub path : String
  pub points : List A
  pub max : ℕ
  -- the file at `path`
  pub file : Option String

-- How `os.WriteFile` ends. The store does not look; a failed write may leave anything behind.
pub data Write : Type 0 where
  wrote : Write
  broke : Option String → Write

-- a bound that is not positive means 720
unfoldable pub bound : ℤ → ℕ
bound (pos n) = if ltb 0 n then n else 720
bound (negsuc n) = 720

module _ {ℓ} {A : Type ℓ} where
  unfoldable pub put_file : Write → String → Series A → Series A
  put_file wrote text s = record s { file = some text }
  put_file (broke left) text s = record s { file = left }

  unfoldable pub save : Write → Option String → Series A → Series A
  unfolding put_file
  save w none s = s
  save w (some text) s = if s.path == "" then s else put_file w text s

  -- `points[len(points)-max:]` where there are more than `max`
  unfoldable pub trim : ℕ → List A → List A
  unfolding drop
  trim n l = if ltb n (length l) then drop (length l - n) l else l

  -- `Last`
  unfoldable pub last : List A → Option A
  last [] = none
  last (x ∷ []) = some x
  last (x ∷ y ∷ l) = last (y ∷ l)

  -- `Reset`
  unfoldable pub reset : Write → Series A → Series A
  unfolding save
  reset w s = save w (some "[]") (record s { points = [] })

  -- `NewSeriesStore`, given what `json.Unmarshal` makes of a text and what `os.ReadFile` answers.
  -- Text that does not decode is left alone.
  unfoldable pub new_series : (String → Option (List A)) → String → ℤ → Option String → Series A
  unfolding bound
  new_series decode path n read =
      let blank : Series A = record { path = path; points = []; max = bound n; file = read } in
      elim read [
        | none ↦ blank
        | some text ↦ elim (decode text) [ none ↦ blank | some l ↦ record blank { points = l } ]
      ]

  module _ (encode : List A → Option String) where
    -- `Append`
    unfoldable pub append : Write → A → Series A → Series A
    unfolding save trim
    append w x s =
        let kept = trim s.max (s.points ++ x ∷ []) in
        save w (encode kept) (record s { points = kept })

    unfoldable pub append_all : List (Write × A) → Series A → Series A
    append_all [] s = s
    append_all ((w, x) ∷ rest) s = append_all rest (append w x s)
