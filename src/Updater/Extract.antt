-- ===== src/Updater/Extract.antt =====
-- internal/updater/extract.go: which file of a package becomes the program. An archive that can be opened and
-- listed is the list of its entries; what reading one and writing the program answer is part of the entry or an
-- argument.
pub mod Alike
use ycfrp.Base.{
  ℕ, String, Char, code, Bool, true, false, not, ◌&&◌, ◌||◌, Option, none, some, List, [], ◌∷◌, eqb,
  ◌==◌, if◌then◌else◌, Runes, to_lower, has_prefix, has_suffix,
}
use ycfrp.App.Instances.{Folds, equal_fold}
use ycfrp.Log.Capture.{first_bytes}
use ycfrp.Updater.Versions.{trim_slashes, is_slash}

-- An entry; `is_file` says that it is no directory (.zip) or a regular file (.tar.gz), and `data_` is what reading it answers, `none` for an error.
pub record Entry : Type 0 where
  pub name : String
  pub is_file : Bool
  pub data_ : Option (List ℕ)

-- How an extraction ends: with the bytes of the program, or an error.
pub data Extracted : Type 0 where
  extracted : List ℕ → Extracted
  not_found not_read is_empty : Extracted
  not_written : String → Extracted

-- what stands after the last slash
unfoldable pub last_part : String → String
last_part String.[] = String.[]
last_part (String.◌∷◌ c s) =
    let rest = last_part s in
    if is_slash c then rest else if rest == s then String.◌∷◌ c s else rest

-- `filepath.Base` where a slash alone separates, as on Linux
unfoldable pub path_base : String → String
unfolding last_part trim_slashes
path_base s =
    let t = trim_slashes s in if s == "" then "." else if t == "" then "/" else last_part t

-- `isBinaryName`
unfoldable pub is_binary_name : ⦃r : Runes⦄ → String → Bool
unfolding path_base to_lower has_prefix has_suffix
is_binary_name name =
    let base = to_lower (path_base name) in
    if (base == "") || has_prefix base "."
    then false
    else if has_suffix base ".exe"
    then true
    else base == "ycfrp"

-- `maxExtractBytes`
abbrev pub max_extract_bytes : ℕ
max_extract_bytes = 209715200

module _ ⦃r : Runes⦄ ⦃f : Folds⦄ (prefer_name : String) where
  abbrev pub is_candidate : Entry → Bool
  is_candidate e = e.is_file && is_binary_name e.name

  abbrev pub is_preferred : Entry → Bool
  is_preferred e = not (prefer_name == "") && equal_fold (path_base e.name) prefer_name

  abbrev pub or_first : Option Entry → Entry → Option Entry
  or_first none e = some e
  or_first (some c) e = some c

  -- the loop of `extractFromZip`
  unfoldable pub choose : Option Entry → List Entry → Option Entry
  unfolding is_binary_name equal_fold path_base
  choose chosen [] = chosen
  choose chosen (e ∷ l) =
      let skip = choose chosen l in
      let later = choose (or_first chosen e) l in
      if not (is_candidate e) then skip else if is_preferred e then some e else later

-- `writeBytes`, given the error of the file system, if there is one
unfoldable pub write_bytes : Option String → List ℕ → Extracted
write_bytes failure [] = is_empty
write_bytes none (b ∷ l) = extracted (b ∷ l)
write_bytes (some e) (b ∷ l) = not_written e

-- `writeLimited`
unfoldable pub write_limited : Option String → Option (List ℕ) → Extracted
unfolding write_bytes first_bytes
write_limited failure none = not_read
write_limited failure (some bytes) = write_bytes failure (first_bytes max_extract_bytes bytes)

abbrev pub write_chosen : Option String → Option Entry → Extracted
write_chosen failure none = not_found
write_chosen failure (some e) = write_limited failure e.data_

module _ ⦃r : Runes⦄ ⦃f : Folds⦄ (failure : Option String) (prefer_name : String) where
  -- `extractFromZip`
  unfoldable pub extract_from_zip : List Entry → Extracted
  unfolding choose write_limited
  extract_from_zip entries = write_chosen failure (choose prefer_name none entries)

  -- the end of `extractFromTarGz`
  abbrev write_fallback : Option (List ℕ) → Extracted
  write_fallback none = not_found
  write_fallback (some bytes) = write_bytes failure bytes

  -- the loop of `extractFromTarGz`, with the bytes of the first candidate
  unfoldable pub tar_from : Option (List ℕ) → List Entry → Extracted
  unfolding write_bytes write_limited first_bytes is_binary_name equal_fold path_base
  tar_from fallback [] = write_fallback fallback
  tar_from fallback (e ∷ l) =
      let skip = tar_from fallback l in
      let cached = elim fallback as (λ x. Extracted) [
        | some bytes ↦ tar_from (some bytes) l
        | none ↦ elim e.data_ as (λ x. Extracted) [
          | none ↦ not_read
          | some bytes ↦ tar_from (some (first_bytes max_extract_bytes bytes)) l
        ]
      ] in
      if not (is_candidate prefer_name e)
      then skip
      else if is_preferred prefer_name e
      then write_limited failure e.data_
      else cached

  -- `extractFromTarGz`
  unfoldable pub extract_from_tar_gz : List Entry → Extracted
  unfolding tar_from
  extract_from_tar_gz entries = tar_from none entries
