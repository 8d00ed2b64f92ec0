-- ===== src/Updater/Extract/Alike.antt =====
-- Both kinds of package give the same program.
use ycfrp.Base.{
  ℕ, String, Option, none, some, List, [], ◌∷◌, ◌≡◌, refl, All, Runes, inl, inr, Bool-cases,
}
use ycfrp.App.Instances.{Folds}
use ycfrp.Log.Capture.{first_bytes}
use ycfrp.Updater.Extract.{
  Entry, is_candidate, is_preferred, choose, write_limited, write_chosen, extract_from_zip,
  tar_from, extract_from_tar_gz, max_extract_bytes,
}

-- Reading the entry succeeds.
abbrev pub IsReadable : Entry → Type 0
IsReadable e = (bytes : List ℕ) × (e.data_ ≡ some bytes)

-- the bytes that are kept of the first candidate
abbrev IsKept : Option Entry → Option (List ℕ) → Type 0
IsKept none fallback = fallback ≡ none
IsKept (some e) fallback =
    (bytes : List ℕ) × (e.data_ ≡ some bytes)
    × (fallback ≡ some (first_bytes max_extract_bytes bytes))

module _ ⦃r : Runes⦄ ⦃f : Folds⦄ (failure : Option String) (prefer_name : String) where
  tar_from-choose :
      (l : List Entry) (chosen : Option Entry) (fallback : Option (List ℕ))
      → All IsReadable l
      → IsKept chosen fallback
      → tar_from failure prefer_name fallback l ≡ write_chosen failure (choose prefer_name chosen l)
  unfolding tar_from choose write_limited
  tar_from-choose [] none fallback h k = rw k refl
  tar_from-choose [] (some e) fallback h (bytes, d, k) = rw (k, d) refl
  tar_from-choose (e ∷ l) none fallback ((b, d), h) k =
      elim (Bool-cases (is_candidate prefer_name e)) [
        | inr no_ ↦ rw no_ (tar_from-choose l none fallback h k)
        | inl yes_ ↦ elim (Bool-cases (is_preferred prefer_name e)) [
          | inl is ↦ rw (yes_, is) refl
          | inr not_ ↦
              rw (yes_, not_, k, d)
                (tar_from-choose l (some (record e { data_ = some b }))
                  (some (first_bytes max_extract_bytes b)) h (b, refl, refl))
        ]
      ]
  tar_from-choose (e ∷ l) (some c) fallback (q, h) (b, d, k) =
      elim (Bool-cases (is_candidate prefer_name e)) [
        | inr no_ ↦ rw no_ (tar_from-choose l (some c) fallback h (b, d, k))
        | inl yes_ ↦ elim (Bool-cases (is_preferred prefer_name e)) [
          | inl is ↦ rw (yes_, is) refl
          | inr not_ ↦
              rw (yes_, not_, k)
                (tar_from-choose l (some c) (some (first_bytes max_extract_bytes b)) h (b, d, refl))
        ]
      ]

  -- When every entry can be read, `extractFromTarGz` and `extractFromZip` end in the same way on the same entries:
  -- with the same program written, or the same error.
  pub extract_from_tar_gz-zip :
      (entries : List Entry)
      → All IsReadable entries
      → extract_from_tar_gz failure prefer_name entries
        ≡ extract_from_zip failure prefer_name entries
  unfolding extract_from_tar_gz extract_from_zip
  extract_from_tar_gz-zip entries h = tar_from-choose entries none none h refl
