-- ===== src/Examples/Updates.antt =====
-- The checks of an update at small inputs.
use ycfrp.Base.{
  ℕ, true, false, zero, suc, none, some, List, [], ◌∷◌, ◌++◌, ◌≡◌, ◌↔◌, refl, arith, pos, negsuc,
  trim_space, trim_left, trim_right, is_space, trim_prefix, text_lt,
}
use ycfrp.Updater.Versions.{version_parts, at_point, digits_value, parse_version, compare_versions}
use ycfrp.Updater.Versions.Order.{version_numbers, number_of, compare_versions-by_month}
use ycfrp.Updater.Binary.{verify_binary, verify_elf, expected_elf, byte_at, elf_machine}
use ycfrp.Updater.Binary.Accepted.{IsFor, verify_binary_iff}
use ycfrp.App.Instances.{Folds}
use ycfrp.Examples.Data.{plain}
use ycfrp.Updater.Extract.{Entry, extracted, extract_from_tar_gz, extract_from_zip}
use ycfrp.Updater.Extract.Alike.{extract_from_tar_gz-zip}

compare_versions-by_month_example : compare_versions "s2609.030" "s2610.3" ≡ negsuc 0
unfolding version_numbers version_parts number_of at_point trim_space trim_left trim_right is_space
    trim_prefix
compare_versions-by_month_example =
    compare_versions-by_month "s2609.030" "s2610.3" 2609 30 2610 3 refl refl (omega arith)
      (omega arith) (omega arith) (omega arith)

-- A revision of five digits runs into the month.
run_over : compare_versions "s2609.10000" "s2610.0000" ≡ pos 0
unfolding compare_versions parse_version version_parts digits_value at_point trim_space trim_left
    trim_right is_space trim_prefix
run_over = refl

-- What is no version may be taken for a newer one.
no_version_newer : compare_versions "t1" "s2609.003" ≡ pos 1
unfolding compare_versions parse_version version_parts digits_value at_point trim_space trim_left
    trim_right is_space trim_prefix text_lt
no_version_newer = refl

abbrev zeros : ℕ → List ℕ
zeros zero = []
zeros (suc n) = 0 ∷ zeros n

-- the head of an ELF program for amd64
abbrev elf_file : List ℕ
elf_file = (127 ∷ 69 ∷ 76 ∷ 70 ∷ []) ++ (zeros 14 ++ (62 ∷ zeros 60))

verify_binary_iff_example : (verify_binary "amd64" elf_file ≡ none) ↔ IsFor "amd64" elf_file
verify_binary_iff_example = verify_binary_iff "amd64" elf_file

-- No program is accepted on a 386, for which `CurrentPlatform` takes the package of amd64.
no_386 : verify_binary "386" elf_file ≡ some (elf_machine 62)
unfolding verify_binary verify_elf expected_elf byte_at
no_386 = refl

abbrev as_is : Folds
as_is = record { fold = λ c. c }

-- a package with a folder, a text and two programs
abbrev bundle : List Entry
bundle =
    record { name = "pkg/"; is_file = false; data_ = some [] }
    ∷ record { name = "pkg/readme.md"; is_file = true; data_ = some (35 ∷ []) }
    ∷ record { name = "pkg/setup.exe"; is_file = true; data_ = some (1 ∷ []) }
    ∷ record { name = "pkg/ycfrp.exe"; is_file = true; data_ = some (2 ∷ 3 ∷ []) }
    ∷ []

-- The program with the name that is asked for is taken, although another stands before it.
taken : extract_from_zip ⦃r = plain⦄ ⦃f = as_is⦄ none "ycfrp.exe" bundle ≡ extracted (2 ∷ 3 ∷ [])
unfolding extract_from_zip
taken = refl

-- Without it, it is the first program.
first_taken : extract_from_zip ⦃r = plain⦄ ⦃f = as_is⦄ none "ycfrp" bundle ≡ extracted (1 ∷ [])
unfolding extract_from_zip
first_taken = refl

extract_from_tar_gz-zip_example :
    extract_from_tar_gz ⦃r = plain⦄ ⦃f = as_is⦄ none "ycfrp" bundle
    ≡ extract_from_zip ⦃r = plain⦄ ⦃f = as_is⦄ none "ycfrp" bundle
extract_from_tar_gz-zip_example =
    extract_from_tar_gz-zip ⦃r = plain⦄ ⦃f = as_is⦄ none "ycfrp" bundle
      (([], refl), ((35 ∷ [], refl), ((1 ∷ [], refl), ((2 ∷ 3 ∷ [], refl), tt))))
