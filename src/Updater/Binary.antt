-- ===== src/Updater/Binary.antt =====
-- internal/updater/validate.go: the check of a program before it is installed. A file is its bytes.
pub mod Accepted
use Prim.Native.String.{◌++◌}
use ycfrp.Base.{
  ℕ, zero, suc, ◌+◌, ◌*◌, String, Bool, true, false, not, ◌&&◌, ◌||◌, Option, none, some, List, [],
  ◌∷◌, pos, itoa, ltb, eqb, ◌==◌, if◌then◌else◌, length,
}

-- the byte at an index
unfoldable pub byte_at : List ℕ → ℕ → ℕ
byte_at [] n = 0
byte_at (b ∷ l) zero = b
byte_at (b ∷ l) (suc n) = byte_at l n

-- `binary.LittleEndian.Uint16` and `Uint32` at an index
abbrev pub uint16_at : List ℕ → ℕ → ℕ
uint16_at l n = byte_at l n + 256 * byte_at l (n + 1)

abbrev pub uint32_at : List ℕ → ℕ → ℕ
uint32_at l n = uint16_at l n + 65536 * uint16_at l (n + 2)

-- `expectedELF`, for `runtime.GOARCH`
unfoldable pub expected_elf : String → ℕ
expected_elf arch =
    if arch == "amd64" then 62 else if arch == "arm64" then 183 else if arch == "arm" then 40 else 0

-- `expectedPE`
unfoldable pub expected_pe : String → ℕ
expected_pe arch =
    if arch == "amd64"
    then 34404
    else if arch == "arm64"
    then 43620
    else if arch == "arm"
    then 452
    else 0

-- the errors of `VerifyBinary`; those of an architecture hold the machine code
pub data Refusal : Type 0 where
  not_opened no_info is_empty incomplete no_program bad_offset no_header bad_signature : Refusal
  elf_machine pe_machine : ℕ → Refusal

-- `verifyELF`, for a head of at least 64 bytes
unfoldable pub verify_elf : String → List ℕ → Option Refusal
unfolding expected_elf byte_at
verify_elf arch head =
    if not (eqb (uint16_at head 18) (expected_elf arch))
    then some (elf_machine (uint16_at head 18))
    else none

-- `verifyPE`, for a head of at least 64 bytes, with all the bytes of the file
unfoldable pub verify_pe : String → List ℕ → Option Refusal
unfolding expected_pe byte_at
verify_pe arch file =
    let offset = uint32_at file 60 in
    if eqb offset 0 || ltb 1048576 offset
    then some bad_offset
    else if ltb (length file) (offset + 6)
    then some no_header
    else if not (
        eqb (byte_at file offset) 80
        && eqb (byte_at file (offset + 1)) 69
        && eqb (byte_at file (offset + 2)) 0
        && eqb (byte_at file (offset + 3)) 0)
    then some bad_signature
    else if not (eqb (uint16_at file (offset + 4)) (expected_pe arch))
    then some (pe_machine (uint16_at file (offset + 4)))
    else none

abbrev pub is_elf : List ℕ → Bool
is_elf l =
    eqb (byte_at l 0) 127 && eqb (byte_at l 1) 69 && eqb (byte_at l 2) 76 && eqb (byte_at l 3) 70

abbrev pub is_pe : List ℕ → Bool
is_pe l = eqb (byte_at l 0) 77 && eqb (byte_at l 1) 90

-- `VerifyBinary` of a file that can be opened
unfoldable pub verify_binary : String → List ℕ → Option Refusal
unfolding verify_elf verify_pe
verify_binary arch file =
    if eqb (length file) 0
    then some is_empty
    else if ltb (length file) 64
    then some incomplete
    else if is_elf file
    then verify_elf arch file
    else if is_pe file
    then verify_pe arch file
    else some no_program
