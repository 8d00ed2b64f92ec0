-- ===== src/Updater/Binary/Accepted.antt =====
-- Which programs are accepted.
use mathlib.Core.Bool.{true≢false}
use ycfrp.Base.{
  sym, ℕ, ◌+◌, ◌<◌, ◌≤◌, ◌≢◌, ◌==◌, eq_iff, String, true, false, none, some, List, ltb, eqb, ◌≡◌,
  ◌↔◌, ◌⊎◌, refl, arith, inl, inr, Bool-cases, length, if◌then◌else◌,
}
use ycfrp.Updater.Binary.{
  byte_at, uint16_at, uint32_at, expected_elf, expected_pe, verify_elf, verify_pe, verify_binary,
  is_elf, is_pe, no_program,
}

-- The machine code is the one of the architecture, which the panel knows three of; it expects 0 of any other.
abbrev pub IsMachine : String → ℕ → ℕ → ℕ → ℕ → Type 0
IsMachine arch amd64 arm64 arm m =
    ((arch ≡ "amd64") × (m ≡ amd64))
    ⊎ ((arch ≡ "arm64") × (m ≡ arm64))
    ⊎ ((arch ≡ "arm") × (m ≡ arm))
    ⊎ ((arch ≢ "amd64") × (arch ≢ "arm64") × (arch ≢ "arm") × (m ≡ 0))

-- The machine code of the file, of an ELF program and of a PE program.
abbrev pub IsElfFor : String → ℕ → Type 0
IsElfFor arch = IsMachine arch 62 183 40

abbrev pub IsPeFor : String → ℕ → Type 0
IsPeFor arch = IsMachine arch 34404 43620 452

code_iff :
    (arch : String) (amd64 arm64 arm m : ℕ)
    → (m ≡ (
        if arch == "amd64"
        then amd64
        else if arch == "arm64"
        then arm64
        else if arch == "arm"
        then arm
        else 0))
      ↔ IsMachine arch amd64 arm64 arm m
code_iff arch amd64 arm64 arm m = elim (Bool-cases (arch == "amd64")) [
  | inl e ↦
      let a = (eq_iff arch "amd64").0 e in
      rw a (
        (λ h. inl (refl, h)),
        λ h. elim h [
          | inl k ↦ k.1
          | inr (inl k) ↦ absurd (true≢false (sym ((eq_iff "amd64" "arm64").1 k.0)))
          | inr (inr (inl k)) ↦ absurd (true≢false (sym ((eq_iff "amd64" "arm").1 k.0)))
          | inr (inr (inr k)) ↦ absurd (k.0 refl)
        ],
      )
  | inr x ↦ elim (Bool-cases (arch == "arm64")) [
    | inl e ↦
        let a = (eq_iff arch "arm64").0 e in
        rw a (
          (λ h. inr (inl (refl, h))),
          λ h. elim h [
            | inl k ↦ absurd (true≢false (sym ((eq_iff "arm64" "amd64").1 k.0)))
            | inr (inl k) ↦ k.1
            | inr (inr (inl k)) ↦ absurd (true≢false (sym ((eq_iff "arm64" "arm").1 k.0)))
            | inr (inr (inr k)) ↦ absurd (k.1 refl)
          ],
        )
    | inr y ↦ ground (arith, x, y, eq_iff arch "amd64", eq_iff arch "arm64", eq_iff arch "arm")
  ]
]

elf_machine_iff : (arch : String) (m : ℕ) → (m ≡ expected_elf arch) ↔ IsElfFor arch m
unfolding expected_elf
elf_machine_iff arch m = code_iff arch 62 183 40 m

pe_machine_iff : (arch : String) (m : ℕ) → (m ≡ expected_pe arch) ↔ IsPeFor arch m
unfolding expected_pe
pe_machine_iff arch m = code_iff arch 34404 43620 452 m

-- The header of PE stands at the offset that byte 60 holds, all of it in the file, and has the signature.
abbrev HasHeader : String → List ℕ → Type 0
HasHeader arch file =
    (0 < uint32_at file 60)
    × (uint32_at file 60 ≤ 1048576)
    × (uint32_at file 60 + 6 ≤ length file)
    × (byte_at file (uint32_at file 60) ≡ 80)
    × (byte_at file (uint32_at file 60 + 1) ≡ 69)
    × (byte_at file (uint32_at file 60 + 2) ≡ 0)
    × (byte_at file (uint32_at file 60 + 3) ≡ 0)
    × IsPeFor arch (uint16_at file (uint32_at file 60 + 4))

abbrev HasElfMagic : List ℕ → Type 0
HasElfMagic file =
    (byte_at file 0 ≡ 127) × (byte_at file 1 ≡ 69) × (byte_at file 2 ≡ 76) × (byte_at file 3 ≡ 70)

-- The file is long enough, and an ELF program or a PE program for the machine.
abbrev pub IsFor : String → List ℕ → Type 0
IsFor arch file =
    (64 ≤ length file)
    × ((HasElfMagic file × IsElfFor arch (uint16_at file 18))
        ⊎ ((byte_at file 0 ≡ 77) × (byte_at file 1 ≡ 90) × HasHeader arch file))

-- The same in the order of the tests.
abbrev Passes : String → List ℕ → Type 0
Passes arch file =
    (64 ≤ length file)
    × (((is_elf file ≡ true) × IsElfFor arch (uint16_at file 18))
        ⊎ ((is_elf file ≡ false) × (is_pe file ≡ true) × HasHeader arch file))

is_elf_iff : (file : List ℕ) → (is_elf file ≡ true) ↔ HasElfMagic file
is_elf_iff file = ground arith

is_pe_iff : (file : List ℕ) → (is_pe file ≡ true) ↔ ((byte_at file 0 ≡ 77) × (byte_at file 1 ≡ 90))
is_pe_iff file = ground arith

no_elf : (file : List ℕ) → byte_at file 0 ≡ 77 → is_elf file ≡ false
no_elf file h = rw h refl

order_iff : (arch : String) (file : List ℕ) → Passes arch file ↔ IsFor arch file
order_iff arch file = (
  (λ h. (
    h.0,
    elim h.1 [
      | inl (e, m) ↦ inl ((is_elf_iff file).0 e, m)
      | inr (e, p, k) ↦ let (a, b) = (is_pe_iff file).0 p in inr (a, b, k)
    ],
  )),
  λ h. (
    h.0,
    elim h.1 [
      | inl (e, m) ↦ inl ((is_elf_iff file).1 e, m)
      | inr (a, b, k) ↦ inr (no_elf file a, (is_pe_iff file).1 (a, b), k)
    ],
  ),
)

verify_elf_iff :
    (arch : String) (file : List ℕ)
    → (verify_elf arch file ≡ none) ↔ IsElfFor arch (uint16_at file 18)
unfolding verify_elf
verify_elf_iff arch file =
    let (here, back) = elf_machine_iff arch (uint16_at file 18) in
    let m : (verify_elf arch file ≡ none) ↔ (uint16_at file 18 ≡ expected_elf arch) =
      ground arith in
    ((λ h. here (m.0 h)), λ h. m.1 (back h))

verify_pe_tests :
    (arch : String) (file : List ℕ)
    → (verify_pe arch file ≡ none) ↔ (
        (0 < uint32_at file 60)
        × (uint32_at file 60 ≤ 1048576)
        × (uint32_at file 60 + 6 ≤ length file)
        × (byte_at file (uint32_at file 60) ≡ 80)
        × (byte_at file (uint32_at file 60 + 1) ≡ 69)
        × (byte_at file (uint32_at file 60 + 2) ≡ 0)
        × (byte_at file (uint32_at file 60 + 3) ≡ 0)
        × (uint16_at file (uint32_at file 60 + 4) ≡ expected_pe arch))
unfolding verify_pe
verify_pe_tests arch file = ground arith

verify_pe_iff : (arch : String) (file : List ℕ) → (verify_pe arch file ≡ none) ↔ HasHeader arch file
verify_pe_iff arch file =
    let (out, into) = verify_pe_tests arch file in
    let (here, back) = pe_machine_iff arch (uint16_at file (uint32_at file 60 + 4)) in
    (
      (λ h. let (a, b, c, d, i, j, k, m) = out h in (a, b, c, d, i, j, k, here m)),
      λ (a, b, c, d, i, j, k, m). into (a, b, c, d, i, j, k, back m),
    )

-- What follows once the file is long enough.
accepts :
    (arch : String) (file : List ℕ)
    → 64 ≤ length file
    → ((if is_elf file
          then verify_elf arch file
          else if is_pe file
          then verify_pe arch file
          else some no_program)
        ≡ none)
      ↔ Passes arch file
accepts arch file long = elim (Bool-cases (is_elf file)) [
  | inl e ↦ rw e (
    (λ h. (long, inl (refl, (verify_elf_iff arch file).0 h))),
    λ h. elim h.1 [ inl k ↦ (verify_elf_iff arch file).1 k.1 | inr k ↦ absurd (true≢false k.0) ],
  )
  | inr e ↦ rw e (elim (Bool-cases (is_pe file)) [
    | inl p ↦ rw p (
      (λ h. (long, inr (refl, refl, (verify_pe_iff arch file).0 h))),
      λ h. elim h.1 [
        | inl k ↦ absurd (true≢false (sym k.0))
        | inr (x, y, k) ↦ (verify_pe_iff arch file).1 k
      ],
    )
    | inr p ↦ rw p (
      (λ h. cc),
      λ h. elim h.1 [
        | inl k ↦ absurd (true≢false (sym k.0))
        | inr (x, y, k) ↦ absurd (true≢false (sym y))
      ],
    )
  ])
]

verify_binary-Passes :
    (arch : String) (file : List ℕ) → (verify_binary arch file ≡ none) ↔ Passes arch file
unfolding verify_binary
verify_binary-Passes arch file = elim (Bool-cases (eqb (length file) 0)) [
  | inl e ↦ rw e ((λ h. cc), λ h. absurd (ground arith))
  | inr e ↦ rw e (elim (Bool-cases (ltb (length file) 64)) [
    | inl short ↦ rw short ((λ h. cc), λ h. absurd (ground arith))
    | inr long ↦ rw long (accepts arch file (ground arith))
  ])
]

-- `VerifyBinary` accepts exactly the files of at least 64 bytes that start as an ELF program does and have the machine
-- code of the panel's architecture, or start as a PE program does, with a header at an offset of at most 2 ^ 20, all of it in the file,
-- with the signature of PE and the machine code of the architecture. For an architecture that is none of
-- amd64, arm64 and arm the machine code is 0.
pub verify_binary_iff :
    (arch : String) (file : List ℕ) → (verify_binary arch file ≡ none) ↔ IsFor arch file
verify_binary_iff arch file =
    let (here, back) = order_iff arch file in
    let (out, into) = verify_binary-Passes arch file in ((λ h. here (out h)), λ h. into (back h))
