-- ===== src/Notify.antt =====
-- internal/notify/notify.go: what may raise a notification, and how often. The delivery to the
-- channels is HTTP and is not modelled. An instant is in nanoseconds.
pub mod Rate
use ycfrp.Base.{
  ℕ, suc, ◌-◌, ◌*◌, ◌&&◌, ◌%◌, String, Bool, true, false, not, ◌||◌, Option, none, some, List, [],
  ◌∷◌, ℤ, pos, negsuc, ltb, ◌==◌, if◌then◌else◌, Runes, to_lower, trim_space, contains, Assoc,
  lookup, insert,
}
use ycfrp.Config.Document.{NotifyConfig}

-- the first keyword of the configuration that a line in lower case holds
unfoldable pub first_keyword : ⦃r : Runes⦄ → String → List String → Option String
unfolding to_lower trim_space contains
first_keyword line [] = none
first_keyword line (k ∷ ks) =
    let rest = first_keyword line ks in
    let kw = trim_space k in
    if kw == "" then rest else if contains line (to_lower kw) then some kw else rest

-- `ShouldNotifyKeyword`
unfoldable pub should_notify_keyword :
    ⦃r : Runes⦄ → {F : Type 0} → NotifyConfig F → String → Option String
unfolding first_keyword
should_notify_keyword c line =
    if not c.enable || not c.monitor_errors then none else first_keyword (to_lower line) c.keywords

abbrev pub minute : ℕ
minute = 60000000000

-- the residues of int64
abbrev pub word : ℕ
word = 18446744073709551616

abbrev pub sign_bit : ℕ
sign_bit = 9223372036854775808

-- `time.Duration(minutes) * time.Minute`, as a residue
unfoldable pub minutes_residue : ℤ → ℕ
minutes_residue (pos n) = n * minute % word
minutes_residue (negsuc n) = (word - suc n * minute % word) % word

-- the quiet period of `AllowRate`; a product that is not positive as an int64 is five minutes
unfoldable pub quiet_period : ℤ → ℕ
unfolding minutes_residue
quiet_period minutes =
    let quiet = minutes_residue minutes in
    if ltb 0 quiet && ltb quiet sign_bit then quiet else 5 * minute

-- `AllowRate` at an instant: the answer, and the table after it
unfoldable pub allow_rate : ℤ → ℕ → String → Assoc ℕ → Bool × Assoc ℕ
unfolding lookup insert quiet_period
allow_rate quiet_minutes now key cooldown = elim (lookup key cooldown) [
  | none ↦ (true, insert key now cooldown)
  | some last ↦
      (if ltb (now - last) (quiet_period quiet_minutes)
        then (false, cooldown)
        else (true, insert key now cooldown))
]

-- the instants at which a key was let through, of the calls that are made one after the other
unfoldable pub allowed : ℤ → String → List (ℕ × String) → Assoc ℕ → List ℕ
unfolding allow_rate
allowed q key [] cooldown = []
allowed q key ((now, k) ∷ calls) cooldown =
    let (yes_, after) = allow_rate q now k cooldown in
    let rest = allowed q key calls after in
    if k == key then if yes_ then now ∷ rest else rest else rest
