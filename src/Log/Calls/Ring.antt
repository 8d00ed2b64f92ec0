-- ===== src/Log/Calls/Ring.antt =====
-- The entries that the log holds, against a log that forgets nothing.
use ycfrp.Base.{
  ℕ, zero, suc, ◌-◌, ◌/◌, ◌≤◌, String, Bool, List, [], ◌∷◌, ◌++◌, ℤ, ◌≡◌, ◌⊎◌, refl, sym, ap, ◌∙◌,
  arith, ltb, leb, ◌==◌, if◌then◌else◌, inl, inr, Bool-cases, length, drop, length-append,
  length-drop, Runes, trim_space, map, ltb→lt, subst,
}
use mathlib.Core.List.{append_assoc}
use ycfrp.Log.{
  Entry, Logger, Calendar, new, level_rank, level_info, ring, offer, receive, subscribe,
  unsubscribe, set_dir, set_min_level, set_console_level,
}
use ycfrp.Log.Archive.{write_file}
use ycfrp.Log.Lines.{trim_line_end}
use ycfrp.Log.Calls.{entry_of, raw_entry, echo, append, log, log_raw}

-- A call of the log, by the panel or by a listener.
pub data Call : Type 0 where
  logs : Bool → ℕ → String → String → String → Call
  raws : Bool → ℕ → String → String → Call
  min_levels console_levels dirs : String → Call
  subscribes : Call
  unsubscribes receives : ℕ → Call

-- The log without a bound: the level that it asks for, and all that it ever took.
pub record Ledger : Type 0 where
  pub asked : String
  pub history : List Entry

abbrev note : Entry → Ledger → Ledger
note e g =
    if ltb (level_rank e.level) (level_rank g.asked)
    then g
    else record g { history = g.history ++ e ∷ [] }

abbrev pub note_call : ⦃r : Runes⦄ → Call → Ledger → Ledger
note_call (logs _ now level source message) g = note (entry_of now level source message) g
note_call (raws _ now source line) g =
    if trim_space (trim_line_end line) == ""
    then g
    else note (raw_entry now source (trim_line_end line)) g
note_call (min_levels v) g = record g { asked = v }
note_call _ g = g

unfoldable pub ledger : ⦃r : Runes⦄ → List Call → Ledger → Ledger
ledger [] g = g
ledger (c ∷ cs) g = ledger cs (note_call c g)

module _ (cal : Calendar) where
  abbrev pub call : ⦃r : Runes⦄ → Call → Logger → Logger
  call (logs opens now level source message) l = log cal opens now level source message l
  call (raws opens now source line) l = log_raw cal opens now source line l
  call (min_levels v) l = set_min_level v l
  call (console_levels v) l = set_console_level v l
  call (dirs d) l = set_dir d l
  call subscribes l = (subscribe l).1
  call (unsubscribes id) l = unsubscribe id l
  call (receives id) l = record l { subs = receive id l.subs }

  unfoldable pub run : ⦃r : Runes⦄ → List Call → Logger → Logger
  run [] l = l
  run (c ∷ cs) l = run cs (call c l)

-- The entries are the end of the history: all of it, or at least seven eighths of the capacity, and
-- never more than that.
abbrev pub IsRecent : ℕ → List Entry → List Entry → Type 0
IsRecent size history entries =
    (older : List Entry) × (history ≡ older ++ entries)
    × (length entries ≤ size)
    × ((older ≡ []) ⊎ (size - size / 8 ≤ length entries))

before : ℕ → List Entry → List Entry
before zero l = []
before (suc n) [] = []
before (suc n) (x ∷ l) = x ∷ before n l

before-drop : (n : ℕ) (l : List Entry) → l ≡ before n l ++ drop n l
unfolding before drop
before-drop zero [] = refl
before-drop zero (x ∷ l) = refl
before-drop (suc n) [] = refl
before-drop (suc n) (x ∷ l) = ap (λ m. x ∷ m) (before-drop n l)

longer_end :
    (size : ℕ) (older es : List Entry) (e : Entry)
    → (older ≡ []) ⊎ (size - size / 8 ≤ length es)
    → (older ≡ []) ⊎ (size - size / 8 ≤ length (es ++ e ∷ []))
longer_end size older es e (inl h) = inl h
longer_end size older es e (inr h) = inr (omega (arith, length-append es (e ∷ [])))

ring-IsRecent :
    (size : ℕ) (h es : List Entry) (e : Entry)
    → IsRecent size h es
    → IsRecent size (h ++ e ∷ []) (ring size (es ++ e ∷ []))
unfolding ring
ring-IsRecent size h es e (older, same, fits, low) =
    let l = es ++ e ∷ [] in
    let whole = ap (λ m. m ++ e ∷ []) same ∙ append_assoc older es (e ∷ []) in
    elim (Bool-cases (ltb size (length l))) [
      | inr le ↦ rw le (older, whole, ground arith, longer_end size older es e low)
      | inl gt ↦
          let k = length l - (size - size / 8) in
          rw gt (
            older ++ before k l,
            whole
                ∙ ap (λ m. older ++ m) (before-drop k l)
                ∙ sym (append_assoc older (before k l) (drop k l)),
            omega (arith, length-drop k l),
            inr (omega (arith, length-drop k l, ltb→lt size (length l) gt)),
          )
    ]

module _ (cal : Calendar) where
  -- What the files and the console leave as it is.
  abbrev pub IsSame : Logger → Logger → Type 0
  IsSame a b =
      (a.entries ≡ b.entries)
      × (a.capacity ≡ b.capacity)
      × (a.min_level ≡ b.min_level)
      × (a.subs ≡ b.subs)
      × (a.next_sub ≡ b.next_sub)

  write_file-IsSame : (opens : Bool) (e : Entry) (l : Logger) → IsSame (write_file cal opens e l) l
  unfolding write_file
  write_file-IsSame opens e l =
      (ground arith, ground arith, ground arith, ground arith, ground arith)

  echo-IsSame : (e : Entry) (l : Logger) → IsSame (echo cal e l) l
  unfolding echo
  echo-IsSame e l = elim (Bool-cases (leb (level_rank l.cli_level) (level_rank e.level))) [
    | inl h ↦ rw h (refl, refl, refl, refl, refl)
    | inr h ↦ rw h (refl, refl, refl, refl, refl)
  ]

  pub out-IsSame :
      (opens : Bool) (e : Entry) (l : Logger) → IsSame (write_file cal opens e (echo cal e l)) l
  out-IsSame opens e l =
      let (a, b, c, d, f) = write_file-IsSame opens e (echo cal e l) in
      let (a', b', c', d', f') = echo-IsSame e l in (a ∙ a', b ∙ b', c ∙ c', d ∙ d', f ∙ f')

  -- The log holds the end of the history of the ledger, and asks for the same level.
  abbrev Agrees : ℕ → Logger → Ledger → Type 0
  Agrees size l g =
      (l.capacity ≡ size) × (l.min_level ≡ g.asked) × IsRecent size g.history l.entries

  append-Agrees :
      (size : ℕ) (opens : Bool) (e : Entry) (l : Logger) (g : Ledger)
      → Agrees size l g
      → Agrees size (append cal opens e l) (note e g)
  unfolding append
  append-Agrees size opens e l g (c, m, h) =
      elim (Bool-cases (ltb (level_rank e.level) (level_rank l.min_level))) [
        | inl low ↦ rw (low, ← m, low) (c, refl, h)
        | inr high ↦
            let kept : Logger = record l {
              entries = ring l.capacity (l.entries ++ e ∷ []);
              subs = map (offer e) l.subs;
            } in
            let (same, fits, level, subs, next) = out-IsSame opens e kept in
            rw (high, ← m, high)
              (
                fits ∙ c,
                level,
                subst (IsRecent size (g.history ++ e ∷ []))
                    (sym (same ∙ ap (λ n. ring n (l.entries ++ e ∷ [])) c))
                    (ring-IsRecent size g.history l.entries e h),
              )
      ]

  call-Agrees :
      ⦃r : Runes⦄ (size : ℕ) (k : Call) (l : Logger) (g : Ledger)
      → Agrees size l g
      → Agrees size (call cal k l) (note_call k g)
  unfolding log log_raw subscribe unsubscribe
  call-Agrees size (logs opens now level source message) l g h =
      append-Agrees size opens (entry_of now level source message) l g h
  call-Agrees size (raws opens now source line) l g h =
      elim (Bool-cases (trim_space (trim_line_end line) == "")) [
        | inl e ↦ rw e h
        | inr e ↦ rw e (append-Agrees size opens (raw_entry now source (trim_line_end line)) l g h)
      ]
  call-Agrees size (min_levels v) l g (c, m, h) = (c, refl, h)
  call-Agrees size (console_levels v) l g h = h
  call-Agrees size (dirs d) l g h = h
  call-Agrees size subscribes l g h = h
  call-Agrees size (unsubscribes id) l g h = h
  call-Agrees size (receives id) l g h = h

  run-Agrees :
      ⦃r : Runes⦄ (size : ℕ) (ks : List Call) (l : Logger) (g : Ledger)
      → Agrees size l g
      → Agrees size (run cal ks l) (ledger ks g)
  unfolding run ledger
  run-Agrees size [] l g h = h
  run-Agrees size (k ∷ ks) l g h =
      run-Agrees size ks (call cal k l) (note_call k g) (call-Agrees size k l g h)

  -- After any calls on a new log, by the panel and by listeners in any order, its entries are the
  -- newest of those that a log without a bound would hold: all of them, or at least seven eighths of
  -- the capacity, and never more than the capacity.
  pub run-IsRecent :
      ⦃r : Runes⦄ (c : ℤ) (ks : List Call)
      → IsRecent
          (new c).capacity
          (ledger ks (record { asked = level_info; history = [] })).history
          (run cal ks (new c)).entries
  unfolding new
  run-IsRecent c ks =
      (run-Agrees (new c).capacity ks (new c) (record { asked = level_info; history = [] })
        (refl, refl, ([], refl, omega arith, inl refl))).2
