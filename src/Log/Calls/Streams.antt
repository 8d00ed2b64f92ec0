-- ===== src/Log/Calls/Streams.antt =====
-- The listeners of the log.
use mathlib.Core.Path.{subst₂}
use ycfrp.Base.{
  ℕ, suc, ◌≤◌, ◌<◌, Bool, List, [], ◌∷◌, ◌++◌, ◌≡◌, ◌≢◌, sym, arith, ltb, eqb, inl, inr, Bool-cases,
  length, length-append, length-drop, All, map, Runes, trim_space, ◌==◌,
}
use ycfrp.Log.{
  Entry, Logger, Calendar, level_rank, ring, offer, receive, remove_sub, subscribe, unsubscribe,
}
use ycfrp.Log.Lines.{trim_line_end}
use ycfrp.Log.Calls.{entry_of, raw_entry, append, log, log_raw}
use ycfrp.Log.Calls.Ring.{
  Call, logs, raws, min_levels, console_levels, dirs, subscribes, unsubscribes, receives, call, run,
  out-IsSame,
}

abbrev Listener : Type 0
Listener = ℕ × List Entry

-- The identifiers are below `next` and differ, and no queue holds more than its channel can.
abbrev pub IsOrderly : ℕ → List (ℕ × List Entry) → Type 0
IsOrderly next [] = Unit
IsOrderly next ((n, q) ∷ m) =
    (n < next) × (length q ≤ 256) × All (λ s. n ≢ s.0) m × IsOrderly next m

offer-bound :
    (e : Entry) (n : ℕ) (q : List Entry) → length q ≤ 256 → length (offer e (n, q)).1 ≤ 256
unfolding offer
offer-bound e n q h = elim (Bool-cases (ltb (length q) 256)) [
  | inl room ↦ rw room (ground (arith, length-append q (e ∷ [])))
  | inr full ↦ rw full h
]

offer-same : (e : Entry) (n : ℕ) (q : List Entry) → (offer e (n, q)).0 ≡ n
unfolding offer
offer-same e n q = ground arith

All-offer :
    (e : Entry) (k : ℕ) (m : List (ℕ × List Entry))
    → All (λ s. k ≢ s.0) m
    → All (λ s. k ≢ s.0) (map (offer e) m)
All-offer e k [] h = tt
All-offer e k ((n, q) ∷ m) (a, h) = (rw (offer-same e n q) a, All-offer e k m h)

offer-IsOrderly :
    (e : Entry) (next : ℕ) (m : List (ℕ × List Entry))
    → IsOrderly next m
    → IsOrderly next (map (offer e) m)
offer-IsOrderly e next [] h = tt
offer-IsOrderly e next ((n, q) ∷ m) (a, b, c, h) = (
  rw (offer-same e n q) a,
  offer-bound e n q b,
  rw (offer-same e n q) (All-offer e n m c),
  offer-IsOrderly e next m h,
)

All-remove_sub :
    (P : ℕ → Type 0) (id : ℕ) (m : List (ℕ × List Entry))
    → All (λ s. P s.0) m
    → All (λ s. P s.0) (remove_sub id m)
unfolding remove_sub
All-remove_sub P id [] h = tt
All-remove_sub P id ((n, q) ∷ m) (a, h) = ground (arith, All-remove_sub P id m h)

remove_sub-IsOrderly :
    (id next : ℕ) (m : List (ℕ × List Entry)) → IsOrderly next m → IsOrderly next (remove_sub id m)
unfolding remove_sub
remove_sub-IsOrderly id next [] h = tt
remove_sub-IsOrderly id next ((n, q) ∷ m) (a, b, c, h) = elim (Bool-cases (eqb n id)) [
  | inl e ↦ rw e (remove_sub-IsOrderly id next m h)
  | inr e ↦ rw e (a, b, All-remove_sub (λ k. n ≢ k) id m c, remove_sub-IsOrderly id next m h)
]

All-receive :
    (P : ℕ → Type 0) (id : ℕ) (m : List (ℕ × List Entry))
    → All (λ s. P s.0) m
    → All (λ s. P s.0) (receive id m)
unfolding receive
All-receive P id [] h = tt
All-receive P id ((n, q) ∷ m) (a, h) = ground (arith, All-receive P id m h)

receive-IsOrderly :
    (id next : ℕ) (m : List (ℕ × List Entry)) → IsOrderly next m → IsOrderly next (receive id m)
unfolding receive
receive-IsOrderly id next [] h = tt
receive-IsOrderly id next ((n, q) ∷ m) (a, b, c, h) = elim (Bool-cases (eqb n id)) [
  | inl e ↦ rw e (a, omega (arith, length-drop 1 q), c, h)
  | inr e ↦ rw e (a, b, All-receive (λ k. n ≢ k) id m c, receive-IsOrderly id next m h)
]

-- A new identifier is none of the old ones.
next_fresh : (next : ℕ) (m : List (ℕ × List Entry)) → IsOrderly next m → All (λ s. next ≢ s.0) m
next_fresh next [] h = tt
next_fresh next ((n, q) ∷ m) (a, b, c, h) = ((λ e. absurd (omega arith)), next_fresh next m h)

IsOrderly-later : (next : ℕ) (m : List (ℕ × List Entry)) → IsOrderly next m → IsOrderly (suc next) m
IsOrderly-later next [] h = tt
IsOrderly-later next ((n, q) ∷ m) (a, b, c, h) = (omega arith, b, c, IsOrderly-later next m h)

module _ (cal : Calendar) where
  append-IsOrderly :
      (opens : Bool) (e : Entry) (l : Logger)
      → IsOrderly l.next_sub l.subs
      → IsOrderly (append cal opens e l).next_sub (append cal opens e l).subs
  unfolding append
  append-IsOrderly opens e l h =
      elim (Bool-cases (ltb (level_rank e.level) (level_rank l.min_level))) [
        | inl low ↦ rw low h
        | inr high ↦
            let kept : Logger = record l {
              entries = ring l.capacity (l.entries ++ e ∷ []);
              subs = map (offer e) l.subs;
            } in
            let (same, fits, level, subs, next) = out-IsSame cal opens e kept in
            rw high (subst₂ IsOrderly (sym next) (sym subs) (offer-IsOrderly e l.next_sub l.subs h))
      ]

  call-IsOrderly :
      ⦃r : Runes⦄ (k : Call) (l : Logger)
      → IsOrderly l.next_sub l.subs
      → IsOrderly (call cal k l).next_sub (call cal k l).subs
  unfolding log log_raw subscribe unsubscribe
  call-IsOrderly (logs opens now level source message) l h =
      append-IsOrderly opens (entry_of now level source message) l h
  call-IsOrderly (raws opens now source line) l h =
      elim (Bool-cases (trim_space (trim_line_end line) == "")) [
        | inl e ↦ rw e h
        | inr e ↦ rw e (append-IsOrderly opens (raw_entry now source (trim_line_end line)) l h)
      ]
  call-IsOrderly (min_levels v) l h = h
  call-IsOrderly (console_levels v) l h = h
  call-IsOrderly (dirs d) l h = h
  call-IsOrderly subscribes l h = (
    omega arith,
    omega arith,
    next_fresh l.next_sub l.subs h,
    IsOrderly-later l.next_sub l.subs h,
  )
  call-IsOrderly (unsubscribes id) l h = remove_sub-IsOrderly id l.next_sub l.subs h
  call-IsOrderly (receives id) l h = receive-IsOrderly id l.next_sub l.subs h

  -- After any calls on a log whose listeners are in order, as those of a new log are, each listener
  -- has an identifier of its own, one that `Subscribe` will not give again, and never more entries
  -- wait for it than its channel holds.
  pub run-IsOrderly :
      ⦃r : Runes⦄ (ks : List Call) (l : Logger)
      → IsOrderly l.next_sub l.subs
      → IsOrderly (run cal ks l).next_sub (run cal ks l).subs
  unfolding run
  run-IsOrderly [] l h = h
  run-IsOrderly (k ∷ ks) l h = run-IsOrderly ks (call cal k l) (call-IsOrderly k l h)
