-- ===== src/Log/Capture/Chunks.antt =====
-- How the pipe cuts the kernel's output does not show in the lines that are logged.
use ycfrp.Base.{
  ℕ, zero, suc, ◌≤◌, List, [], ◌∷◌, ◌++◌, Option, none, some, true, false, ◌≡◌, refl, sym, ap, ◌∙◌,
  arith, eqb, if◌then◌else◌, drop, length, length-drop, inl, inr, Bool-cases, Option-cases,
}
use mathlib.Core.List.{append_assoc, append-nil}
use ycfrp.Log.Capture.{index_byte, first_bytes, drain, captured_lines, split_lines}

-- the bytes of all reads
unfoldable pub joined : List (List ℕ) → List ℕ
joined [] = []
joined (c ∷ cs) = c ++ joined cs

-- the lines, where an empty last one is none
unfoldable pub finished : List (List ℕ) → List (List ℕ)
finished [] = []
finished ([] ∷ []) = []
finished ((b ∷ l) ∷ []) = (b ∷ l) ∷ []
finished (l ∷ m ∷ ls) = l ∷ finished (m ∷ ls)

abbrev Cut : Type 0
Cut = List (List ℕ) × List ℕ

abbrev push : ℕ → Cut → Cut
push b ([], rest) = ([], b ∷ rest)
push b (l ∷ ls, rest) = ((b ∷ l) ∷ ls, rest)

-- The complete lines and the rest, one byte at a time.
unfoldable cut : List ℕ → Cut
cut [] = ([], [])
cut (b ∷ bs) = let more = cut bs in if eqb b 10 then ([] ∷ more.0, more.1) else push b more

-- What the loop answers when it finds the next line feed there.
abbrev Found : List ℕ → Option ℕ → Cut
Found buf none = ([], buf)
Found buf (some n) = (first_bytes n buf ∷ (cut (drop (suc n) buf)).0, (cut (drop (suc n) buf)).1)

cut-index_byte : (buf : List ℕ) → cut buf ≡ Found buf (index_byte buf 10)
unfolding cut index_byte first_bytes drop
cut-index_byte [] = refl
cut-index_byte (b ∷ bs) = elim (Bool-cases (eqb b 10)) [
  | inl e ↦ rw e refl
  | inr e ↦ rw e (elim (Option-cases (index_byte bs 10)) [
    | inl k ↦ rw (cut-index_byte bs, k) refl
    | inr (n, k) ↦ rw (cut-index_byte bs, k) refl
  ])
]

-- The loop on enough fuel.
drain-cut : (fuel : ℕ) (buf : List ℕ) → length buf ≤ fuel → drain fuel buf ≡ cut buf
unfolding drain
drain-cut zero [] h = unfold cut in refl
drain-cut zero (b ∷ bs) h = absurd (omega arith)
drain-cut (suc fuel) buf h = elim (Option-cases (index_byte buf 10)) [
  | inl k ↦ rw (k, drain, cut-index_byte buf, k) refl
  | inr (n, k) ↦
      rw
        (
          k,
          drain,
          cut-index_byte buf,
          k,
          drain-cut fuel (drop (suc n) buf) (omega (arith, length-drop (suc n) buf)),
        )
        refl
]

abbrev behind : List (List ℕ) → Cut → Cut
behind ls c = (ls ++ c.0, c.1)

push-behind :
    (b : ℕ) (c : Cut) (ys : List ℕ)
    → eqb b 10 ≡ false
    → push b (behind c.0 (cut (c.1 ++ ys))) ≡ behind (push b c).0 (cut ((push b c).1 ++ ys))
unfolding cut
push-behind b ([], rest) ys e = rw e refl
push-behind b (l ∷ ls, rest) ys e = refl

cut-append : (xs ys : List ℕ) → cut (xs ++ ys) ≡ behind (cut xs).0 (cut ((cut xs).1 ++ ys))
unfolding cut
cut-append [] ys = refl
cut-append (b ∷ xs) ys = elim (Bool-cases (eqb b 10)) [
  | inl e ↦ rw (e, cut-append xs ys) refl
  | inr e ↦ rw (e, cut-append xs ys) (push-behind b (cut xs) ys e)
]

push-rest :
    (b : ℕ) (c : Cut)
    → eqb b 10 ≡ false
    → cut c.1 ≡ ([], c.1)
    → cut (push b c).1 ≡ ([], (push b c).1)
unfolding cut
push-rest b ([], rest) e h = rw (e, h) refl
push-rest b (l ∷ ls, rest) e h = h

-- What is left has no line feed.
cut-rest : (xs : List ℕ) → cut (cut xs).1 ≡ ([], (cut xs).1)
unfolding cut
cut-rest [] = refl
cut-rest (b ∷ xs) = elim (Bool-cases (eqb b 10)) [
  | inl e ↦ rw e (cut-rest xs)
  | inr e ↦ rw e (push-rest b (cut xs) e (cut-rest xs))
]

push-split :
    (b : ℕ) (c : Cut)
    → eqb b 10 ≡ false
    → elim (c.0 ++ c.1 ∷ []) [
      | [] ↦ (b ∷ []) ∷ []
      | line ∷ lines ↦ (if eqb b 10 then [] ∷ line ∷ lines else (b ∷ line) ∷ lines)
    ]
      ≡ (push b c).0 ++ (push b c).1 ∷ []
push-split b ([], rest) e = rw e refl
push-split b (l ∷ ls, rest) e = rw e refl

feed-split :
    (b : ℕ) (c : Cut)
    → eqb b 10 ≡ true
    → elim (c.0 ++ c.1 ∷ []) [
      | [] ↦ (b ∷ []) ∷ []
      | line ∷ lines ↦ (if eqb b 10 then [] ∷ line ∷ lines else (b ∷ line) ∷ lines)
    ]
      ≡ [] ∷ (c.0 ++ c.1 ∷ [])
feed-split b ([], rest) e = rw e refl
feed-split b (l ∷ ls, rest) e = rw e refl

split_lines-cut : (xs : List ℕ) → split_lines xs ≡ (cut xs).0 ++ (cut xs).1 ∷ []
unfolding split_lines cut
split_lines-cut [] = refl
split_lines-cut (b ∷ xs) = elim (Bool-cases (eqb b 10)) [
  | inl e ↦ rw (split_lines-cut xs) (feed-split b (cut xs) e ∙ rw e refl)
  | inr e ↦ rw (split_lines-cut xs) (push-split b (cut xs) e ∙ rw e refl)
]

-- the last line, where it is not empty
abbrev last_line : List ℕ → List (List ℕ)
last_line [] = []
last_line (b ∷ l) = (b ∷ l) ∷ []

finished-append : (ls : List (List ℕ)) (r : List ℕ) → finished (ls ++ r ∷ []) ≡ ls ++ last_line r
unfolding finished
finished-append [] [] = refl
finished-append [] (b ∷ r) = refl
finished-append (l ∷ []) r = ap (λ k. l ∷ k) (finished-append [] r)
finished-append (l ∷ m ∷ ls) r = ap (λ k. l ∷ k) (finished-append (m ∷ ls) r)

-- All the lines of a text.
unfoldable whole : List ℕ → List (List ℕ)
whole xs = (cut xs).0 ++ last_line (cut xs).1

whole-append : (xs ys : List ℕ) → whole (xs ++ ys) ≡ (cut xs).0 ++ whole ((cut xs).1 ++ ys)
unfolding whole
whole-append xs ys =
    rw (cut-append xs ys)
      (append_assoc (cut xs).0 (cut ((cut xs).1 ++ ys)).0 (last_line (cut ((cut xs).1 ++ ys)).1))

captured_end : (buf : List ℕ) → captured_lines buf [] ≡ last_line buf
unfolding captured_lines
captured_end [] = refl
captured_end (b ∷ buf) = refl

captured_rest :
    (buf : List ℕ) (chunks : List (List ℕ))
    → cut buf ≡ ([], buf)
    → captured_lines buf chunks ≡ whole (buf ++ joined chunks)
unfolding joined captured_lines
captured_rest buf [] h = captured_end buf ∙ rw append-nil (unfold whole in rw h refl)
captured_rest buf (c ∷ cs) h =
    let all = buf ++ c in
    let loop = drain-cut (length all) all (omega arith) in
    rw (loop, ← append_assoc buf c (joined cs), whole-append all (joined cs))
      (ap (λ k. (cut all).0 ++ k) (captured_rest (cut all).1 cs (cut-rest all)))

whole-split : (xs : List ℕ) → whole xs ≡ finished (split_lines xs)
unfolding whole
whole-split xs = rw (split_lines-cut xs) (sym (finished-append (cut xs).0 (cut xs).1))

-- The lines that `Capture` logs are those of the whole output, split at its line feeds, without an empty
-- last one: where the pipe cuts the output does not show, and the loop finds every line.
pub captured_lines-split :
    (chunks : List (List ℕ)) → captured_lines [] chunks ≡ finished (split_lines (joined chunks))
captured_lines-split chunks =
    captured_rest [] chunks (unfold cut in refl) ∙ whole-split (joined chunks)
