-- ===== src/Store/Collection/Invariant.antt =====
-- The map of a collection holds each record under its own identifier, once.
use ycfrp.Base.{
  ℕ, String, Option, none, some, List, [], ◌∷◌, ◌≡◌, refl, subst, ◌==◌, Assoc, lookup, insert,
  IsMap, insert-IsMap, remove-IsMap, All, inl, inr, Bool-cases, Option-cases, All-insert_entry,
  All-remove_entry,
}
use ycfrp.Store.Collection.{
  Entity, Codec, Collection, Outcome, Read, absent, failed, content, ok, result, Error, load_text,
  index, replace, put, delete, new_collection,
}
use ycfrp.Store.Collection.Lookup.{flush-items, put-items, stamped}

ok-injective {κ} : {A : Type κ} {a b : A} → ok a ≡ ok b → a ≡ b
ok-injective e = cc

result-ok {κ} : {A : Type κ} (a : A) (e : Option Error) {b : A} → result a e ≡ ok b → a ≡ b
result-ok a none h = cc
result-ok a (some x) h = cc

module _ {ℓ} {T : Type ℓ} where
  abbrev pub IsKeyed : (T → String) → Assoc T → Type 0
  IsKeyed id m = IsMap m × All (λ e. id e.1 ≡ e.0) m

  insert-IsKeyed :
      (id : T → String) (k : String) (v : T) (m : Assoc T)
      → id v ≡ k
      → IsKeyed id m
      → IsKeyed id (insert k v m)
  insert-IsKeyed id k v m e (h, a) =
      (insert-IsMap k v m h, All-insert_entry (λ e. id e.1 ≡ e.0) k v m e a)

  module _ (entity : Entity T) (codec : Codec T) where
    open entity use {entity_id, id-stamp}

    pub index-IsKeyed :
        (m : Assoc T) (l : List T)
        → IsKeyed entity_id m
        → IsKeyed entity_id (index entity codec m l)
    unfolding index
    index-IsKeyed m [] h = h
    index-IsKeyed m (x ∷ l) h =
        index-IsKeyed (insert (entity_id x) x m) l
          (insert-IsKeyed entity_id (entity_id x) x m refl h)

    abbrev pub WellFormed : Collection T → Type 0
    WellFormed c = IsKeyed entity_id c.items

    pub put-WellFormed :
        (item : T) (now later : ℕ) (o : Outcome) (c : Collection T)
        → WellFormed c
        → WellFormed (put entity codec item now later o c).1
    put-WellFormed item now later o c h = elim (Bool-cases (entity_id item == "")) [
      | inl e ↦ unfold put in rw e h
      | inr e ↦ rw (put-items entity codec item now later o c e) (
          insert-IsKeyed entity_id (entity_id item) (stamped entity codec item now later c) c.items
            (id-stamp item _ _) h)
    ]

    pub delete-WellFormed :
        (id : String) (o : Outcome) (c : Collection T)
        → WellFormed c
        → WellFormed (delete entity codec id o c).1
    unfolding delete
    delete-WellFormed id o c (h, a) = elim (Option-cases (lookup id c.items)) [
      | inl e ↦ rw (e, delete) (h, a)
      | inr (v, e) ↦
          rw (e, delete, flush-items entity codec o _)
            (remove-IsMap id c.items h, All-remove_entry (λ e. entity_id e.1 ≡ e.0) id c.items a)
    ]

    replace-WellFormed :
        (l : List T) (o : Outcome) (c : Collection T) → WellFormed (replace entity codec l o c).1
    unfolding replace
    replace-WellFormed l o c = rw (flush-items entity codec o _) (index-IsKeyed [] l (tt, tt))

    -- A call of one of the three operations that write.
    pub data Call : Type ℓ where
      puts : T → ℕ → ℕ → Outcome → Call
      deletes : String → Outcome → Call
      replaces : List T → Outcome → Call

    pub step : Collection T → Call → Collection T
    step c (puts item now later o) = (put entity codec item now later o c).1
    step c (deletes id o) = (delete entity codec id o c).1
    step c (replaces l o) = (replace entity codec l o c).1

    pub run : Collection T → List Call → Collection T
    run c [] = c
    run c (call ∷ calls) = run (step c call) calls

    run-WellFormed :
        (c : Collection T) (calls : List Call) → WellFormed c → WellFormed (run c calls)
    unfolding run step
    run-WellFormed c [] h = h
    run-WellFormed c (puts item now later o ∷ calls) h =
        run-WellFormed (step c (puts item now later o)) calls (put-WellFormed item now later o c h)
    run-WellFormed c (deletes id o ∷ calls) h =
        run-WellFormed (step c (deletes id o)) calls (delete-WellFormed id o c h)
    run-WellFormed c (replaces l o ∷ calls) h =
        run-WellFormed (step c (replaces l o)) calls (replace-WellFormed l o c)

    load_text-WellFormed :
        (b : Collection T) (text : String) {c : Collection T}
        → WellFormed b
        → load_text entity codec b text ≡ ok c
        → WellFormed c
    unfolding load_text
    load_text-WellFormed b text h e = elim (Bool-cases (text == "")) [
      | inl blank ↦ subst WellFormed (ok-injective (rw blank at e)) h
      | inr full ↦ elim (Option-cases (codec.decode text)) [
        | inl bad ↦ cc (rw (full, bad) at e)
        | inr (l, good) ↦
            subst WellFormed (ok-injective (rw (full, good) at e)) (index-IsKeyed [] l (tt, tt))
      ]
    ]

    new_collection-WellFormed :
        (r : Read) (o : Outcome) (path : String) {c : Collection T}
        → new_collection entity codec r o path ≡ ok c
        → WellFormed c
    unfolding new_collection load_text
    new_collection-WellFormed absent o path e =
        subst WellFormed (result-ok _ _ e) (rw (flush-items entity codec o _) (tt, tt))
    new_collection-WellFormed failed o path e = cc
    new_collection-WellFormed (content text) o path e = load_text-WellFormed _ text (tt, tt) e

    -- After `NewCollection` and any sequence of `Put`, `Delete` and `Replace`, whatever the clock,
    -- the file system and the file's content were, every record stands under its own identifier
    -- and no identifier stands twice.
    pub session-WellFormed :
        (r : Read) (o : Outcome) (path : String) (calls : List Call) {c : Collection T}
        → new_collection entity codec r o path ≡ ok c
        → WellFormed (run c calls)
    session-WellFormed r o path calls e =
        run-WellFormed _ calls (new_collection-WellFormed r o path e)
