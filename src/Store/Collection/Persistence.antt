-- ===== src/Store/Collection/Persistence.antt =====
-- What stands in the file of a collection, and what `NewCollection` reads back from it.
use mathlib.Core.List.{Permᴰ}
use mathlib.Core.List.Permᴰ
use ycfrp.Base.{
  String, false, Option, none, some, List, [], ◌∷◌, ◌≡◌, ◌≢◌, refl, sym, ◌∙◌, ◌==◌, if◌then◌else◌,
  arith, eq_iff, Assoc, lookup, insert, values, keys, lookup-insert, All, Distinct, IsSorted,
  sort_by, sort_by-IsSorted, sort_by-perm, sort_by-perm_eq, Distinct-perm, inl, inr, Bool-cases,
}
use ycfrp.Store.Collection.{
  Entity, Codec, Collection, Outcome, written, no_dir, no_write, no_rename, content, ok, save_text,
  load_text, list, get, flush, index, new_collection,
}
use ycfrp.Store.Collection.Invariant.{IsKeyed}

module _ {ℓ} {T : Type ℓ} where
  save_text-ok :
      (o : Outcome) (t : Option String) (c : Collection T)
      → (c.path == "") ≡ false
      → (save_text o t c).0 ≡ none
      → (text : String) × (t ≡ some text) × ((save_text o t c).1.file ≡ some text)
  unfolding save_text
  save_text-ok o none c p h = cc
  save_text-ok written (some t) c p h = (t, refl, rw p)
  save_text-ok no_dir (some t) c p h = cc (rw p at h)
  save_text-ok (no_write _) (some t) c p h = cc (rw p at h)
  save_text-ok no_rename (some t) c p h = cc (rw p at h)

  -- the last record under an identifier, where each has one
  find : (T → String) → String → List T → Option T
  find id k [] = none
  find id k (x ∷ xs) = if id x == k then some x else find id k xs

  abbrev or_else : Option T → Option T → Option T
  or_else (some x) o = some x
  or_else none o = o

  or_else-none : (o : Option T) → or_else o none ≡ o
  or_else-none none = refl
  or_else-none (some x) = refl

  find_absent :
      (id : T → String) (x : T) (xs : List T) → All (λ y. id x ≢ id y) xs → find id (id x) xs ≡ none
  unfolding find
  find_absent id x [] h = refl
  find_absent id x (y ∷ ys) (n, h) = ground (arith, eq_iff (id y) (id x), find_absent id x ys h)

  find-perm :
      (id : T → String) (k : String) {xs ys : List T}
      → Permᴰ xs ys
      → Distinct id xs
      → find id k xs ≡ find id k ys
  unfolding find
  find-perm id k Permᴰ.nil d = refl
  find-perm id k (Permᴰ.cons {a} {b} e p) (h, d) = rw (e, find-perm id k p d)
  find-perm id k (Permᴰ.swap {a} {b} {a'} {b'} {l} e f) ((n, h), d) =
      rw (← e, ← f) (ground (arith, eq_iff (id a) k, eq_iff (id b) k))
  find-perm id k (Permᴰ.trans p q) d = find-perm id k p d ∙ find-perm id k q (Distinct-perm id p d)

  lookup-find :
      (id : T → String) (k : String) (m : Assoc T)
      → All (λ e. id e.1 ≡ e.0) m
      → lookup k m ≡ find id k (values m)
  unfolding lookup find
  lookup-find id k [] h = refl
  lookup-find id k ((j, v) ∷ m) (e, h) = rw (e, lookup-find id k m h)

  All-values :
      (id : T → String) (k : String) (m : Assoc T)
      → All (λ e. id e.1 ≡ e.0) m
      → All (λ j. k ≢ j) (keys m)
      → All (λ y. k ≢ id y) (values m)
  All-values id k [] h n = tt
  All-values id k ((j, v) ∷ m) (e, h) (n, ns) = (rw e n, All-values id k m h ns)

  values-Distinct : (id : T → String) (m : Assoc T) → IsKeyed id m → Distinct id (values m)
  values-Distinct id [] h = tt
  values-Distinct id ((j, v) ∷ m) ((n, h), (e, a)) =
      (rw e (All-values id j m a n), values-Distinct id m (h, a))

  module _ (entity : Entity T) (codec : Codec T) where
    open entity use {entity_id}

    lookup-index :
        (k : String) (m : Assoc T) (l : List T)
        → Distinct entity_id l
        → lookup k (index entity codec m l) ≡ or_else (find entity_id k l) (lookup k m)
    unfolding index find
    lookup-index k m [] d = refl
    lookup-index k m (x ∷ l) (h, d) =
        lookup-index k (insert (entity_id x) x m) l d
        ∙ rw lookup-insert (elim (Bool-cases (entity_id x == k)) [
          | inl e ↦ rw (e, ← (eq_iff (entity_id x) k).0 e, find_absent entity_id x l h)
          | inr e ↦ rw e
        ])

    -- `List` answers every record once, sorted by identifier.
    pub list-IsSorted :
        (c : Collection T)
        → IsSorted entity_id (list entity codec c) × Permᴰ (list entity codec c) (values c.items)
    unfolding list
    list-IsSorted c = (sort_by-IsSorted entity_id _, sort_by-perm entity_id _)

    -- The order in which Go ranges over the map does not show in `List`.
    pub list_unordered :
        (c d : Collection T)
        → IsKeyed entity_id c.items
        → Permᴰ (values c.items) (values d.items)
        → list entity codec c ≡ list entity codec d
    unfolding list
    list_unordered c d h p = sort_by-perm_eq entity_id p (values-Distinct entity_id c.items h)

    lookup-index_new :
        (k : String) (l : List T)
        → Distinct entity_id l
        → lookup k (index entity codec [] l) ≡ find entity_id k l
    unfolding lookup
    lookup-index_new k l d = lookup-index k [] l d ∙ or_else-none (find entity_id k l)

    lookup-index-list :
        (c : Collection T) (k : String)
        → IsKeyed entity_id c.items
        → lookup k (index entity codec [] (list entity codec c)) ≡ lookup k c.items
    unfolding list
    lookup-index-list c k h =
        let dist = values-Distinct entity_id c.items h in
        let sorted = sort_by-perm entity_id (values c.items) in
        let dist' = Distinct-perm entity_id (Permᴰ.symm sorted) dist in
        lookup-index_new k (sort_by entity_id (values c.items)) dist'
        ∙ find-perm entity_id k sorted dist'
        ∙ sym (lookup-find entity_id k c.items h.1)

    -- Once `flush` has succeeded for a collection with a path, `NewCollection` reads the file back
    -- to a collection in which `Get` answers the same at every identifier.
    pub reload-flush :
        (o o' : Outcome) (c : Collection T)
        → IsKeyed entity_id c.items
        → (c.path == "") ≡ false
        → (flush entity codec o c).0 ≡ none
        → (text : String) × (d : Collection T) × ((flush entity codec o c).1.file ≡ some text)
          × (new_collection entity codec (content text) o' c.path ≡ ok d)
          × ((id : String) → get entity codec d id ≡ get entity codec c id)
    unfolding flush new_collection load_text get
    reload-flush o o' c h p e =
        let (text, encoded, saved) = save_text-ok o (codec.encode (list entity codec c)) c p e in
        (
          text,
          record {
            items = index entity codec [] (list entity codec c);
            path = c.path;
            file = some text;
            temp = none;
          },
          saved,
          rw (codec.encode_some _ encoded, codec.decode-encode _ encoded),
          λ id. rw (lookup-index-list c id h, get),
        )
