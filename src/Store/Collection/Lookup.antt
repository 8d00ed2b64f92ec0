-- ===== src/Store/Collection/Lookup.antt =====
-- What `Get` answers after each write, whatever the file system does.
use ycfrp.Base.{
  ℕ, String, false, Option, none, some, ◌≡◌, refl, ◌==◌, if◌then◌else◌, arith, eq_iff, lookup,
  insert, lookup-insert, lookup-remove, inl, inr, Bool-cases, Option-cases,
}
use ycfrp.Store.Collection.{
  Entity, Codec, Collection, Outcome, not_found, ok, err, written, no_dir, no_write, no_rename,
  save_text, get, flush, creation, put, delete,
}

module _ {ℓ} {T : Type ℓ} where
  -- Only the two files are written.
  save_text-items :
      (o : Outcome) (t : Option String) (c : Collection T) → (save_text o t c).1.items ≡ c.items
  unfolding save_text
  save_text-items o none c = refl
  save_text-items written (some t) c = ground arith
  save_text-items no_dir (some t) c = ground arith
  save_text-items (no_write _) (some t) c = ground arith
  save_text-items no_rename (some t) c = ground arith

  module _ (entity : Entity T) (codec : Codec T) where
    open entity use {entity_id, created_at, stamp}

    pub flush-items : (o : Outcome) (c : Collection T) → (flush entity codec o c).1.items ≡ c.items
    unfolding flush
    flush-items o c = save_text-items o _ c

    -- The record that `Put` stores: stamped with its identifier, the instant of the first record
    -- under it, and the present one.
    abbrev pub stamped : T → ℕ → ℕ → Collection T → T
    stamped item now later c =
        stamp (entity_id item) (creation entity codec (lookup (entity_id item) c.items) now) later
          item

    pub put-items :
        (item : T) (now later : ℕ) (o : Outcome) (c : Collection T)
        → (entity_id item == "") ≡ false
        → (put entity codec item now later o c).1.items
          ≡ insert (entity_id item) (stamped item now later c) c.items
    unfolding put
    put-items item now later o c ne = rw ne (flush-items o _)

    -- After a `Put` under a non-empty identifier, whether or not the file could be written, `Get`
    -- answers the stamped record at that identifier and what it answered before at any other.
    pub get-put :
        (item : T) (now later : ℕ) (o : Outcome) (c : Collection T) (id : String)
        → (entity_id item == "") ≡ false
        → get entity codec (put entity codec item now later o c).1 id
          ≡ (if entity_id item == id then ok (stamped item now later c) else get entity codec c id)
    unfolding get
    get-put item now later o c id ne =
        rw (put-items item now later o c ne, lookup-insert, get)
          (elim (Bool-cases (entity_id item == id)) [ inl e ↦ rw e refl | inr e ↦ rw e refl ])

    -- `Delete` of an identifier that is not there fails and changes nothing; of one that is there,
    -- it leaves `Get` with "not found" at that identifier and as it was at any other, whether or
    -- not the file could be written.
    pub get-delete :
        (gone id : String) (o : Outcome) (c : Collection T)
        → (get entity codec c gone ≡ err not_found
            → delete entity codec gone o c ≡ (some not_found, c))
          × (get entity codec (delete entity codec gone o c).1 id
              ≡ (if gone == id then err not_found else get entity codec c id))
    unfolding get delete
    get-delete gone id o c = elim (Option-cases (lookup gone c.items)) [
      | inl e ↦ ((λ _. rw (e, delete)), ground (arith, eq_iff gone id))
      | inr (v, e) ↦ (
        ground arith,
        rw (e, delete, flush-items o _, lookup-remove, get)
            (elim (Bool-cases (gone == id)) [ inl h ↦ rw h refl | inr h ↦ rw h refl ]),
      )
    ]
