-- ===== src/Store/Collection.antt =====
-- internal/store/store.go, `Collection`. An operation takes the collection and what the clock and
-- the file system answer, and returns the collection after it. The lock covers the change of the map and the copy
-- that `flush` takes of it, but not the work on the files: an operation stands here for a call that no other
-- call overlaps. Flushes that overlap are calls of package `os` in some order (`run_calls`).
pub mod Persistence
pub mod Invariant
pub mod Lookup
use ycfrp.Base.{
  ℕ, String, Bool, true, false, Option, none, some, List, [], ◌∷◌, ◌≡◌, ◌==◌, if◌then◌else◌, Assoc,
  lookup, insert, remove, values, sort_by,
}

-- `Entity`, with `Mutable` where the record has it: `stamp` is `SetEntityMeta`, or leaves the record.
-- An instant is a number, 0 for Go's zero time.
pub record Entity {ℓ} (T : Type ℓ) : Type ℓ where
  pub entity_id : T → String
  pub created_at : T → ℕ
  pub stamp : String → ℕ → ℕ → T → T
  -- A record stamped with its own identifier keeps it.
  pub id-stamp :
      (t : T) (created updated : ℕ)
      → entity_id (stamp (entity_id t) created updated t) ≡ entity_id t

-- `encoding/json` at lists of records: what was encoded is text, and decodes to the same records.
pub record Codec {ℓ} (T : Type ℓ) : Type ℓ where
  pub encode : List T → Option String
  pub decode : String → Option (List T)
  pub decode-encode : (l : List T) {text : String} → encode l ≡ some text → decode text ≡ some l
  pub encode_some : (l : List T) {text : String} → encode l ≡ some text → (text == "") ≡ false

pub record Collection {ℓ} (T : Type ℓ) : Type ℓ where
  pub items : Assoc T
  pub path : String
  -- the file at `path` and the one at `path + ".tmp"`
  pub file : Option String
  pub temp : Option String

-- How far the calls of package `os` get in `flush`. A failed write may leave anything behind.
pub data Outcome : Type 0 where
  written no_dir no_rename : Outcome
  no_write : Option String → Outcome

pub data Error : Type 0 where
  empty_id not_found unread not_decoded marshal_failed mkdir_failed write_failed rename_failed :
      Error

-- what `os.ReadFile` answers
pub data Read : Type 0 where
  absent failed : Read
  content : String → Read

pub data Result {ℓ} (A : Type ℓ) : Type ℓ where
  ok : A → Result A
  err : Error → Result A

abbrev pub result {ℓ} : {A : Type ℓ} → A → Option Error → Result A
result a none = ok a
result a (some e) = err e

-- The calls on the temporary file: `os.WriteFile` empties it and writes, `os.Rename` puts it in place.
pub data FileCall : Type 0 where
  empties renames : FileCall
  writes : String → FileCall

-- the calls of one flush
abbrev pub calls_of : String → List FileCall
calls_of text = empties ∷ writes text ∷ renames ∷ []

module _ {ℓ} {T : Type ℓ} where
  -- A call that succeeds. Two flushes have the same temporary file.
  unfoldable pub run_calls : List FileCall → Collection T → Collection T
  run_calls [] c = c
  run_calls (empties ∷ l) c = run_calls l (record c { temp = some "" })
  run_calls (writes text ∷ l) c = run_calls l (record c { temp = some text })
  run_calls (renames ∷ l) c = run_calls l (record c { file = c.temp; temp = none })

  -- how a flush that no other overlaps ends
  unfoldable pub write_out : Outcome → String → Collection T → Option Error × Collection T
  write_out written text c = (none, record c { file = some text; temp = none })
  write_out no_dir text c = (some mkdir_failed, c)
  write_out (no_write left) text c = (some write_failed, record c { temp = left })
  write_out no_rename text c = (some rename_failed, record c { temp = some text })

  unfoldable pub save_text : Outcome → Option String → Collection T → Option Error × Collection T
  unfolding write_out
  save_text o none c = (some marshal_failed, c)
  save_text o (some text) c = if c.path == "" then (none, c) else write_out o text c

  module _ (entity : Entity T) (codec : Codec T) where
    open entity use {entity_id, created_at, stamp}
    open codec use {encode, decode}

    -- `List`
    unfoldable pub list : Collection T → List T
    list c = sort_by entity_id (values c.items)

    -- `Get`
    unfoldable pub get : Collection T → String → Result T
    get c id = elim (lookup id c.items) [ none ↦ err not_found | some v ↦ ok v ]

    -- `flush`, where no other call overlaps it
    unfoldable pub flush : Outcome → Collection T → Option Error × Collection T
    unfolding save_text list
    flush o c = save_text o (encode (list c)) c

    -- the instant that `Put` takes for the creation
    unfoldable pub creation : Option T → ℕ → ℕ
    creation none now = now
    creation (some old) now = created_at old

    -- `Put`; `now` and `later` are its two readings of the clock
    unfoldable pub put : T → ℕ → ℕ → Outcome → Collection T → Result T × Collection T
    unfolding flush creation
    put item now later o c =
        let id = entity_id item in
        let item' = stamp id (creation (lookup id c.items) now) later item in
        let (e, c') = flush o (record c { items = insert id item' c.items }) in
        if id == "" then (err empty_id, c) else (result item' e, c')

    -- `Delete`
    unfoldable pub delete : String → Outcome → Collection T → Option Error × Collection T
    unfolding flush
    delete id o c = elim (lookup id c.items) [
      | none ↦ (some not_found, c)
      | some _ ↦ flush o (record c { items = remove id c.items })
    ]

    -- `for _, item := range list { m[item.EntityID()] = item }`
    unfoldable pub index : Assoc T → List T → Assoc T
    index m [] = m
    index m (item ∷ rest) = index (insert (entity_id item) item m) rest

    -- `Replace`
    unfoldable pub replace : List T → Outcome → Collection T → Option Error × Collection T
    unfolding flush index
    replace items o c = flush o (record c { items = index [] items })

    -- what `NewCollection` makes of the text of the file
    unfoldable pub load_text : Collection T → String → Result (Collection T)
    unfolding index
    load_text c text = if text == "" then ok c else elim (decode text) [
      | none ↦ err not_decoded
      | some l ↦ ok (record c { items = index [] l })
    ]

    -- `NewCollection` at `path`
    unfoldable pub new_collection : Read → Outcome → String → Result (Collection T)
    unfolding load_text flush
    new_collection r o path =
        let empty : Collection T = record { items = []; path = path; file = none; temp = none } in
        elim r [
          | absent ↦ (let (e, c) = flush o empty in result c e)
          | failed ↦ err unread
          | content text ↦ load_text (record empty { file = some text }) text
        ]
