-- ===== src/Examples/Records.antt =====
-- The stores at small inputs.
use mathlib.Core.List.{Permᴰ}
use mathlib.Core.Bool.{true≢false}
use ycfrp.Base.{
  ℕ, String, none, some, [], ◌∷◌, ◌≡◌, ◌==◌, sym, ap, refl, IsSorted, arith, lookup, drop, sort_by,
  remove,
}
use ycfrp.Store.Collection.{
  Collection, written, no_dir, no_rename, content, ok, err, not_found, empty_id, list, get, flush,
  put, delete, new_collection, load_text, index, save_text, write_out,
}
use ycfrp.Store.Collection.Lookup.{get-put, get-delete}
use ycfrp.Store.Collection.Invariant.{
  IsKeyed, WellFormed, puts, deletes, replaces, run, session-WellFormed,
}
use ycfrp.Store.Collection.Persistence.{list-IsSorted, list_unordered, reload-flush}
use ycfrp.Store.Series.{Series, wrote, broke, append_all}
use ycfrp.Store.Series.Window.{newest, append_all-newest}
use ycfrp.Examples.Data.{named_text, text_codec}

abbrev one : Collection String
one = record { items = ("b", "b") ∷ []; path = "data.json"; file = none; temp = none }

abbrev two : Collection String
two = record one { items = ("b", "b") ∷ ("a", "a") ∷ [] }

abbrev two_swapped : Collection String
two_swapped = record one { items = ("a", "a") ∷ ("b", "b") ∷ [] }

two_listed : list named_text text_codec two ≡ "a" ∷ "b" ∷ []
unfolding list sort_by
two_listed = refl

put_without_id : put named_text text_codec "" 1 2 written two ≡ (err empty_id, two)
unfolding put
put_without_id = refl

delete_last :
    delete named_text text_codec "b" written one
    ≡ (none, record one { items = []; file = some "-" })
unfolding delete flush save_text write_out list lookup sort_by remove
delete_last = refl

get-put_example :
    get named_text text_codec (put named_text text_codec "c" 1 2 no_rename two).1 "c" ≡ ok "c"
get-put_example = get-put named_text text_codec "c" 1 2 no_rename two "c" refl

get-delete_example :
    (get named_text text_codec two "b" ≡ err not_found
      → delete named_text text_codec "b" written two ≡ (some not_found, two))
    × (get named_text text_codec (delete named_text text_codec "b" written two).1 "a"
        ≡ get named_text text_codec two "a")
get-delete_example = get-delete named_text text_codec "b" "a" written two

session-WellFormed_example : WellFormed named_text text_codec (
    run named_text text_codec
      (record one { items = []; file = some "-" })
      (puts "a" 1 2 written ∷ replaces ("b" ∷ "a" ∷ "b" ∷ []) no_dir ∷ deletes "a" written ∷ []))
unfolding new_collection load_text index
session-WellFormed_example =
    session-WellFormed named_text text_codec (content "-") written "data.json"
      (puts "a" 1 2 written ∷ replaces ("b" ∷ "a" ∷ "b" ∷ []) no_dir ∷ deletes "a" written ∷ [])
      refl

list-IsSorted_example :
    IsSorted (λ s. s) (list named_text text_codec two)
    × Permᴰ (list named_text text_codec two) ("b" ∷ "a" ∷ [])
list-IsSorted_example = list-IsSorted named_text text_codec two

two-IsKeyed : IsKeyed (λ s. s) two.items
two-IsKeyed = ((((λ e. true≢false (sym (ap (λ s. s == "a") e))), tt), (tt, tt)), (refl, (refl, tt)))

list_unordered_example : list named_text text_codec two ≡ list named_text text_codec two_swapped
list_unordered_example =
    list_unordered named_text text_codec two two_swapped two-IsKeyed (Permᴰ.swap refl refl)

one-IsKeyed : IsKeyed (λ s. s) one.items
one-IsKeyed = ((tt, tt), (refl, tt))

reload-flush_example :
    (text : String) × (d : Collection String) × ((flush named_text text_codec written one).1.file
      ≡ some text)
    × (new_collection named_text text_codec (content text) written "data.json" ≡ ok d)
    × ((id : String) → get named_text text_codec d id ≡ get named_text text_codec one id)
unfolding flush list save_text write_out sort_by
reload-flush_example = reload-flush named_text text_codec written written one one-IsKeyed refl refl

-- three of at most three samples
abbrev full : Series ℕ
full = record { path = "series.json"; points = 1 ∷ 2 ∷ 3 ∷ []; max = 3; file = none }

append_all-newest_example :
    (append_all (λ l. some "[]") ((wrote, 4) ∷ (broke none, 5) ∷ []) full).points ≡ 3 ∷ 4 ∷ 5 ∷ []
unfolding newest drop
append_all-newest_example =
    append_all-newest (λ l. some "[]") ((wrote, 4) ∷ (broke none, 5) ∷ []) full (omega arith)
