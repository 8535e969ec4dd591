-- ===== src/Event/Json/Laws.antt =====
-- The JSON of a text diff says what the diff is.
use loro_c.Base.{ℕ, ◌≡◌, refl, if◌then◌else◌, Option, none, some, List, [], ◌∷◌, map, ascii, same}
use loro_c.Base.Int.{pos}
use loro_c.World.{
  Loro, LoroValue, JsonValue, JsonItems, JsonFields, text_json, number, array, object, nil_json,
  cons_json, end_json, field_json, Call, returns, text_diff, TextDelta, retain_text, insert_text,
  delete_text,
}
use loro_c.Event.Json.{
  Diffs, attributes_to_json, diff_to_json, text_delta_to_json, text_items, with_attributes,
}

-- The reader's side: an edit of a text, found by the names of the fields, in whatever order they are.
pub data TextEdit : Type 0 where
  retained : ℕ → Option JsonFields → TextEdit
  inserted : List ℕ → Option JsonFields → TextEdit
  removed : ℕ → TextEdit

abbrev pub field : List ℕ → JsonFields → Option JsonValue
field k end_json = none
field k (field_json j v fs) = if same k j then some v else field k fs

abbrev pub as_count : Option JsonValue → Option ℕ
as_count (some (number (pos n))) = some n
as_count _ = none

abbrev pub as_text : Option JsonValue → Option (List ℕ)
as_text (some (text_json s)) = some s
as_text _ = none

abbrev pub as_fields : Option JsonValue → Option JsonFields
as_fields (some (object fs)) = some fs
as_fields _ = none

-- The first of the three fields that is there decides.
abbrev pub decide : Option ℕ → Option (List ℕ) → Option ℕ → Option JsonFields → Option TextEdit
decide (some n) _ _ attributes = some (retained n attributes)
decide none (some s) _ attributes = some (inserted s attributes)
decide none none (some n) attributes = some (removed n)
decide none none none attributes = none

abbrev pub read_edit : JsonValue → Option TextEdit
read_edit (object fs) =
    decide (as_count (field (ascii "retain") fs)) (as_text (field (ascii "insert") fs))
      (as_count (field (ascii "delete") fs)) (as_fields (field (ascii "attributes") fs))
read_edit _ = none

abbrev pub also : Option TextEdit → Option (List TextEdit) → Option (List TextEdit)
also (some e) (some es) = some (e ∷ es)
also _ _ = none

abbrev pub read_items : JsonItems → Option (List TextEdit)
read_items nil_json = some []
read_items (cons_json j js) = also (read_edit j) (read_items js)

abbrev pub read_edits : Call JsonValue → Option (List TextEdit)
read_edits (returns (array js)) = read_items js
read_edits _ = none

-- The edit that a delta of the crate is, with its attributes as JSON.
abbrev pub attributes_of :
    (loro : Loro) → Option (List (List ℕ × LoroValue loro.ContainerId)) → Option JsonFields
attributes_of loro none = none
attributes_of loro (some attrs) = some (attributes_to_json loro attrs)

abbrev pub edit_of : {loro : Loro} → TextDelta loro → TextEdit
edit_of {loro} (retain_text n attributes) = retained n (attributes_of loro attributes)
edit_of {loro} (insert_text s attributes) = inserted s (attributes_of loro attributes)
edit_of {loro} (delete_text n) = removed n

read_edit-delta :
    {loro : Loro} (d : TextDelta loro) → read_edit (text_delta_to_json loro d) ≡ some (edit_of d)
unfolding text_delta_to_json with_attributes same ascii
read_edit-delta (retain_text n none) = refl
read_edit-delta (retain_text n (some attrs)) = refl
read_edit-delta (insert_text s none) = refl
read_edit-delta (insert_text s (some attrs)) = refl
read_edit-delta (delete_text n) = refl

read_items-text_items :
    {loro : Loro} (ds : List (TextDelta loro))
    → read_items (text_items loro ds) ≡ some (map edit_of ds)
unfolding text_items
read_items-text_items [] = refl
read_items-text_items (d ∷ ds) = rw (read_edit-delta d) (rw (read_items-text_items ds) refl)

-- The JSON of a text diff is read back, by the names of its fields, as the deltas of the diff, in
-- their order: how much is retained, which text is inserted, how much is deleted, and the attributes
-- (as the JSON of their values) exactly where the delta has them.
pub read_edits-diff_to_json :
    {loro : Loro} (crate : Diffs loro) (deltas : List (TextDelta loro))
    → read_edits (diff_to_json crate (text_diff deltas)) ≡ some (map edit_of deltas)
unfolding diff_to_json
read_edits-diff_to_json crate deltas = read_items-text_items deltas
