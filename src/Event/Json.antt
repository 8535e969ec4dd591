-- ===== src/Event/Json.antt =====
-- loro-c-api/src/event.rs: diffs as JSON. A deep value is asked of the crate, which may panic.
pub mod Laws
use loro_c.Base.{ℕ, ◌/◌, ◌%◌, ◌^◌, ◌==◌, if◌then◌else◌, Option, none, some, List, [], ◌∷◌, ascii}
use loro_c.Base.Int.{pos}
use loro_c.World.{
  Loro, LoroValue, JsonValue, JsonItems, JsonFields, null_json, bool_json, text_json, double_json,
  number, array, object, nil_json, cons_json, end_json, field_json, Call, returns, panics, Index,
  key, seq, node_index, TreeId, TreeParentId, node, root, deleted, unexist, Diff, text_diff,
  list_diff, map_diff, tree_diff, counter_diff, unknown_diff, TextDelta, retain_text, insert_text,
  delete_text, ListDiffItem, insert_items, delete_items, retain_items, ValueOrContainer,
  TreeExternalDiff, create, move, delete, TreeDiffItem,
}
use loro_c.Awareness.{json_or_null}

-- What the marshalling asks of the crate `loro`, and the release of a subscription.
pub record Diffs (loro : Loro) : Type 0 where
  pub get_deep_value : ValueOrContainer loro → Call (LoroValue loro.ContainerId)
  pub index_text : loro.FractionalIndex → List ℕ
  pub detach : loro.Subscription → Call (Unit {0})

unfoldable pub and_then_call : {A B : Type 0} → Call A → (A → Call B) → Call B
and_then_call (returns a) k = k a
and_then_call panics k = panics

-- An object of one field, as `json!({ .. })` makes it.
abbrev pub single : List ℕ → JsonValue → JsonValue
single k v = object (field_json k v end_json)

unfoldable pub tree_id_to_json : TreeId → JsonValue
tree_id_to_json id = object (
    field_json (ascii "peer") (number (pos id.peer))
      (field_json (ascii "counter") (number id.counter) end_json))

unfoldable pub index_to_json : Index → JsonValue
index_to_json (key k) = single (ascii "key") (text_json k)
index_to_json (seq i) = single (ascii "seq") (number (pos i))
index_to_json (node_index id) = single (ascii "node") (tree_id_to_json id)

unfoldable pub tree_parent_to_json : TreeParentId → JsonValue
tree_parent_to_json (node id) = single (ascii "node") (tree_id_to_json id)
tree_parent_to_json root = text_json (ascii "root")
tree_parent_to_json deleted = text_json (ascii "deleted")
tree_parent_to_json unexist = text_json (ascii "unexist")

-- `json!` of an f64 is null where it is infinite or no number.
unfoldable pub double_to_json : ℕ → JsonValue
double_to_json bits = if (bits / 2 ^ 52) % 2048 == 2047 then null_json else double_json bits

unfoldable pub path_items : (loro : Loro) → List (loro.ContainerId × Index) → JsonItems
path_items loro [] = nil_json
path_items loro ((cid, index) ∷ path) =
    cons_json
      (object (
        field_json (ascii "cid") (text_json (loro.container_id_text cid).items)
          (field_json (ascii "index") (index_to_json index) end_json)))
      (path_items loro path)

unfoldable pub path_to_json : (loro : Loro) → List (loro.ContainerId × Index) → JsonValue
path_to_json loro path = array (path_items loro path)

-- An attribute map in the order of its iterator.
unfoldable pub attributes_to_json :
    (loro : Loro) → List (List ℕ × LoroValue loro.ContainerId) → JsonFields
attributes_to_json loro [] = end_json
attributes_to_json loro ((k, v) ∷ attrs) =
    field_json k (json_or_null (loro.value_to_json v)) (attributes_to_json loro attrs)

-- `if let Some(attrs) = attributes { o.insert("attributes", ..) }`.
unfoldable pub with_attributes :
    (loro : Loro) → Option (List (List ℕ × LoroValue loro.ContainerId)) → JsonFields
with_attributes loro none = end_json
with_attributes loro (some attrs) =
    field_json (ascii "attributes") (object (attributes_to_json loro attrs)) end_json

unfoldable pub text_delta_to_json : (loro : Loro) → TextDelta loro → JsonValue
text_delta_to_json loro (retain_text n attributes) =
    object (field_json (ascii "retain") (number (pos n)) (with_attributes loro attributes))
text_delta_to_json loro (insert_text s attributes) =
    object (field_json (ascii "insert") (text_json s) (with_attributes loro attributes))
text_delta_to_json loro (delete_text n) = single (ascii "delete") (number (pos n))

unfoldable pub text_items : (loro : Loro) → List (TextDelta loro) → JsonItems
text_items loro [] = nil_json
text_items loro (d ∷ ds) = cons_json (text_delta_to_json loro d) (text_items loro ds)

module _ {loro : Loro} (crate : Diffs loro) where
  unfoldable pub value_or_container_to_json : ValueOrContainer loro → Call JsonValue
  value_or_container_to_json v =
      and_then_call (crate.get_deep_value v) (λ x. returns (json_or_null (loro.value_to_json x)))

  unfoldable pub inserted_items : List (ValueOrContainer loro) → Call JsonItems
  inserted_items [] = returns nil_json
  inserted_items (v ∷ vs) =
      and_then_call (value_or_container_to_json v)
        (λ j. and_then_call (inserted_items vs) (λ js. returns (cons_json j js)))

  unfoldable pub list_item_to_json : ListDiffItem loro → Call JsonValue
  list_item_to_json (insert_items vs is_move) = and_then_call (inserted_items vs) (λ js. returns (
      object (
        field_json (ascii "insert") (array js)
          (field_json (ascii "is_move") (bool_json is_move) end_json))))
  list_item_to_json (delete_items n) = returns (single (ascii "delete") (number (pos n)))
  list_item_to_json (retain_items n) = returns (single (ascii "retain") (number (pos n)))

  unfoldable pub list_items : List (ListDiffItem loro) → Call JsonItems
  list_items [] = returns nil_json
  list_items (i ∷ is) =
      and_then_call (list_item_to_json i)
        (λ j. and_then_call (list_items is) (λ js. returns (cons_json j js)))

  unfoldable pub updated_to_json : Option (ValueOrContainer loro) → Call JsonValue
  updated_to_json none = returns null_json
  updated_to_json (some v) = value_or_container_to_json v

  unfoldable pub map_fields : List (List ℕ × Option (ValueOrContainer loro)) → Call JsonFields
  map_fields [] = returns end_json
  map_fields ((k, v) ∷ updated) =
      and_then_call (updated_to_json v)
        (λ j. and_then_call (map_fields updated) (λ fs. returns (field_json k j fs)))

  unfoldable pub fractional_index_to_json : loro.FractionalIndex → JsonValue
  fractional_index_to_json position = text_json (crate.index_text position)

  unfoldable pub action_fields : TreeExternalDiff loro → JsonFields
  action_fields (create parent index position) =
      field_json (ascii "action") (text_json (ascii "create")) (
        field_json (ascii "parent") (tree_parent_to_json parent) (
          field_json (ascii "index") (number (pos index))
            (field_json (ascii "fractional_index") (fractional_index_to_json position) end_json)))
  action_fields (move parent index position old_parent old_index) =
      field_json (ascii "action") (text_json (ascii "move")) (
        field_json (ascii "parent") (tree_parent_to_json parent) (
          field_json (ascii "index") (number (pos index)) (
            field_json (ascii "fractional_index") (fractional_index_to_json position) (
              field_json (ascii "old_parent") (tree_parent_to_json old_parent)
                (field_json (ascii "old_index") (number (pos old_index)) end_json)))))
  action_fields (delete old_parent old_index) =
      field_json (ascii "action") (text_json (ascii "delete")) (
        field_json (ascii "old_parent") (tree_parent_to_json old_parent)
          (field_json (ascii "old_index") (number (pos old_index)) end_json))

  unfoldable pub tree_diff_item_to_json : TreeDiffItem loro → JsonValue
  tree_diff_item_to_json item =
      object (field_json (ascii "target") (tree_id_to_json item.target) (action_fields item.action))

  unfoldable pub tree_items : List (TreeDiffItem loro) → JsonItems
  tree_items [] = nil_json
  tree_items (i ∷ is) = cons_json (tree_diff_item_to_json i) (tree_items is)

  unfoldable pub diff_to_json : Diff loro → Call JsonValue
  diff_to_json (text_diff deltas) = returns (array (text_items loro deltas))
  diff_to_json (list_diff items) = and_then_call (list_items items) (λ js. returns (array js))
  diff_to_json (map_diff updated) = and_then_call (map_fields updated) (λ fs. returns (object fs))
  diff_to_json (tree_diff items) = returns (array (tree_items items))
  diff_to_json (counter_diff c) = returns (double_to_json c)
  diff_to_json unknown_diff = returns null_json
