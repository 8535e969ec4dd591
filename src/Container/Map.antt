-- ===== src/Container/Map.antt =====
-- loro-c-api/src/container/map.rs.
use loro_c.Base.{ℕ, Bool, true, false, Option, none, some, List, ascii, ◌++◌, Result}
use loro_c.World.{
  Loro, Ptr, null_ptr, Obj, map_handle, list_handle, text_handle, movable_list_handle, tree_handle,
  counter_handle, value, LoroValue, ValueOrContainer, Call, LoroError,
}
use loro_c.Error.{LoroStatus, loro_err_invalid_arg, loro_err_utf8, loro_err_panic}
use loro_c.Abi.{
  Body, Entry, ◌>>=◌, ◌>>◌, ffi_guard, call, deref_or, require_out, into_raw, free_box,
}
use loro_c.Value.Json.{
  mutate, string_or_return, value_or_return, write_serialized, write_value_json,
}
use loro_c.ValueTyped.Items.{as_value}
use loro_c.Subscribe.{Subscriber}
use loro_c.Container.Attach.{Attaching, attach_container, child_or_return, box_attached}
use loro_c.Container.Common.{
  Handle, Handled, changed_by, id_body, attached_body, doc_body, subscribe_body, box_or_error,
  write_entry_json, box_entry, box_entry_container, write_editor,
}

-- The methods of loro::LoroMap; one that changes the map gives it back. The keys are in the order of
-- the crate's iterator.
pub record Maps (loro : Loro) : Type 0 where
  pub methods : Handled loro loro.LoroMap
  pub voc_get_deep_value : ValueOrContainer loro → Call (LoroValue loro.ContainerId)
  pub map_insert :
      loro.LoroMap
      → List ℕ
      → LoroValue loro.ContainerId
      → loro.LoroMap × Call (Result (Unit {0}) LoroError)
  pub map_get : loro.LoroMap → List ℕ → Call (Option (ValueOrContainer loro))
  pub map_get_value : loro.LoroMap → Call (LoroValue loro.ContainerId)
  pub map_get_deep_value : loro.LoroMap → Call (LoroValue loro.ContainerId)
  pub map_insert_container : loro.LoroMap → List ℕ → Attaching loro loro.LoroMap
  pub map_delete : loro.LoroMap → List ℕ → loro.LoroMap × Call (Result (Unit {0}) LoroError)
  pub map_keys : loro.LoroMap → Call (List (List ℕ))
  pub map_entries_len : loro.LoroMap → Call ℕ
  pub map_is_empty : loro.LoroMap → Call Bool
  pub map_clear : loro.LoroMap → loro.LoroMap × Call (Result (Unit {0}) LoroError)
  pub map_get_last_editor : loro.LoroMap → List ℕ → Call (Option ℕ)
  pub map_ensure_mergeable_text :
      loro.LoroMap → List ℕ → loro.LoroMap × Call (Result loro.LoroText LoroError)
  pub map_ensure_mergeable_map :
      loro.LoroMap → List ℕ → loro.LoroMap × Call (Result loro.LoroMap LoroError)
  pub map_ensure_mergeable_list :
      loro.LoroMap → List ℕ → loro.LoroMap × Call (Result loro.LoroList LoroError)
  pub map_ensure_mergeable_movable_list :
      loro.LoroMap → List ℕ → loro.LoroMap × Call (Result loro.LoroMovableList LoroError)
  pub map_ensure_mergeable_tree :
      loro.LoroMap → List ℕ → loro.LoroMap × Call (Result loro.LoroTree LoroError)
  pub map_ensure_mergeable_counter :
      loro.LoroMap → List ℕ → loro.LoroMap × Call (Result loro.LoroCounter LoroError)

abbrev as_map : (loro : Loro) → Obj loro → Option loro.LoroMap
as_map loro (map_handle m) = some m
as_map loro _ = none

abbrev map_boxes : (loro : Loro) → Handle loro loro.LoroMap
map_boxes loro = record { boxed = map_handle; unboxed = as_map loro }

abbrev missing_key : List ℕ
missing_key = ascii "key not found in map"

abbrev entry_is_a_value : List ℕ
entry_is_a_value = ascii "map entry is a value, not a container"

abbrev map_keys_not_serialized : List ℕ → List ℕ
map_keys_not_serialized e = ascii "failed to serialize map keys to JSON: " ++ e

module _ {loro : Loro} where
  -- The body that the six functions for mergeable children share.
  unfoldable ensure_mergeable :
      {T : Type 0}
      → (loro.LoroMap → List ℕ → loro.LoroMap × Call (Result T LoroError))
      → (T → Obj loro)
      → Ptr
      → Ptr
      → ℕ
      → Body loro Ptr Ptr
  ensure_mergeable ensure wrap p key key_len = do
    m ← deref_or (as_map loro) p null_ptr
    k ← string_or_return key key_len null_ptr
    r ← mutate map_handle p (ensure m k)
    box_or_error wrap r

  unfoldable loro_map_free : Ptr → Entry loro (Unit {0})
  loro_map_free p = ffi_guard tt (free_box (as_map loro) p)

  module _ (crate : Maps loro) where
    unfoldable loro_map_id : Ptr → Ptr → Entry loro LoroStatus
    loro_map_id p out = ffi_guard loro_err_panic (id_body (map_boxes loro) crate.methods p out)

    unfoldable loro_map_insert : Ptr → Ptr → ℕ → Ptr → ℕ → Entry loro LoroStatus
    loro_map_insert p key key_len json json_len = ffi_guard loro_err_panic do
      m ← deref_or (as_map loro) p loro_err_invalid_arg
      k ← string_or_return key key_len loro_err_utf8
      v ← value_or_return json json_len loro_err_invalid_arg
      changed_by (map_boxes loro) p (crate.map_insert m k v)

    unfoldable loro_map_get : Ptr → Ptr → ℕ → Ptr → Entry loro LoroStatus
    loro_map_get p key key_len out = ffi_guard loro_err_panic do
      m ← deref_or (as_map loro) p loro_err_invalid_arg
      k ← string_or_return key key_len loro_err_utf8
      require_out out loro_err_invalid_arg
      found ← call (crate.map_get m k)
      write_entry_json crate.voc_get_deep_value missing_key found out

    unfoldable loro_map_insert_value : Ptr → Ptr → ℕ → Ptr → Entry loro LoroStatus
    loro_map_insert_value p key key_len v = ffi_guard loro_err_panic do
      m ← deref_or (as_map loro) p loro_err_invalid_arg
      k ← string_or_return key key_len loro_err_utf8
      x ← deref_or (as_value loro) v loro_err_invalid_arg
      changed_by (map_boxes loro) p (crate.map_insert m k x)

    unfoldable loro_map_get_value_or_container : Ptr → Ptr → ℕ → Entry loro Ptr
    loro_map_get_value_or_container p key key_len = ffi_guard null_ptr do
      m ← deref_or (as_map loro) p null_ptr
      k ← string_or_return key key_len null_ptr
      found ← call (crate.map_get m k)
      box_entry missing_key found

    unfoldable loro_map_get_value : Ptr → Entry loro Ptr
    loro_map_get_value p = ffi_guard null_ptr do
      m ← deref_or (as_map loro) p null_ptr
      v ← call (crate.map_get_value m)
      into_raw (value v)

    unfoldable loro_map_get_deep_value : Ptr → Entry loro Ptr
    loro_map_get_deep_value p = ffi_guard null_ptr do
      m ← deref_or (as_map loro) p null_ptr
      v ← call (crate.map_get_deep_value m)
      into_raw (value v)

    unfoldable loro_map_get_container : Ptr → Ptr → ℕ → Entry loro Ptr
    loro_map_get_container p key key_len = ffi_guard null_ptr do
      m ← deref_or (as_map loro) p null_ptr
      k ← string_or_return key key_len null_ptr
      found ← call (crate.map_get m k)
      box_entry_container missing_key entry_is_a_value found

    unfoldable loro_map_insert_container : Ptr → Ptr → ℕ → Ptr → Entry loro Ptr
    loro_map_insert_container p key key_len child = ffi_guard null_ptr do
      m ← deref_or (as_map loro) p null_ptr
      k ← string_or_return key key_len null_ptr
      c ← child_or_return child
      r ← mutate map_handle p (attach_container m (crate.map_insert_container m k) c)
      box_attached r

    unfoldable loro_map_delete : Ptr → Ptr → ℕ → Entry loro LoroStatus
    loro_map_delete p key key_len = ffi_guard loro_err_panic do
      m ← deref_or (as_map loro) p loro_err_invalid_arg
      k ← string_or_return key key_len loro_err_utf8
      changed_by (map_boxes loro) p (crate.map_delete m k)

    unfoldable loro_map_keys : Ptr → Ptr → Entry loro LoroStatus
    loro_map_keys p out = ffi_guard loro_err_panic do
      m ← deref_or (as_map loro) p loro_err_invalid_arg
      require_out out loro_err_invalid_arg
      ks ← call (crate.map_keys m)
      write_serialized (loro.json_key_bytes ks) map_keys_not_serialized out

    unfoldable loro_map_to_json : Ptr → Ptr → Entry loro LoroStatus
    loro_map_to_json p out = ffi_guard loro_err_panic do
      m ← deref_or (as_map loro) p loro_err_invalid_arg
      require_out out loro_err_invalid_arg
      v ← call (crate.map_get_deep_value m)
      write_value_json out v

    unfoldable loro_map_len : Ptr → Entry loro ℕ
    loro_map_len p = ffi_guard 0 do m ← deref_or (as_map loro) p 0; call (crate.map_entries_len m)

    unfoldable loro_map_is_empty : Ptr → Entry loro Bool
    loro_map_is_empty p =
        ffi_guard true do m ← deref_or (as_map loro) p true; call (crate.map_is_empty m)

    unfoldable loro_map_clear : Ptr → Entry loro LoroStatus
    loro_map_clear p = ffi_guard loro_err_panic do
      m ← deref_or (as_map loro) p loro_err_invalid_arg
      changed_by (map_boxes loro) p (crate.map_clear m)

    unfoldable loro_map_is_deleted : Ptr → Entry loro Bool
    loro_map_is_deleted p =
        ffi_guard false do m ← deref_or (as_map loro) p false; call (crate.methods.is_deleted m)

    unfoldable loro_map_is_attached : Ptr → Entry loro Bool
    loro_map_is_attached p =
        ffi_guard false do m ← deref_or (as_map loro) p false; call (crate.methods.is_attached m)

    unfoldable loro_map_get_attached : Ptr → Entry loro Ptr
    loro_map_get_attached p = ffi_guard null_ptr (attached_body (map_boxes loro) crate.methods p)

    unfoldable loro_map_doc : Ptr → Entry loro Ptr
    loro_map_doc p = ffi_guard null_ptr (doc_body (map_boxes loro) crate.methods p)

    unfoldable loro_map_subscribe : Ptr → Subscriber → Entry loro Ptr
    loro_map_subscribe p callback =
        ffi_guard null_ptr (subscribe_body (map_boxes loro) crate.methods p callback)

    unfoldable loro_map_get_last_editor : Ptr → Ptr → ℕ → Ptr → Entry loro Bool
    loro_map_get_last_editor p key key_len out = ffi_guard false do
      m ← deref_or (as_map loro) p false
      k ← string_or_return key key_len false
      require_out out false
      editor ← call (crate.map_get_last_editor m k)
      write_editor editor out

    unfoldable loro_map_ensure_mergeable_text : Ptr → Ptr → ℕ → Entry loro Ptr
    loro_map_ensure_mergeable_text p key key_len =
        ffi_guard null_ptr
          (ensure_mergeable crate.map_ensure_mergeable_text text_handle p key key_len)

    unfoldable loro_map_ensure_mergeable_map : Ptr → Ptr → ℕ → Entry loro Ptr
    loro_map_ensure_mergeable_map p key key_len =
        ffi_guard null_ptr
          (ensure_mergeable crate.map_ensure_mergeable_map map_handle p key key_len)

    unfoldable loro_map_ensure_mergeable_list : Ptr → Ptr → ℕ → Entry loro Ptr
    loro_map_ensure_mergeable_list p key key_len =
        ffi_guard null_ptr
          (ensure_mergeable crate.map_ensure_mergeable_list list_handle p key key_len)

    unfoldable loro_map_ensure_mergeable_movable_list : Ptr → Ptr → ℕ → Entry loro Ptr
    loro_map_ensure_mergeable_movable_list p key key_len =
        ffi_guard null_ptr (
          ensure_mergeable crate.map_ensure_mergeable_movable_list movable_list_handle p key
            key_len)

    unfoldable loro_map_ensure_mergeable_tree : Ptr → Ptr → ℕ → Entry loro Ptr
    loro_map_ensure_mergeable_tree p key key_len =
        ffi_guard null_ptr
          (ensure_mergeable crate.map_ensure_mergeable_tree tree_handle p key key_len)

    unfoldable loro_map_ensure_mergeable_counter : Ptr → Ptr → ℕ → Entry loro Ptr
    loro_map_ensure_mergeable_counter p key key_len =
        ffi_guard null_ptr
          (ensure_mergeable crate.map_ensure_mergeable_counter counter_handle p key key_len)
