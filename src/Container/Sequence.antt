-- ===== src/Container/Sequence.antt =====
-- loro-c-api/src/container/list.rs.
pub mod Laws
use loro_c.Base.{
  ℕ, ◌==◌, if◌then◌else◌, Bool, true, false, Option, none, some, List, ascii, Result, ok, err,
}
use loro_c.World.{
  Loro, Ptr, null_ptr, Obj, list_handle, value, LoroValue, ValueOrContainer, Call, LoroError,
  bool_cell,
}
use loro_c.Error.{LoroStatus, loro_ok, loro_err_invalid_arg, loro_err_panic}
use loro_c.Abi.{
  Body, Entry, ◌>>=◌, ◌>>◌, ffi_guard, pure, call, deref_or, require_out, write_out, into_raw,
  free_box, loro_error,
}
use loro_c.Value.Json.{mutate, value_or_return, write_value_json}
use loro_c.ValueTyped.Items.{as_value}
use loro_c.Subscribe.{Subscriber}
use loro_c.Container.Attach.{Attaching, attach_container, child_or_return, box_attached}
use loro_c.Container.Common.{
  Handle, Handled, changed_by, id_body, attached_body, doc_body, subscribe_body, write_entry_json,
  box_entry, box_entry_container, write_present,
}

-- The methods of loro::LoroList; one that changes the list gives it back.
pub record Sequences (loro : Loro) : Type 0 where
  pub methods : Handled loro loro.LoroList
  pub voc_get_deep_value : ValueOrContainer loro → Call (LoroValue loro.ContainerId)
  pub list_insert :
      loro.LoroList
      → ℕ
      → LoroValue loro.ContainerId
      → loro.LoroList × Call (Result (Unit {0}) LoroError)
  pub list_push :
      loro.LoroList
      → LoroValue loro.ContainerId
      → loro.LoroList × Call (Result (Unit {0}) LoroError)
  pub list_get : loro.LoroList → ℕ → Call (Option (ValueOrContainer loro))
  pub list_insert_container : loro.LoroList → ℕ → Attaching loro loro.LoroList
  pub list_push_container : loro.LoroList → Attaching loro loro.LoroList
  pub list_delete : loro.LoroList → ℕ → ℕ → loro.LoroList × Call (Result (Unit {0}) LoroError)
  pub list_pop :
      loro.LoroList → loro.LoroList × Call (Result (Option (LoroValue loro.ContainerId)) LoroError)
  pub list_get_value : loro.LoroList → Call (LoroValue loro.ContainerId)
  pub list_get_deep_value : loro.LoroList → Call (LoroValue loro.ContainerId)
  pub list_len : loro.LoroList → Call ℕ
  pub list_is_empty : loro.LoroList → Call Bool
  pub list_clear : loro.LoroList → loro.LoroList × Call (Result (Unit {0}) LoroError)

abbrev pub as_list : (loro : Loro) → Obj loro → Option loro.LoroList
as_list loro (list_handle l) = some l
as_list loro _ = none

abbrev list_boxes : (loro : Loro) → Handle loro loro.LoroList
list_boxes loro = record { boxed = list_handle; unboxed = as_list loro }

abbrev list_out_of_range : List ℕ
list_out_of_range = ascii "list index out of range"

abbrev list_entry_is_a_value : List ℕ
list_entry_is_a_value = ascii "list entry is a value, not a container"

module _ {loro : Loro} where
  unfoldable write_popped :
      Result (Option (LoroValue loro.ContainerId)) LoroError
      → Ptr
      → Ptr
      → Body loro LoroStatus LoroStatus
  write_popped (ok (some v)) out out_present = do
    write_present out_present true
    write_value_json out v
  write_popped (ok none) out out_present = do write_present out_present false; pure loro_ok
  write_popped (err e) out out_present = loro_error e

  unfoldable box_popped :
      Result (Option (LoroValue loro.ContainerId)) LoroError → Ptr → Body loro Ptr Ptr
  box_popped (ok (some v)) out_present = do write_present out_present true; into_raw (value v)
  box_popped (ok none) out_present = do write_present out_present false; pure null_ptr
  box_popped (err e) out_present = do status ← loro_error e; pure null_ptr

  unfoldable loro_list_free : Ptr → Entry loro (Unit {0})
  loro_list_free p = ffi_guard tt (free_box (as_list loro) p)

  module _ (crate : Sequences loro) where
    unfoldable loro_list_id : Ptr → Ptr → Entry loro LoroStatus
    loro_list_id p out = ffi_guard loro_err_panic (id_body (list_boxes loro) crate.methods p out)

    unfoldable loro_list_insert : Ptr → ℕ → Ptr → ℕ → Entry loro LoroStatus
    loro_list_insert p at json json_len = ffi_guard loro_err_panic do
      l ← deref_or (as_list loro) p loro_err_invalid_arg
      v ← value_or_return json json_len loro_err_invalid_arg
      changed_by (list_boxes loro) p (crate.list_insert l at v)

    unfoldable loro_list_push : Ptr → Ptr → ℕ → Entry loro LoroStatus
    loro_list_push p json json_len = ffi_guard loro_err_panic do
      l ← deref_or (as_list loro) p loro_err_invalid_arg
      v ← value_or_return json json_len loro_err_invalid_arg
      changed_by (list_boxes loro) p (crate.list_push l v)

    unfoldable loro_list_get : Ptr → ℕ → Ptr → Entry loro LoroStatus
    loro_list_get p index out = ffi_guard loro_err_panic do
      l ← deref_or (as_list loro) p loro_err_invalid_arg
      require_out out loro_err_invalid_arg
      found ← call (crate.list_get l index)
      write_entry_json crate.voc_get_deep_value list_out_of_range found out

    unfoldable loro_list_get_container : Ptr → ℕ → Entry loro Ptr
    loro_list_get_container p index = ffi_guard null_ptr do
      l ← deref_or (as_list loro) p null_ptr
      found ← call (crate.list_get l index)
      box_entry_container list_out_of_range list_entry_is_a_value found

    unfoldable pub loro_list_insert_container : Ptr → ℕ → Ptr → Entry loro Ptr
    loro_list_insert_container p at child = ffi_guard null_ptr do
      l ← deref_or (as_list loro) p null_ptr
      c ← child_or_return child
      r ← mutate list_handle p (attach_container l (crate.list_insert_container l at) c)
      box_attached r

    unfoldable pub loro_list_push_container : Ptr → Ptr → Entry loro Ptr
    loro_list_push_container p child = ffi_guard null_ptr do
      l ← deref_or (as_list loro) p null_ptr
      c ← child_or_return child
      r ← mutate list_handle p (attach_container l (crate.list_push_container l) c)
      box_attached r

    unfoldable loro_list_delete : Ptr → ℕ → ℕ → Entry loro LoroStatus
    loro_list_delete p at len = ffi_guard loro_err_panic do
      l ← deref_or (as_list loro) p loro_err_invalid_arg
      changed_by (list_boxes loro) p (crate.list_delete l at len)

    unfoldable loro_list_pop : Ptr → Ptr → Ptr → Entry loro LoroStatus
    loro_list_pop p out out_present = ffi_guard loro_err_panic do
      l ← deref_or (as_list loro) p loro_err_invalid_arg
      require_out out loro_err_invalid_arg
      popped ← mutate list_handle p (crate.list_pop l)
      write_popped popped out out_present

    unfoldable loro_list_insert_value : Ptr → ℕ → Ptr → Entry loro LoroStatus
    loro_list_insert_value p at v = ffi_guard loro_err_panic do
      l ← deref_or (as_list loro) p loro_err_invalid_arg
      x ← deref_or (as_value loro) v loro_err_invalid_arg
      changed_by (list_boxes loro) p (crate.list_insert l at x)

    unfoldable loro_list_push_value : Ptr → Ptr → Entry loro LoroStatus
    loro_list_push_value p v = ffi_guard loro_err_panic do
      l ← deref_or (as_list loro) p loro_err_invalid_arg
      x ← deref_or (as_value loro) v loro_err_invalid_arg
      changed_by (list_boxes loro) p (crate.list_push l x)

    unfoldable loro_list_get_value_or_container : Ptr → ℕ → Entry loro Ptr
    loro_list_get_value_or_container p index = ffi_guard null_ptr do
      l ← deref_or (as_list loro) p null_ptr
      found ← call (crate.list_get l index)
      box_entry list_out_of_range found

    unfoldable loro_list_pop_value : Ptr → Ptr → Entry loro Ptr
    loro_list_pop_value p out_present = ffi_guard null_ptr do
      l ← deref_or (as_list loro) p null_ptr
      popped ← mutate list_handle p (crate.list_pop l)
      box_popped popped out_present

    unfoldable loro_list_get_value : Ptr → Entry loro Ptr
    loro_list_get_value p = ffi_guard null_ptr do
      l ← deref_or (as_list loro) p null_ptr
      v ← call (crate.list_get_value l)
      into_raw (value v)

    unfoldable loro_list_get_deep_value : Ptr → Entry loro Ptr
    loro_list_get_deep_value p = ffi_guard null_ptr do
      l ← deref_or (as_list loro) p null_ptr
      v ← call (crate.list_get_deep_value l)
      into_raw (value v)

    unfoldable loro_list_to_json : Ptr → Ptr → Entry loro LoroStatus
    loro_list_to_json p out = ffi_guard loro_err_panic do
      l ← deref_or (as_list loro) p loro_err_invalid_arg
      require_out out loro_err_invalid_arg
      v ← call (crate.list_get_deep_value l)
      write_value_json out v

    unfoldable loro_list_len : Ptr → Entry loro ℕ
    loro_list_len p = ffi_guard 0 do l ← deref_or (as_list loro) p 0; call (crate.list_len l)

    unfoldable loro_list_is_empty : Ptr → Entry loro Bool
    loro_list_is_empty p =
        ffi_guard true do l ← deref_or (as_list loro) p true; call (crate.list_is_empty l)

    unfoldable loro_list_clear : Ptr → Entry loro LoroStatus
    loro_list_clear p = ffi_guard loro_err_panic do
      l ← deref_or (as_list loro) p loro_err_invalid_arg
      changed_by (list_boxes loro) p (crate.list_clear l)

    unfoldable loro_list_is_deleted : Ptr → Entry loro Bool
    loro_list_is_deleted p =
        ffi_guard false do l ← deref_or (as_list loro) p false; call (crate.methods.is_deleted l)

    unfoldable loro_list_is_attached : Ptr → Entry loro Bool
    loro_list_is_attached p =
        ffi_guard false do l ← deref_or (as_list loro) p false; call (crate.methods.is_attached l)

    unfoldable loro_list_get_attached : Ptr → Entry loro Ptr
    loro_list_get_attached p = ffi_guard null_ptr (attached_body (list_boxes loro) crate.methods p)

    unfoldable loro_list_doc : Ptr → Entry loro Ptr
    loro_list_doc p = ffi_guard null_ptr (doc_body (list_boxes loro) crate.methods p)

    unfoldable loro_list_subscribe : Ptr → Subscriber → Entry loro Ptr
    loro_list_subscribe p callback =
        ffi_guard null_ptr (subscribe_body (list_boxes loro) crate.methods p callback)
