-- ===== src/Container/MovableList.antt =====
-- loro-c-api/src/container/movable_list.rs.
use loro_c.Base.{ℕ, Bool, true, false, Option, none, some, List, ascii, Result, ok, err}
use loro_c.World.{
  Loro, Ptr, null_ptr, Obj, movable_list_handle, value, value_or_container, LoroValue,
  ValueOrContainer, Call, LoroError,
}
use loro_c.Error.{LoroStatus, loro_ok, loro_err_invalid_arg, loro_err_panic}
use loro_c.Abi.{
  Body, Entry, ◌>>=◌, ◌>>◌, ffi_guard, pure, call, deref_or, require_out, into_raw, free_box,
  loro_error,
}
use loro_c.Value.Json.{mutate, value_or_return, write_value_json}
use loro_c.ValueTyped.Items.{as_value}
use loro_c.Subscribe.{Subscriber}
use loro_c.Container.Attach.{Attaching, attach_container, child_or_return, box_attached}
use loro_c.Container.Common.{
  Handle, Handled, changed_by, id_body, attached_body, doc_body, subscribe_body, write_entry_json,
  box_entry, box_entry_container, write_present, write_editor,
}

-- The methods of loro::LoroMovableList; one that changes the list gives it back.
pub record MovableLists (loro : Loro) : Type 0 where
  pub methods : Handled loro loro.LoroMovableList
  pub voc_get_deep_value : ValueOrContainer loro → Call (LoroValue loro.ContainerId)
  pub movable_list_insert :
      loro.LoroMovableList
      → ℕ
      → LoroValue loro.ContainerId
      → loro.LoroMovableList × Call (Result (Unit {0}) LoroError)
  pub movable_list_push :
      loro.LoroMovableList
      → LoroValue loro.ContainerId
      → loro.LoroMovableList × Call (Result (Unit {0}) LoroError)
  pub movable_list_get : loro.LoroMovableList → ℕ → Call (Option (ValueOrContainer loro))
  pub movable_list_insert_container : loro.LoroMovableList → ℕ → Attaching loro loro.LoroMovableList
  pub movable_list_push_container : loro.LoroMovableList → Attaching loro loro.LoroMovableList
  pub movable_list_delete :
      loro.LoroMovableList → ℕ → ℕ → loro.LoroMovableList × Call (Result (Unit {0}) LoroError)
  pub movable_list_pop :
      loro.LoroMovableList
      → loro.LoroMovableList × Call (Result (Option (ValueOrContainer loro)) LoroError)
  pub movable_list_set :
      loro.LoroMovableList
      → ℕ
      → LoroValue loro.ContainerId
      → loro.LoroMovableList × Call (Result (Unit {0}) LoroError)
  pub movable_list_set_container : loro.LoroMovableList → ℕ → Attaching loro loro.LoroMovableList
  pub movable_list_mov :
      loro.LoroMovableList → ℕ → ℕ → loro.LoroMovableList × Call (Result (Unit {0}) LoroError)
  pub movable_list_get_creator_at : loro.LoroMovableList → ℕ → Call (Option ℕ)
  pub movable_list_get_last_mover_at : loro.LoroMovableList → ℕ → Call (Option ℕ)
  pub movable_list_get_last_editor_at : loro.LoroMovableList → ℕ → Call (Option ℕ)
  pub movable_list_get_value : loro.LoroMovableList → Call (LoroValue loro.ContainerId)
  pub movable_list_get_deep_value : loro.LoroMovableList → Call (LoroValue loro.ContainerId)
  pub movable_list_len : loro.LoroMovableList → Call ℕ
  pub movable_list_is_empty : loro.LoroMovableList → Call Bool
  pub movable_list_clear :
      loro.LoroMovableList → loro.LoroMovableList × Call (Result (Unit {0}) LoroError)

abbrev as_movable_list : (loro : Loro) → Obj loro → Option loro.LoroMovableList
as_movable_list loro (movable_list_handle l) = some l
as_movable_list loro _ = none

abbrev movable_list_boxes : (loro : Loro) → Handle loro loro.LoroMovableList
movable_list_boxes loro = record { boxed = movable_list_handle; unboxed = as_movable_list loro }

abbrev movable_list_out_of_range : List ℕ
movable_list_out_of_range = ascii "movable list index out of range"

abbrev movable_list_entry_is_a_value : List ℕ
movable_list_entry_is_a_value = ascii "movable list entry is a value, not a container"

module _ {loro : Loro} where
  unfoldable write_popped_entry :
      (ValueOrContainer loro → Call (LoroValue loro.ContainerId))
      → Result (Option (ValueOrContainer loro)) LoroError
      → Ptr
      → Ptr
      → Body loro LoroStatus LoroStatus
  write_popped_entry deep (ok (some v)) out out_present = do
    write_present out_present true
    x ← call (deep v)
    write_value_json out x
  write_popped_entry deep (ok none) out out_present = do
    write_present out_present false
    pure loro_ok
  write_popped_entry deep (err e) out out_present = loro_error e

  unfoldable box_popped_entry :
      Result (Option (ValueOrContainer loro)) LoroError → Ptr → Body loro Ptr Ptr
  box_popped_entry (ok (some v)) out_present = do
    write_present out_present true
    into_raw (value_or_container v)
  box_popped_entry (ok none) out_present = do write_present out_present false; pure null_ptr
  box_popped_entry (err e) out_present = do status ← loro_error e; pure null_ptr

  -- The body of the three functions that ask for the peer of an entry.
  unfoldable editor_at :
      (loro.LoroMovableList → ℕ → Call (Option ℕ)) → Ptr → ℕ → Ptr → Body loro Bool Bool
  editor_at get p at out = do
    l ← deref_or (as_movable_list loro) p false
    require_out out false
    peer ← call (get l at)
    write_editor peer out

  unfoldable loro_movable_list_free : Ptr → Entry loro (Unit {0})
  loro_movable_list_free p = ffi_guard tt (free_box (as_movable_list loro) p)

  module _ (crate : MovableLists loro) where
    unfoldable loro_movable_list_id : Ptr → Ptr → Entry loro LoroStatus
    loro_movable_list_id p out =
        ffi_guard loro_err_panic (id_body (movable_list_boxes loro) crate.methods p out)

    unfoldable loro_movable_list_insert : Ptr → ℕ → Ptr → ℕ → Entry loro LoroStatus
    loro_movable_list_insert p at json json_len = ffi_guard loro_err_panic do
      l ← deref_or (as_movable_list loro) p loro_err_invalid_arg
      v ← value_or_return json json_len loro_err_invalid_arg
      changed_by (movable_list_boxes loro) p (crate.movable_list_insert l at v)

    unfoldable loro_movable_list_push : Ptr → Ptr → ℕ → Entry loro LoroStatus
    loro_movable_list_push p json json_len = ffi_guard loro_err_panic do
      l ← deref_or (as_movable_list loro) p loro_err_invalid_arg
      v ← value_or_return json json_len loro_err_invalid_arg
      changed_by (movable_list_boxes loro) p (crate.movable_list_push l v)

    unfoldable loro_movable_list_get : Ptr → ℕ → Ptr → Entry loro LoroStatus
    loro_movable_list_get p index out = ffi_guard loro_err_panic do
      l ← deref_or (as_movable_list loro) p loro_err_invalid_arg
      require_out out loro_err_invalid_arg
      found ← call (crate.movable_list_get l index)
      write_entry_json crate.voc_get_deep_value movable_list_out_of_range found out

    unfoldable loro_movable_list_get_container : Ptr → ℕ → Entry loro Ptr
    loro_movable_list_get_container p index = ffi_guard null_ptr do
      l ← deref_or (as_movable_list loro) p null_ptr
      found ← call (crate.movable_list_get l index)
      box_entry_container movable_list_out_of_range movable_list_entry_is_a_value found

    unfoldable loro_movable_list_insert_container : Ptr → ℕ → Ptr → Entry loro Ptr
    loro_movable_list_insert_container p at child = ffi_guard null_ptr do
      l ← deref_or (as_movable_list loro) p null_ptr
      c ← child_or_return child
      r ←
          mutate movable_list_handle p
            (attach_container l (crate.movable_list_insert_container l at) c)
      box_attached r

    unfoldable loro_movable_list_push_container : Ptr → Ptr → Entry loro Ptr
    loro_movable_list_push_container p child = ffi_guard null_ptr do
      l ← deref_or (as_movable_list loro) p null_ptr
      c ← child_or_return child
      r ← mutate movable_list_handle p (attach_container l (crate.movable_list_push_container l) c)
      box_attached r

    unfoldable loro_movable_list_delete : Ptr → ℕ → ℕ → Entry loro LoroStatus
    loro_movable_list_delete p at len = ffi_guard loro_err_panic do
      l ← deref_or (as_movable_list loro) p loro_err_invalid_arg
      changed_by (movable_list_boxes loro) p (crate.movable_list_delete l at len)

    unfoldable loro_movable_list_pop : Ptr → Ptr → Ptr → Entry loro LoroStatus
    loro_movable_list_pop p out out_present = ffi_guard loro_err_panic do
      l ← deref_or (as_movable_list loro) p loro_err_invalid_arg
      require_out out loro_err_invalid_arg
      popped ← mutate movable_list_handle p (crate.movable_list_pop l)
      write_popped_entry crate.voc_get_deep_value popped out out_present

    unfoldable loro_movable_list_insert_value : Ptr → ℕ → Ptr → Entry loro LoroStatus
    loro_movable_list_insert_value p at v = ffi_guard loro_err_panic do
      l ← deref_or (as_movable_list loro) p loro_err_invalid_arg
      x ← deref_or (as_value loro) v loro_err_invalid_arg
      changed_by (movable_list_boxes loro) p (crate.movable_list_insert l at x)

    unfoldable loro_movable_list_push_value : Ptr → Ptr → Entry loro LoroStatus
    loro_movable_list_push_value p v = ffi_guard loro_err_panic do
      l ← deref_or (as_movable_list loro) p loro_err_invalid_arg
      x ← deref_or (as_value loro) v loro_err_invalid_arg
      changed_by (movable_list_boxes loro) p (crate.movable_list_push l x)

    unfoldable loro_movable_list_get_value_or_container : Ptr → ℕ → Entry loro Ptr
    loro_movable_list_get_value_or_container p index = ffi_guard null_ptr do
      l ← deref_or (as_movable_list loro) p null_ptr
      found ← call (crate.movable_list_get l index)
      box_entry movable_list_out_of_range found

    unfoldable loro_movable_list_pop_value_or_container : Ptr → Ptr → Entry loro Ptr
    loro_movable_list_pop_value_or_container p out_present = ffi_guard null_ptr do
      l ← deref_or (as_movable_list loro) p null_ptr
      popped ← mutate movable_list_handle p (crate.movable_list_pop l)
      box_popped_entry popped out_present

    unfoldable loro_movable_list_get_value : Ptr → Entry loro Ptr
    loro_movable_list_get_value p = ffi_guard null_ptr do
      l ← deref_or (as_movable_list loro) p null_ptr
      v ← call (crate.movable_list_get_value l)
      into_raw (value v)

    unfoldable loro_movable_list_get_deep_value : Ptr → Entry loro Ptr
    loro_movable_list_get_deep_value p = ffi_guard null_ptr do
      l ← deref_or (as_movable_list loro) p null_ptr
      v ← call (crate.movable_list_get_deep_value l)
      into_raw (value v)

    unfoldable loro_movable_list_to_json : Ptr → Ptr → Entry loro LoroStatus
    loro_movable_list_to_json p out = ffi_guard loro_err_panic do
      l ← deref_or (as_movable_list loro) p loro_err_invalid_arg
      require_out out loro_err_invalid_arg
      v ← call (crate.movable_list_get_deep_value l)
      write_value_json out v

    unfoldable loro_movable_list_len : Ptr → Entry loro ℕ
    loro_movable_list_len p =
        ffi_guard 0 do l ← deref_or (as_movable_list loro) p 0; call (crate.movable_list_len l)

    unfoldable loro_movable_list_is_empty : Ptr → Entry loro Bool
    loro_movable_list_is_empty p =
        ffi_guard true
          do l ← deref_or (as_movable_list loro) p true; call (crate.movable_list_is_empty l)

    unfoldable loro_movable_list_clear : Ptr → Entry loro LoroStatus
    loro_movable_list_clear p = ffi_guard loro_err_panic do
      l ← deref_or (as_movable_list loro) p loro_err_invalid_arg
      changed_by (movable_list_boxes loro) p (crate.movable_list_clear l)

    unfoldable loro_movable_list_is_deleted : Ptr → Entry loro Bool
    loro_movable_list_is_deleted p =
        ffi_guard false
          do l ← deref_or (as_movable_list loro) p false; call (crate.methods.is_deleted l)

    unfoldable loro_movable_list_is_attached : Ptr → Entry loro Bool
    loro_movable_list_is_attached p =
        ffi_guard false
          do l ← deref_or (as_movable_list loro) p false; call (crate.methods.is_attached l)

    unfoldable loro_movable_list_get_attached : Ptr → Entry loro Ptr
    loro_movable_list_get_attached p =
        ffi_guard null_ptr (attached_body (movable_list_boxes loro) crate.methods p)

    unfoldable loro_movable_list_doc : Ptr → Entry loro Ptr
    loro_movable_list_doc p =
        ffi_guard null_ptr (doc_body (movable_list_boxes loro) crate.methods p)

    unfoldable loro_movable_list_subscribe : Ptr → Subscriber → Entry loro Ptr
    loro_movable_list_subscribe p callback =
        ffi_guard null_ptr (subscribe_body (movable_list_boxes loro) crate.methods p callback)

    unfoldable loro_movable_list_set : Ptr → ℕ → Ptr → ℕ → Entry loro LoroStatus
    loro_movable_list_set p at json json_len = ffi_guard loro_err_panic do
      l ← deref_or (as_movable_list loro) p loro_err_invalid_arg
      v ← value_or_return json json_len loro_err_invalid_arg
      changed_by (movable_list_boxes loro) p (crate.movable_list_set l at v)

    unfoldable loro_movable_list_set_value : Ptr → ℕ → Ptr → Entry loro LoroStatus
    loro_movable_list_set_value p at v = ffi_guard loro_err_panic do
      l ← deref_or (as_movable_list loro) p loro_err_invalid_arg
      x ← deref_or (as_value loro) v loro_err_invalid_arg
      changed_by (movable_list_boxes loro) p (crate.movable_list_set l at x)

    unfoldable loro_movable_list_mov : Ptr → ℕ → ℕ → Entry loro LoroStatus
    loro_movable_list_mov p from to = ffi_guard loro_err_panic do
      l ← deref_or (as_movable_list loro) p loro_err_invalid_arg
      changed_by (movable_list_boxes loro) p (crate.movable_list_mov l from to)

    unfoldable loro_movable_list_set_container : Ptr → ℕ → Ptr → Entry loro Ptr
    loro_movable_list_set_container p at child = ffi_guard null_ptr do
      l ← deref_or (as_movable_list loro) p null_ptr
      c ← child_or_return child
      r ←
          mutate movable_list_handle p
            (attach_container l (crate.movable_list_set_container l at) c)
      box_attached r

    unfoldable loro_movable_list_get_creator_at : Ptr → ℕ → Ptr → Entry loro Bool
    loro_movable_list_get_creator_at p at out =
        ffi_guard false (editor_at crate.movable_list_get_creator_at p at out)

    unfoldable loro_movable_list_get_last_mover_at : Ptr → ℕ → Ptr → Entry loro Bool
    loro_movable_list_get_last_mover_at p at out =
        ffi_guard false (editor_at crate.movable_list_get_last_mover_at p at out)

    unfoldable loro_movable_list_get_last_editor_at : Ptr → ℕ → Ptr → Entry loro Bool
    loro_movable_list_get_last_editor_at p at out =
        ffi_guard false (editor_at crate.movable_list_get_last_editor_at p at out)
