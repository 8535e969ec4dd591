-- ===== src/Undo/Meta.antt =====
-- loro-c-api/src/undo.rs: what a callback may do to the metadata of an undo item.
pub mod Laws
use loro_c.Base.{ℕ, ◌==◌, if◌then◌else◌, Option, none, some, List, ascii, ◌++◌, length, get_elem?}
use loro_c.World.{
  Loro, Ptr, null_ptr, Obj, undo_meta, value, cursor, UndoItemMeta, CursorWithPos, size_cell,
  side_cell,
}
use loro_c.Error.{LoroStatus, loro_ok, loro_err_invalid_arg, loro_err_panic}
use loro_c.Abi.{
  Body, Entry, ◌>>=◌, ◌>>◌, ffi_guard, pure, fail, deref_or, require_out, write_out, into_raw,
}
use loro_c.Value.Json.{value_or_return, borrowed_or, mutate, write_serialized}
use loro_c.ValueTyped.Items.{as_value}
use loro_c.Cursor.{as_cursor, from_side}
use loro_c.Undo.Library.{History}

abbrev pub as_undo_meta : (loro : Loro) → Obj loro → Option (UndoItemMeta loro)
as_undo_meta loro (undo_meta m) = some m
as_undo_meta loro _ = none

abbrev null_meta_pointer : List ℕ
null_meta_pointer = ascii "null undo meta pointer passed to loro-c-api"

abbrev cursor_out_of_range : List ℕ
cursor_out_of_range = ascii "undo meta cursor index out of range"

abbrev meta_not_serialized : List ℕ → List ℕ
meta_not_serialized e = ascii "failed to serialize undo meta value: " ++ e

module _ {loro : Loro} where
  -- `match unsafe { (meta as *mut UndoItemMeta).as_mut() }`, and the same with `as_ref`.
  unfoldable pub meta_ref : {R : Type 0} → Ptr → R → Body loro R (UndoItemMeta loro)
  meta_ref p r = borrowed_or (as_undo_meta loro) null_meta_pointer p r

  pub loro_undo_meta_get_value_json : Ptr → Ptr → Entry loro LoroStatus
  loro_undo_meta_get_value_json p out = ffi_guard loro_err_panic do
    m ← meta_ref p loro_err_invalid_arg
    require_out out loro_err_invalid_arg
    write_serialized (loro.value_json_bytes m.value) meta_not_serialized out

  pub loro_undo_meta_get_value : Ptr → Entry loro Ptr
  loro_undo_meta_get_value p =
      ffi_guard null_ptr do m ← meta_ref p null_ptr; into_raw (value m.value)

  pub loro_undo_meta_cursors_len : Ptr → Entry loro ℕ
  loro_undo_meta_cursors_len p = ffi_guard 0 do m ← meta_ref p 0; pure (length m.cursors)

  -- The two positions are written if they are asked for; the cursor is a new box.
  pub box_cursor : Option (CursorWithPos loro) → Ptr → Ptr → Body loro Ptr Ptr
  box_cursor none out_pos out_side = fail cursor_out_of_range null_ptr
  box_cursor (some c) out_pos out_side = do
    if out_pos == null_ptr then pure tt else write_out out_pos (size_cell c.pos.pos)
    if out_side == null_ptr then pure tt else write_out out_side (side_cell (from_side c.pos.side))
    into_raw (cursor c.cursor)

  pub loro_undo_meta_get_cursor : Ptr → ℕ → Ptr → Ptr → Entry loro Ptr
  loro_undo_meta_get_cursor p index out_pos out_side =
      ffi_guard null_ptr
        do m ← meta_ref p null_ptr; box_cursor (get_elem? m.cursors index) out_pos out_side

  module _ (crate : History loro) where
    pub loro_undo_meta_set_value_json : Ptr → Ptr → ℕ → Entry loro LoroStatus
    loro_undo_meta_set_value_json p json json_len = ffi_guard loro_err_panic do
      m ← meta_ref p loro_err_invalid_arg
      v ← value_or_return json json_len loro_err_invalid_arg
      mutate undo_meta p (crate.meta_set_value m v)
      pure loro_ok

    pub loro_undo_meta_set_value : Ptr → Ptr → Entry loro LoroStatus
    loro_undo_meta_set_value p v = ffi_guard loro_err_panic do
      m ← meta_ref p loro_err_invalid_arg
      x ← deref_or (as_value loro) v loro_err_invalid_arg
      mutate undo_meta p (crate.meta_set_value m x)
      pure loro_ok

    pub loro_undo_meta_add_cursor : Ptr → Ptr → Entry loro LoroStatus
    loro_undo_meta_add_cursor p c = ffi_guard loro_err_panic do
      m ← meta_ref p loro_err_invalid_arg
      x ← deref_or (as_cursor loro) c loro_err_invalid_arg
      mutate undo_meta p (crate.meta_add_cursor m x)
      pure loro_ok
