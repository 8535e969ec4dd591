-- ===== src/Cursor.antt =====
-- loro-c-api/src/cursor.rs: stable positions in sequences.
pub mod Laws
use loro_c.Base.{
  ℕ, ◌==◌, ◌||◌, if◌then◌else◌, Option, none, some, List, ascii, ◌++◌, Result, ok, err,
}
use loro_c.World.{
  Loro, Ptr, null_ptr, Obj, cursor, text_handle, list_handle, movable_list_handle, ByteVec, Call,
  OpId, LoroId, Side, left, middle, right, LoroSide, loro_side_left, loro_side_middle,
  loro_side_right, AbsolutePosition, LoroPosQueryResult, position_cell, pointer_cell,
}
use loro_c.Error.{
  LoroStatus, loro_ok, loro_err_invalid_arg, loro_err_not_found, loro_err_decode, loro_err_panic,
}
use loro_c.Abi.{
  Body, Entry, ◌>>=◌, ◌>>◌, ffi_guard, pure, fail, call, deref_or, require_out, write_out, into_raw,
  free_box, null_out_pointer,
}
use loro_c.Value.{write_bytes}
use loro_c.Value.Json.{string_or_return, slice_or_return}
use loro_c.Version.Ids.{to_loro}
use loro_c.Subscribe.{as_doc, container_id_or_fail}
use loro_c.Awareness.Typed.{require_outs}

-- loro::cursor::CannotFindRelativePosition, as far as `record_cursor_error` tells it apart, with the
-- text of the error.
pub data CannotFindRelativePosition : Type 0 where
  history_unreadable other_position_error : List ℕ → CannotFindRelativePosition

-- loro::cursor::PosQueryResult.
pub record PosQueryResult (loro : Loro) : Type 0 where
  pub update : Option loro.Cursor
  pub current : AbsolutePosition

-- loro::cursor, outside the repository.
pub record Cursors (loro : Loro) : Type 0 where
  pub cursor_encode : loro.Cursor → Call ByteVec
  pub cursor_decode : List ℕ → Call (Result loro.Cursor (List ℕ))
  pub cursor_new : Option OpId → loro.ContainerId → Side → ℕ → Call loro.Cursor
  pub text_get_cursor : loro.LoroText → ℕ → Side → Call (Option loro.Cursor)
  pub list_get_cursor : loro.LoroList → ℕ → Side → Call (Option loro.Cursor)
  pub movable_list_get_cursor : loro.LoroMovableList → ℕ → Side → Call (Option loro.Cursor)
  pub doc_get_cursor_pos :
      loro.Doc → loro.Cursor → Call (Result (PosQueryResult loro) CannotFindRelativePosition)

abbrev pub as_cursor : (loro : Loro) → Obj loro → Option loro.Cursor
as_cursor loro (cursor c) = some c
as_cursor loro _ = none

abbrev as_text : (loro : Loro) → Obj loro → Option loro.LoroText
as_text loro (text_handle t) = some t
as_text loro _ = none

abbrev as_list : (loro : Loro) → Obj loro → Option loro.LoroList
as_list loro (list_handle l) = some l
as_list loro _ = none

abbrev as_movable_list : (loro : Loro) → Obj loro → Option loro.LoroMovableList
as_movable_list loro (movable_list_handle l) = some l
as_movable_list loro _ = none

unfoldable pub to_side : LoroSide → Side
to_side loro_side_left = left
to_side loro_side_middle = middle
to_side loro_side_right = right

unfoldable pub from_side : Side → LoroSide
from_side left = loro_side_left
from_side middle = loro_side_middle
from_side right = loro_side_right

abbrev no_cursor : List ℕ
no_cursor = ascii "could not create a cursor at the given position"

abbrev cursor_not_decoded : List ℕ → List ℕ
cursor_not_decoded e = ascii "failed to decode cursor: " ++ e

-- `if id.is_null() { None } else { Some((*id).to_loro()) }`.
unfoldable pub anchor : Option LoroId → Option OpId
anchor none = none
anchor (some id) = some (to_loro id)

-- `LoroPosQueryResult { side: from_side(..), abs_pos: .. }`.
unfoldable pub position : AbsolutePosition → LoroPosQueryResult
position p = record { side = from_side p.side; abs_pos = p.pos }

module _ {loro : Loro} where
  pub record_cursor_error : {A : Type 0} → CannotFindRelativePosition → Body loro LoroStatus A
  record_cursor_error (history_unreadable text) = fail text loro_err_decode
  record_cursor_error (other_position_error text) = fail text loro_err_not_found

  pub box_or_no_cursor : Option loro.Cursor → Body loro Ptr Ptr
  box_or_no_cursor none = fail no_cursor null_ptr
  box_or_no_cursor (some c) = into_raw (cursor c)

  pub box_decoded : Result loro.Cursor (List ℕ) → Body loro Ptr Ptr
  box_decoded (ok c) = into_raw (cursor c)
  box_decoded (err e) = fail (cursor_not_decoded e) null_ptr

  pub write_position :
      Result (PosQueryResult loro) CannotFindRelativePosition
      → Ptr
      → Body loro LoroStatus LoroStatus
  write_position (ok found) out = do
    write_out out (position_cell (position found.current))
    pure loro_ok
  write_position (err e) out = record_cursor_error e

  unfoldable pub box_update : Option loro.Cursor → Body loro LoroStatus Ptr
  box_update none = pure null_ptr
  box_update (some c) = into_raw (cursor c)

  pub write_position_full :
      Result (PosQueryResult loro) CannotFindRelativePosition
      → Ptr
      → Ptr
      → Body loro LoroStatus LoroStatus
  write_position_full (ok found) out_pos out_update = do
    p ← box_update found.update
    write_out out_pos (position_cell (position found.current))
    write_out out_update (pointer_cell p)
    pure loro_ok
  write_position_full (err e) out_pos out_update = record_cursor_error e

  unfoldable pub loro_cursor_free : Ptr → Entry loro (Unit {0})
  loro_cursor_free p = ffi_guard tt (free_box (as_cursor loro) p)

  module _ (crate : Cursors loro) where
    pub loro_cursor_encode : Ptr → Ptr → Entry loro LoroStatus
    loro_cursor_encode p out = ffi_guard loro_err_panic do
      c ← deref_or (as_cursor loro) p loro_err_invalid_arg
      require_out out loro_err_invalid_arg
      bytes ← call (crate.cursor_encode c)
      write_bytes out bytes
      pure loro_ok

    pub loro_cursor_decode : Ptr → ℕ → Entry loro Ptr
    loro_cursor_decode p len = ffi_guard null_ptr do
      bytes ← slice_or_return p len null_ptr
      decoded ← call (crate.cursor_decode bytes)
      box_decoded decoded

    pub loro_cursor_new : Option LoroId → Ptr → ℕ → LoroSide → ℕ → Entry loro Ptr
    loro_cursor_new id container_id container_id_len side origin_pos = ffi_guard null_ptr do
      s ← string_or_return container_id container_id_len null_ptr
      container ← container_id_or_fail s
      c ← call (crate.cursor_new (anchor id) container (to_side side) origin_pos)
      into_raw (cursor c)

    pub loro_text_get_cursor : Ptr → ℕ → LoroSide → Entry loro Ptr
    loro_text_get_cursor p pos side = ffi_guard null_ptr do
      t ← deref_or (as_text loro) p null_ptr
      found ← call (crate.text_get_cursor t pos (to_side side))
      box_or_no_cursor found

    pub loro_list_get_cursor : Ptr → ℕ → LoroSide → Entry loro Ptr
    loro_list_get_cursor p pos side = ffi_guard null_ptr do
      l ← deref_or (as_list loro) p null_ptr
      found ← call (crate.list_get_cursor l pos (to_side side))
      box_or_no_cursor found

    pub loro_movable_list_get_cursor : Ptr → ℕ → LoroSide → Entry loro Ptr
    loro_movable_list_get_cursor p pos side = ffi_guard null_ptr do
      l ← deref_or (as_movable_list loro) p null_ptr
      found ← call (crate.movable_list_get_cursor l pos (to_side side))
      box_or_no_cursor found

    pub loro_doc_get_cursor_pos : Ptr → Ptr → Ptr → Entry loro LoroStatus
    loro_doc_get_cursor_pos p c out = ffi_guard loro_err_panic do
      d ← deref_or (as_doc loro) p loro_err_invalid_arg
      x ← deref_or (as_cursor loro) c loro_err_invalid_arg
      require_out out loro_err_invalid_arg
      found ← call (crate.doc_get_cursor_pos d x)
      write_position found out

    pub loro_doc_get_cursor_pos_full : Ptr → Ptr → Ptr → Ptr → Entry loro LoroStatus
    loro_doc_get_cursor_pos_full p c out_pos out_update = ffi_guard loro_err_panic do
      d ← deref_or (as_doc loro) p loro_err_invalid_arg
      x ← deref_or (as_cursor loro) c loro_err_invalid_arg
      require_outs out_pos out_update loro_err_invalid_arg
      found ← call (crate.doc_get_cursor_pos d x)
      write_position_full found out_pos out_update
