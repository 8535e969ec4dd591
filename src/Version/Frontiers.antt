-- ===== src/Version/Frontiers.antt =====
-- The handle of frontiers in loro-c-api/src/version.rs.
pub mod Laws
use loro_c.Base.{
  ℕ, ◌==◌, leb, if◌then◌else◌, not, ◌&&◌, Bool, true, false, Option, none, some, List, [], map,
  ascii, Result, ok, err, length, take, get_elem?,
}
use loro_c.World.{Loro, World, Ptr, null_ptr, OpId, LoroId, LoroError, id_cell, frontiers}
use loro_c.Error.{LoroStatus, loro_ok, loro_err_invalid_arg, loro_err_not_found, loro_err_panic}
use loro_c.Abi.{
  Step, go, exit, unwinds, undefined, Entry, Body, and_then, ◌>>=◌, ◌>>◌, ffi_guard, pure, fail,
  call, deref_or, require_out, write_out, into_raw, free_box, loro_error,
}
use loro_c.Value.{write_bytes}
use loro_c.Version.Ids.{to_loro, from_loro, as_frontiers, mutate_frontiers}
use loro_c.Version.Vector.{input_bytes}

abbrev null_ids_pointer : List ℕ
null_ids_pointer = ascii "null ids pointer passed to loro-c-api"

abbrev index_out_of_range : List ℕ
index_out_of_range = ascii "frontiers index out of range"

module _ {loro : Loro} where
  unfoldable loro_frontiers_new : Entry loro Ptr
  loro_frontiers_new = ffi_guard null_ptr (into_raw (frontiers loro.frontiers_new))

  unfoldable pub loro_frontiers_free : Ptr → Entry loro (Unit {0})
  loro_frontiers_free p = ffi_guard tt (free_box (as_frontiers loro) p)

  -- `slice::from_raw_parts` on an array of ids.
  unfoldable read_ids : List LoroId → ℕ → Body loro Ptr (List LoroId)
  read_ids ids count w = if leb count (length ids) then go (take count ids) w else undefined

  -- The ids that the caller has at `ids`, or none behind a null pointer.
  unfoldable id_slice : Option (List LoroId) → ℕ → Body loro Ptr (List LoroId)
  id_slice none count = if count == 0 then pure [] else fail null_ids_pointer null_ptr
  id_slice (some ids) count = if count == 0 then pure [] else read_ids ids count

  unfoldable loro_frontiers_from_ids : Option (List LoroId) → ℕ → Entry loro Ptr
  loro_frontiers_from_ids ids count = ffi_guard null_ptr do
    slice ← id_slice ids count
    f ← call (loro.frontiers_collect (map to_loro slice))
    into_raw (frontiers f)

  unfoldable loro_frontiers_encode : Ptr → Ptr → Entry loro LoroStatus
  loro_frontiers_encode p out = ffi_guard loro_err_panic do
    f ← deref_or (as_frontiers loro) p loro_err_invalid_arg
    require_out out loro_err_invalid_arg
    bytes ← call (loro.frontiers_encode f)
    write_bytes out bytes
    pure loro_ok

  unfoldable box_decoded : Result loro.Frontiers LoroError → Body loro Ptr Ptr
  box_decoded (ok f) = into_raw (frontiers f)
  box_decoded (err e) = do status ← loro_error e; pure null_ptr

  unfoldable loro_frontiers_decode : Ptr → ℕ → Entry loro Ptr
  loro_frontiers_decode p len = ffi_guard null_ptr do
    bytes ← input_bytes p len
    decoded ← call (loro.frontiers_decode bytes)
    box_decoded decoded

  unfoldable loro_frontiers_len : Ptr → Entry loro ℕ
  loro_frontiers_len p =
      ffi_guard 0 do f ← deref_or (as_frontiers loro) p 0; call (loro.frontiers_len f)

  unfoldable loro_frontiers_is_empty : Ptr → Entry loro Bool
  loro_frontiers_is_empty p =
      ffi_guard true do f ← deref_or (as_frontiers loro) p true; call (loro.frontiers_is_empty f)

  unfoldable loro_frontiers_contains : Ptr → LoroId → Entry loro Bool
  loro_frontiers_contains p id =
      ffi_guard false
        do f ← deref_or (as_frontiers loro) p false; call (loro.frontiers_contains f (to_loro id))

  write_id : Option OpId → Ptr → Body loro LoroStatus LoroStatus
  write_id none out = fail index_out_of_range loro_err_not_found
  write_id (some id) out = do write_out out (id_cell (from_loro id)); pure loro_ok

  pub loro_frontiers_get : Ptr → ℕ → Ptr → Entry loro LoroStatus
  loro_frontiers_get p index out = ffi_guard loro_err_panic do
    f ← deref_or (as_frontiers loro) p loro_err_invalid_arg
    require_out out loro_err_invalid_arg
    write_id (get_elem? (loro.frontiers_ids f) index) out

  unfoldable pub loro_frontiers_push : Ptr → LoroId → Entry loro LoroStatus
  loro_frontiers_push p id = ffi_guard loro_err_panic do
    f ← deref_or (as_frontiers loro) p loro_err_invalid_arg
    mutate_frontiers p (loro.frontiers_push f (to_loro id))
    pure loro_ok
