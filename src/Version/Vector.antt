-- ===== src/Version/Vector.antt =====
-- The version vector's handle: loro-c-api/src/version.rs up to the algebra.
pub mod Laws
use Prim.Native.Nat.{Ordering}
use loro_c.Base.{
  ℕ, ◌==◌, if◌then◌else◌, not, ◌&&◌, Bool, true, false, Option, none, some, List, ascii, Result, ok,
  err,
}
use loro_c.Base.Int.{ℤ, pos, negsuc}
use loro_c.World.{Loro, Ptr, null_ptr, LoroId, LoroError, integer_cell, version_vector, frontiers}
use loro_c.Error.{LoroStatus, loro_ok, loro_err_invalid_arg, loro_err_not_found, loro_err_panic}
use loro_c.Abi.{
  Entry, Body, ◌>>=◌, ◌>>◌, ffi_guard, pure, fail, call, deref_or, require_out, write_out, into_raw,
  free_box, slice_from_raw_parts, loro_error,
}
use loro_c.Value.{write_bytes, bytes_or_empty}
use loro_c.Version.Ids.{to_loro, as_version_vector, mutate_vv}

abbrev null_data_pointer : List ℕ
null_data_pointer = ascii "null data pointer passed to loro-c-api"

abbrev no_entry_for_peer : List ℕ
no_entry_for_peer = ascii "no entry for peer in version vector"

abbrev concurrent_vectors : List ℕ
concurrent_vectors = ascii "version vectors are concurrent (incomparable)"

-- `ord as i32`.
unfoldable pub ordering_code : Ordering → ℤ
ordering_code Ordering.lt = negsuc 0
ordering_code Ordering.eq = pos 0
ordering_code Ordering.gt = pos 1

module _ {loro : Loro} where
  unfoldable loro_version_vector_new : Entry loro Ptr
  loro_version_vector_new = ffi_guard null_ptr (into_raw (version_vector loro.vv_new))

  unfoldable pub loro_version_vector_free : Ptr → Entry loro (Unit {0})
  loro_version_vector_free p = ffi_guard tt (free_box (as_version_vector loro) p)

  pub loro_version_vector_encode : Ptr → Ptr → Entry loro LoroStatus
  loro_version_vector_encode p out = ffi_guard loro_err_panic do
    vv ← deref_or (as_version_vector loro) p loro_err_invalid_arg
    require_out out loro_err_invalid_arg
    bytes ← call (loro.vv_encode vv)
    write_bytes out bytes
    pure loro_ok

  -- `if data.is_null() && len != 0 { .. } else if len == 0 { &[] } else { .. }`.
  unfoldable pub input_bytes : Ptr → ℕ → Body loro Ptr (List ℕ)
  input_bytes p len =
      if (p == null_ptr) && not (len == 0)
      then fail null_data_pointer null_ptr
      else bytes_or_empty p len

  unfoldable box_decoded : Result loro.VersionVector LoroError → Body loro Ptr Ptr
  box_decoded (ok vv) = into_raw (version_vector vv)
  box_decoded (err e) = do status ← loro_error e; pure null_ptr

  unfoldable loro_version_vector_decode : Ptr → ℕ → Entry loro Ptr
  loro_version_vector_decode p len =
      ffi_guard null_ptr
        do bytes ← input_bytes p len; decoded ← call (loro.vv_decode bytes); box_decoded decoded

  write_counter : Option ℤ → Ptr → Body loro LoroStatus LoroStatus
  write_counter none out = fail no_entry_for_peer loro_err_not_found
  write_counter (some c) out = do write_out out (integer_cell c); pure loro_ok

  pub loro_version_vector_get_last : Ptr → ℕ → Ptr → Entry loro LoroStatus
  loro_version_vector_get_last p peer out = ffi_guard loro_err_panic do
    vv ← deref_or (as_version_vector loro) p loro_err_invalid_arg
    require_out out loro_err_invalid_arg
    last ← call (loro.vv_get_last vv peer)
    write_counter last out

  unfoldable pub loro_version_vector_set_last : Ptr → LoroId → Entry loro LoroStatus
  loro_version_vector_set_last p id = ffi_guard loro_err_panic do
    vv ← deref_or (as_version_vector loro) p loro_err_invalid_arg
    mutate_vv p (loro.vv_set_last vv (to_loro id))
    pure loro_ok

  unfoldable loro_version_vector_includes_id : Ptr → LoroId → Entry loro Bool
  loro_version_vector_includes_id p id =
      ffi_guard false do
        vv ← deref_or (as_version_vector loro) p false
        call (loro.vv_includes_id vv (to_loro id))

  unfoldable loro_version_vector_includes_vv : Ptr → Ptr → Entry loro Bool
  loro_version_vector_includes_vv p other = ffi_guard false do
    vv ← deref_or (as_version_vector loro) p false
    o ← deref_or (as_version_vector loro) other false
    call (loro.vv_includes_vv vv o)

  write_ordering : Option Ordering → Ptr → Body loro LoroStatus LoroStatus
  write_ordering none out = fail concurrent_vectors loro_err_not_found
  write_ordering (some o) out = do write_out out (integer_cell (ordering_code o)); pure loro_ok

  pub loro_version_vector_compare : Ptr → Ptr → Ptr → Entry loro LoroStatus
  loro_version_vector_compare a b out = ffi_guard loro_err_panic do
    x ← deref_or (as_version_vector loro) a loro_err_invalid_arg
    y ← deref_or (as_version_vector loro) b loro_err_invalid_arg
    require_out out loro_err_invalid_arg
    order ← call (loro.vv_partial_cmp x y)
    write_ordering order out

  unfoldable loro_version_vector_to_frontiers : Ptr → Entry loro Ptr
  loro_version_vector_to_frontiers p = ffi_guard null_ptr do
    vv ← deref_or (as_version_vector loro) p null_ptr
    f ← call (loro.vv_get_frontiers vv)
    into_raw (frontiers f)
