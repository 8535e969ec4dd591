-- ===== src/Version/Algebra.antt =====
-- The algebra of version vectors in loro-c-api/src/version.rs.
pub mod Laws
use loro_c.Base.{◌==◌, if◌then◌else◌, Bool, true, false, Option, none, some}
use loro_c.World.{Loro, Ptr, null_ptr, LoroId, LoroIdSpan, CounterSpan, bool_cell, span_cell}
use loro_c.Error.{LoroStatus, loro_ok, loro_err_invalid_arg, loro_err_panic}
use loro_c.Abi.{Entry, Body, ◌>>=◌, ◌>>◌, ffi_guard, pure, call, deref_or, require_out, write_out}
use loro_c.Version.Ids.{to_loro, span_to_loro, counter_span, as_version_vector, mutate_vv}

module _ {loro : Loro} where
  pub loro_version_vector_merge : Ptr → Ptr → Entry loro LoroStatus
  loro_version_vector_merge p other = ffi_guard loro_err_panic do
    vv ← deref_or (as_version_vector loro) p loro_err_invalid_arg
    o ← deref_or (as_version_vector loro) other loro_err_invalid_arg
    mutate_vv p (loro.vv_merge vv o)
    pure loro_ok

  pub loro_version_vector_extend_to_include_vv : Ptr → Ptr → Entry loro LoroStatus
  loro_version_vector_extend_to_include_vv p other = ffi_guard loro_err_panic do
    vv ← deref_or (as_version_vector loro) p loro_err_invalid_arg
    o ← deref_or (as_version_vector loro) other loro_err_invalid_arg
    mutate_vv p (loro.vv_extend_to_include_vv vv o)
    pure loro_ok

  pub loro_version_vector_set_end : Ptr → LoroId → Entry loro LoroStatus
  loro_version_vector_set_end p id = ffi_guard loro_err_panic do
    vv ← deref_or (as_version_vector loro) p loro_err_invalid_arg
    mutate_vv p (loro.vv_set_end vv (to_loro id))
    pure loro_ok

  -- `if !out.is_null() { out.write(..) }`.
  unfoldable write_if_asked : Ptr → Bool → Body loro LoroStatus (Unit {0})
  write_if_asked out b = if out == null_ptr then pure tt else write_out out (bool_cell b)

  unfoldable loro_version_vector_try_update_last : Ptr → LoroId → Ptr → Entry loro LoroStatus
  loro_version_vector_try_update_last p id out_updated = ffi_guard loro_err_panic do
    vv ← deref_or (as_version_vector loro) p loro_err_invalid_arg
    updated ← mutate_vv p (loro.vv_try_update_last vv (to_loro id))
    write_if_asked out_updated updated
    pure loro_ok

  unfoldable write_intersection : Option CounterSpan → Ptr → Body loro Bool Bool
  write_intersection none out = pure false
  write_intersection (some s) out = do write_out out (span_cell (counter_span s)); pure true

  unfoldable loro_version_vector_intersect_span : Ptr → LoroIdSpan → Ptr → Entry loro Bool
  loro_version_vector_intersect_span p span out = ffi_guard false do
    vv ← deref_or (as_version_vector loro) p false
    require_out out false
    found ← call (loro.vv_intersect_span vv (span_to_loro span))
    write_intersection found out
