-- ===== src/ValueTyped/Access.antt =====
-- The accessors of loro-c-api/src/value_typed.rs for one value.
pub mod Contract
pub mod Payloads
pub mod Scalars
use loro_c.Base.{ℕ, Bool, true, false, List, ascii}
use loro_c.World.{Loro, World, Ptr, null_ptr, bool_cell, double_cell, integer_cell}
use loro_c.World.{LoroValue}
use loro_c.Error.{LoroStatus, loro_ok, loro_err_invalid_arg, loro_err_panic}
use loro_c.Abi.{
  Entry, Body, ◌>>=◌, ◌>>◌, ffi_guard, pure, return, fail, deref_or, require_out, write_out,
}
use loro_c.Value.{write_bytes, to_vec}
use loro_c.ValueTyped.Items.{LoroValueType, loro_value_null, as_value, kind}

abbrev not_a_string : List ℕ
not_a_string = ascii "value is not a string"

abbrev not_binary : List ℕ
not_binary = ascii "value is not binary"

abbrev not_a_container : List ℕ
not_a_container = ascii "value is not a container"

module _ {loro : Loro} where
  unfoldable loro_value_get_type : Ptr → Entry loro LoroValueType
  loro_value_get_type p =
      ffi_guard loro_value_null do v ← deref_or (as_value loro) p loro_value_null; pure (kind v)

  write_bool : LoroValue loro.ContainerId → Ptr → Body loro Bool Bool
  write_bool (LoroValue.bool b) out = do write_out out (bool_cell b); pure true
  write_bool _ out = pure false

  pub loro_value_as_bool : Ptr → Ptr → Entry loro Bool
  loro_value_as_bool p out =
      ffi_guard false
        do v ← deref_or (as_value loro) p false; require_out out false; write_bool v out

  write_double : LoroValue loro.ContainerId → Ptr → Body loro Bool Bool
  write_double (LoroValue.double d) out = do write_out out (double_cell d); pure true
  write_double _ out = pure false

  pub loro_value_as_double : Ptr → Ptr → Entry loro Bool
  loro_value_as_double p out =
      ffi_guard false
        do v ← deref_or (as_value loro) p false; require_out out false; write_double v out

  write_i64 : LoroValue loro.ContainerId → Ptr → Body loro Bool Bool
  write_i64 (LoroValue.i64 i) out = do write_out out (integer_cell i); pure true
  write_i64 _ out = pure false

  pub loro_value_as_i64 : Ptr → Ptr → Entry loro Bool
  loro_value_as_i64 p out =
      ffi_guard false
        do v ← deref_or (as_value loro) p false; require_out out false; write_i64 v out

  write_string : LoroValue loro.ContainerId → Ptr → Body loro LoroStatus LoroStatus
  write_string (LoroValue.string s) out = do write_bytes out (to_vec s); pure loro_ok
  write_string _ out = fail not_a_string loro_err_invalid_arg

  pub loro_value_as_string : Ptr → Ptr → Entry loro LoroStatus
  loro_value_as_string p out = ffi_guard loro_err_panic do
    v ← deref_or (as_value loro) p loro_err_invalid_arg
    require_out out loro_err_invalid_arg
    write_string v out

  write_binary : LoroValue loro.ContainerId → Ptr → Body loro LoroStatus LoroStatus
  write_binary (LoroValue.binary b) out = do write_bytes out (to_vec b); pure loro_ok
  write_binary _ out = fail not_binary loro_err_invalid_arg

  pub loro_value_as_binary : Ptr → Ptr → Entry loro LoroStatus
  loro_value_as_binary p out = ffi_guard loro_err_panic do
    v ← deref_or (as_value loro) p loro_err_invalid_arg
    require_out out loro_err_invalid_arg
    write_binary v out

  write_container : LoroValue loro.ContainerId → Ptr → Body loro LoroStatus LoroStatus
  write_container (LoroValue.container cid) out = do
    write_bytes out (loro.container_id_text cid)
    pure loro_ok
  write_container _ out = fail not_a_container loro_err_invalid_arg

  pub loro_value_as_container : Ptr → Ptr → Entry loro LoroStatus
  loro_value_as_container p out = ffi_guard loro_err_panic do
    v ← deref_or (as_value loro) p loro_err_invalid_arg
    require_out out loro_err_invalid_arg
    write_container v out
