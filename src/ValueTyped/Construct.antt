-- ===== src/ValueTyped/Construct.antt =====
-- The constructors of loro-c-api/src/value_typed.rs, and `loro_value_free`.
use loro_c.Base.{ℕ, ◌==◌, if◌then◌else◌, Bool, List, [], ascii}
use loro_c.Base.Int.{ℤ}
use loro_c.World.{Loro, Ptr, null_ptr, value, nil, end}
use loro_c.World.{LoroValue}
use loro_c.Abi.{Entry, Body, ◌>>=◌, ffi_guard, pure, fail, into_raw, free_box, slice_from_raw_parts}
use loro_c.Value.{str_from_raw, or_return}
use loro_c.ValueTyped.Items.{as_value}

abbrev null_binary_pointer : List ℕ
null_binary_pointer = ascii "null binary pointer passed to loro-c-api"

module _ {loro : Loro} where
  -- The module's own `into_raw`.
  unfoldable pub box_value : {R : Type 0} → LoroValue loro.ContainerId → Body loro R Ptr
  box_value v = into_raw (value v)

  unfoldable loro_value_new_null : Entry loro Ptr
  loro_value_new_null = ffi_guard null_ptr (box_value LoroValue.null)

  unfoldable loro_value_new_bool : Bool → Entry loro Ptr
  loro_value_new_bool b = ffi_guard null_ptr (box_value (LoroValue.bool b))

  unfoldable loro_value_new_double : ℕ → Entry loro Ptr
  loro_value_new_double d = ffi_guard null_ptr (box_value (LoroValue.double d))

  unfoldable loro_value_new_i64 : ℤ → Entry loro Ptr
  loro_value_new_i64 i = ffi_guard null_ptr (box_value (LoroValue.i64 i))

  unfoldable pub loro_value_new_string : Ptr → ℕ → Entry loro Ptr
  loro_value_new_string p len =
      ffi_guard null_ptr
        do found ← str_from_raw p len; s ← or_return found null_ptr; box_value (LoroValue.string s)

  unfoldable binary_bytes : Ptr → ℕ → Body loro Ptr (List ℕ)
  binary_bytes p len =
      if len == 0
      then pure []
      else if p == null_ptr
      then fail null_binary_pointer null_ptr
      else slice_from_raw_parts p len

  unfoldable loro_value_new_binary : Ptr → ℕ → Entry loro Ptr
  loro_value_new_binary p len =
      ffi_guard null_ptr do bytes ← binary_bytes p len; box_value (LoroValue.binary bytes)

  unfoldable loro_value_new_list : Entry loro Ptr
  loro_value_new_list = ffi_guard null_ptr (box_value (LoroValue.list nil))

  unfoldable loro_value_new_map : Entry loro Ptr
  loro_value_new_map = ffi_guard null_ptr (box_value (LoroValue.map end))

  unfoldable pub loro_value_free : Ptr → Entry loro (Unit {0})
  loro_value_free p = ffi_guard tt (free_box (as_value loro) p)
