-- ===== src/ValueTyped/Compound.antt =====
-- Lists and maps in loro-c-api/src/value_typed.rs.
pub mod Contract
pub mod Lists
pub mod Maps
use loro_c.Base.{ℕ, Option, none, some, List, ◌++◌, ascii, Result, ok, err}
use loro_c.World.{Loro, World, Ptr, null_ptr, Obj, value, Values, Entries}
use loro_c.World.{LoroValue}
use loro_c.Error.{
  LoroStatus, loro_ok, loro_err_invalid_arg, loro_err_utf8, loro_err_encode, loro_err_panic,
}
use loro_c.Abi.{Entry, Body, ◌>>=◌, ◌>>◌, ffi_guard, pure, fail, deref_or, require_out, store}
use loro_c.Value.{str_from_raw, or_return, write_bytes}
use loro_c.ValueTyped.Items.{as_value, push, len, get, insert, map_len, lookup, keys}
use loro_c.ValueTyped.Construct.{box_value}

abbrev pub not_a_list : List ℕ
not_a_list = ascii "value is not a list"

abbrev pub not_a_map : List ℕ
not_a_map = ascii "value is not a map"

abbrev index_out_of_bounds : List ℕ
index_out_of_bounds = ascii "list index out of bounds"

abbrev key_not_found : List ℕ
key_not_found = ascii "key not found in map value"

length_of_list : {C : Type 0} → LoroValue C → ℕ
length_of_list (LoroValue.list xs) = len xs
length_of_list _ = 0

unfoldable length_of_map : {C : Type 0} → LoroValue C → ℕ
length_of_map (LoroValue.map m) = map_len m
length_of_map _ = 0

unfoldable keys_not_serialized : List ℕ → List ℕ
keys_not_serialized e = ascii "failed to serialize map keys to JSON: " ++ e

module _ {loro : Loro} where
  -- `match &value.0 { InnerValue::List(l) => l, _ => return .. }`.
  unfoldable pub list_of :
      {R : Type 0} → LoroValue loro.ContainerId → R → Body loro R (Values loro.ContainerId)
  list_of (LoroValue.list xs) r = pure xs
  list_of _ r = fail not_a_list r

  unfoldable pub map_of :
      {R : Type 0} → LoroValue loro.ContainerId → R → Body loro R (Entries loro.ContainerId)
  map_of (LoroValue.map m) r = pure m
  map_of _ r = fail not_a_map r

  pub loro_value_list_push : Ptr → Ptr → Entry loro LoroStatus
  loro_value_list_push p child = ffi_guard loro_err_panic do
    v ← deref_or (as_value loro) p loro_err_invalid_arg
    c ← deref_or (as_value loro) child loro_err_invalid_arg
    items ← list_of v loro_err_invalid_arg
    store p (value (LoroValue.list (push items c)))
    pure loro_ok

  pub loro_value_map_insert : Ptr → Ptr → ℕ → Ptr → Entry loro LoroStatus
  loro_value_map_insert p key key_len child = ffi_guard loro_err_panic do
    v ← deref_or (as_value loro) p loro_err_invalid_arg
    found ← str_from_raw key key_len
    k ← or_return found loro_err_utf8
    c ← deref_or (as_value loro) child loro_err_invalid_arg
    entries ← map_of v loro_err_invalid_arg
    store p (value (LoroValue.map (insert entries k c)))
    pure loro_ok

  pub loro_value_list_len : Ptr → Entry loro ℕ
  loro_value_list_len p = ffi_guard 0 do v ← deref_or (as_value loro) p 0; pure (length_of_list v)

  -- A clone in a new box, or the null pointer with the error recorded.
  pub box_or_fail : Option (LoroValue loro.ContainerId) → List ℕ → Body loro Ptr Ptr
  box_or_fail none msg = fail msg null_ptr
  box_or_fail (some v) msg = box_value v

  pub loro_value_list_get : Ptr → ℕ → Entry loro Ptr
  loro_value_list_get p index = ffi_guard null_ptr do
    v ← deref_or (as_value loro) p null_ptr
    xs ← list_of v null_ptr
    box_or_fail (get xs index) index_out_of_bounds

  unfoldable loro_value_map_len : Ptr → Entry loro ℕ
  loro_value_map_len p = ffi_guard 0 do v ← deref_or (as_value loro) p 0; pure (length_of_map v)

  pub loro_value_map_get : Ptr → Ptr → ℕ → Entry loro Ptr
  loro_value_map_get p key key_len = ffi_guard null_ptr do
    v ← deref_or (as_value loro) p null_ptr
    found ← str_from_raw key key_len
    k ← or_return found null_ptr
    m ← map_of v null_ptr
    box_or_fail (lookup m k) key_not_found

  write_keys : List (List ℕ) → Ptr → Body loro LoroStatus LoroStatus
  write_keys ks out = elim (loro.json_key_bytes ks) [
    | ok bytes ↦ do write_bytes out bytes; pure loro_ok
    | err e ↦ fail (keys_not_serialized e) loro_err_encode
  ]

  pub loro_value_map_keys : Ptr → Ptr → Entry loro LoroStatus
  loro_value_map_keys p out = ffi_guard loro_err_panic do
    v ← deref_or (as_value loro) p loro_err_invalid_arg
    require_out out loro_err_invalid_arg
    m ← map_of v loro_err_invalid_arg
    write_keys (keys m) out
