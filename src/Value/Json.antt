-- ===== src/Value/Json.antt =====
-- loro-c-api/src/value.rs: values as JSON text, and the idioms in which other files write JSON and
-- read slices and strings.
pub mod Steps
use loro_c.Base.{
  ℕ, ◌==◌, not, ◌&&◌, if◌then◌else◌, Option, none, some, List, ascii, Result, ok, err, ◌++◌,
}
use loro_c.World.{Loro, Ptr, null_ptr, ByteVec, LoroValue, Obj, Call}
use loro_c.Error.{LoroStatus, loro_ok, loro_err_encode}
use loro_c.Abi.{Body, ◌>>=◌, ◌>>◌, pure, fail, record_error, load, store, call}
use loro_c.Value.{str_from_raw, or_return, bytes_or_empty, write_bytes}

abbrev pub null_value_pointer : List ℕ
null_value_pointer = ascii "null value pointer passed to loro-c-api"

abbrev pub value_not_parsed : List ℕ → List ℕ
value_not_parsed e = ascii "failed to parse value as JSON: " ++ e

abbrev pub value_not_serialized : List ℕ → List ℕ
value_not_serialized e = ascii "failed to serialize value to JSON: " ++ e

abbrev pub null_data_pointer : List ℕ
null_data_pointer = ascii "null data pointer passed to loro-c-api"

module _ {loro : Loro} {R : Type 0} where
  pub parsed :
      Result (LoroValue loro.ContainerId) (List ℕ)
      → Body loro R (Option (LoroValue loro.ContainerId))
  parsed (ok v) = pure (some v)
  parsed (err e) = do record_error (value_not_parsed e); pure none

  pub value_from_json : Ptr → ℕ → Body loro R (Option (LoroValue loro.ContainerId))
  value_from_json p len =
      if (p == null_ptr) && not (len == 0)
      then (do record_error null_value_pointer; pure none)
      else (do bytes ← bytes_or_empty p len; parsed (loro.value_from_json_slice bytes))

  -- `match value_from_json(..) { Some(v) => v, None => return r }`.
  unfoldable pub value_or_return : Ptr → ℕ → R → Body loro R (LoroValue loro.ContainerId)
  value_or_return p len r = do v ← value_from_json p len; or_return v r

  -- `match str_from_raw(..) { Some(s) => s, None => return r }`.
  unfoldable pub string_or_return : Ptr → ℕ → R → Body loro R (List ℕ)
  string_or_return p len r = do s ← str_from_raw p len; or_return s r

  -- `if data.is_null() && len != 0 { .. return r; }` and the slice, empty for length 0.
  unfoldable pub slice_or_return : Ptr → ℕ → R → Body loro R (List ℕ)
  slice_or_return p len r =
      if (p == null_ptr) && not (len == 0) then fail null_data_pointer r else bytes_or_empty p len

  -- `as_ref()` on a callback-scoped pointer, with a message of its own for null.
  unfoldable pub borrowed_or :
      {T : Type 0} → (Obj loro → Option T) → List ℕ → Ptr → R → Body loro R T
  borrowed_or unwrap message p r = if p == null_ptr then fail message r else load unwrap p

  -- A method of `&mut self`, or one that changes what stands behind `&self`: what it made of the
  -- object stays, also when it panics.
  unfoldable pub mutate : {T A : Type 0} → (T → Obj loro) → Ptr → T × Call A → Body loro R A
  mutate wrap p (t, c) = do store p (wrap t); call c

module _ {loro : Loro} where
  -- `match serde_json::to_vec(..) { Ok(bytes) => .., Err(e) => .. }`.
  unfoldable pub write_serialized :
      Result ByteVec (List ℕ) → (List ℕ → List ℕ) → Ptr → Body loro LoroStatus LoroStatus
  write_serialized (ok bytes) message out = do write_bytes out bytes; pure loro_ok
  write_serialized (err e) message out = fail (message e) loro_err_encode

  -- awareness.rs: `write_value_json`.
  unfoldable pub write_value_json :
      Ptr → LoroValue loro.ContainerId → Body loro LoroStatus LoroStatus
  write_value_json out v = write_serialized (loro.value_json_bytes v) value_not_serialized out
