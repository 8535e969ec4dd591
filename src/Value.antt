-- ===== src/Value.antt =====
-- loro-c-api/src/value.rs: owned byte buffers, and the conversion of string arguments.
pub mod Utf8
pub mod Args
pub mod Buffers
pub mod Json
use loro_c.Base.{
  ℕ, ◌==◌, leb, if◌then◌else◌, Bool, ◌&&◌, not, Option, none, some, List, [], length, ascii, Result,
  ok, err, ◌++◌,
}
use loro_c.World.{
  Loro, World, Ptr, null_ptr, ByteVec, LoroBytes, Obj, buffer, Cell, bytes_cell, update, JsonValue,
}
use loro_c.Error.{LoroStatus, loro_ok, loro_err_encode, set_last_error}
use loro_c.Abi.{
  Step, go, exit, unwinds, undefined, Body, Entry, and_then, ◌>>=◌, ◌>>◌, pure, return, ffi_guard,
  fail, record_error, write_out, slice_from_raw_parts, into_raw,
}
use Utf8.{from_utf8}

abbrev pub null_string_pointer : List ℕ
null_string_pointer = ascii "null string pointer passed to loro-c-api"

abbrev pub not_utf8 : List ℕ
not_utf8 = ascii "argument is not valid UTF-8"

-- The address of a vector that has allocated nothing: non-null, and never freed.
abbrev dangling : Ptr
dangling = 1

-- The box of a buffer.
abbrev as_buffer : (loro : Loro) → Obj loro → Option ByteVec
as_buffer loro (buffer v) = some v
as_buffer loro _ = none

-- `to_vec` of a slice allocates just what it holds.
abbrev pub to_vec : List ℕ → ByteVec
to_vec bytes = record { items = bytes; capacity = length bytes }

module _ {loro : Loro} where
  -- `LoroBytes::from_vec`: the buffer takes the vector's allocation over.
  unfoldable pub from_vec : {R : Type 0} → ByteVec → Body loro R LoroBytes
  from_vec v =
      if v.capacity == 0
      then pure (record { data_ptr = dangling; len = length v.items; cap = 0 })
      else (do
        data_ptr ← into_raw (buffer v)
        pure (record { data_ptr = data_ptr; len = length v.items; cap = v.capacity }))

  -- `drop(Vec::from_raw_parts(data, len, cap))`: undefined unless the three parts are those of a
  -- live allocation; a vector with no allocation frees nothing.
  unfoldable pub drop_vec : {R : Type 0} → LoroBytes → Body loro R (Unit {0})
  drop_vec bytes w = if bytes.cap == 0 then go tt w else elim (w.heap bytes.data_ptr) [
    | some (buffer v) ↦
        if (v.capacity == bytes.cap) && leb bytes.len bytes.cap
        then go tt (record w { heap = update w.heap bytes.data_ptr none })
        else undefined
    | _ ↦ undefined
  ]

  pub loro_bytes_free : LoroBytes → Entry loro (Unit {0})
  loro_bytes_free bytes =
      ffi_guard tt (if bytes.data_ptr == null_ptr then pure tt else drop_vec bytes)

  module _ {R : Type 0} where
    -- `out.write(LoroBytes::from_vec(v))`.
    unfoldable pub write_bytes : Ptr → ByteVec → Body loro R (Unit {0})
    write_bytes out v = do bytes ← from_vec v; write_out out (bytes_cell bytes)

    -- `match o { Some(x) => x, None => return r }`.
    unfoldable pub or_return : {T : Type 0} → Option T → R → Body loro R T
    or_return none r w = exit r w
    or_return (some t) r w = go t w

    -- An empty slice for length 0, whatever the pointer.
    unfoldable pub bytes_or_empty : Ptr → ℕ → Body loro R (List ℕ)
    bytes_or_empty p len = if len == 0 then pure [] else slice_from_raw_parts p len

    unfoldable pub checked_utf8 : List ℕ → Body loro R (Option (List ℕ))
    checked_utf8 bytes =
        if from_utf8 bytes then pure (some bytes) else do record_error not_utf8; pure none

    unfoldable pub str_from_raw : Ptr → ℕ → Body loro R (Option (List ℕ))
    str_from_raw p len =
        if (p == null_ptr) && not (len == 0)
        then (do record_error null_string_pointer; pure none)
        else (do bytes ← bytes_or_empty p len; checked_utf8 bytes)
