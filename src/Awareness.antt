-- ===== src/Awareness.antt =====
-- loro-c-api/src/awareness.rs: the handle of an `Awareness`, whose values cross as JSON text.
pub mod Library
pub mod PeerIds
pub mod Typed
pub mod Ephemeral
pub mod Events
pub mod Laws
pub mod Subscribers
pub mod Agreement
use loro_c.Base.{
  ℕ, ◌==◌, leb, if◌then◌else◌, Option, none, some, List, [], ◌∷◌, ◌++◌, ascii, length, take,
}
use loro_c.Base.Int.{ℤ}
use loro_c.World.{
  Loro, Ptr, null_ptr, Obj, awareness, LoroValue, PeerInfo, JsonValue, JsonFields, null_json,
  number, object, end_json, field_json,
}
use loro_c.Error.{LoroStatus, loro_ok, loro_err_invalid_arg, loro_err_not_found, loro_err_panic}
use loro_c.Abi.{
  Body, Entry, go, undefined, ◌>>=◌, ◌>>◌, ffi_guard, pure, fail, call, deref_or, require_out,
  into_raw, free_box,
}
use loro_c.Value.{write_bytes}
use loro_c.Value.Json.{value_or_return, slice_or_return, mutate, write_serialized, write_value_json}
use Library.{Presence}
use PeerIds.{decimal}

abbrev pub as_awareness : (loro : Loro) → Obj loro → Option loro.Awareness
as_awareness loro (awareness a) = some a
as_awareness loro _ = none

abbrev pub no_local_state : List ℕ
no_local_state = ascii "no local awareness state set"

abbrev null_peers_pointer : List ℕ
null_peers_pointer = ascii "null peers pointer passed to loro-c-api"

abbrev states_not_serialized : List ℕ → List ℕ
states_not_serialized e = ascii "failed to serialize awareness states: " ++ e

-- `serde_json::to_value(..).unwrap_or(JsonValue::Null)`.
unfoldable pub json_or_null : Option JsonValue → JsonValue
json_or_null none = null_json
json_or_null (some j) = j

module _ {loro : Loro} where
  -- `slice::from_raw_parts` on an array of peer ids, `none` for the null pointer.
  unfoldable pub read_peers : Option (List ℕ) → ℕ → Body loro LoroStatus (List ℕ)
  read_peers none count w =
      (if count == 0 then pure [] else fail null_peers_pointer loro_err_invalid_arg) w
  read_peers (some peers) count w =
      if leb count (length peers) then go (take count peers) w else undefined

  -- One entry of the map that `loro_awareness_get_all_states` writes.
  unfoldable pub peer_json : PeerInfo loro → JsonValue
  peer_json info = object (
      field_json (ascii "state") (json_or_null (loro.value_to_json info.state)) (
        field_json (ascii "counter") (number info.counter)
          (field_json (ascii "timestamp") (number info.timestamp) end_json)))

  unfoldable pub peer_fields : List (ℕ × PeerInfo loro) → JsonFields
  peer_fields [] = end_json
  peer_fields ((peer, info) ∷ states) =
      field_json (decimal peer) (peer_json info) (peer_fields states)

  pub write_local_state :
      Option (LoroValue loro.ContainerId) → Ptr → Body loro LoroStatus LoroStatus
  write_local_state none out = fail no_local_state loro_err_not_found
  write_local_state (some v) out = write_value_json out v

  module _ (crate : Presence loro) where
    unfoldable pub loro_awareness_new : ℕ → ℤ → Entry loro Ptr
    loro_awareness_new peer timeout =
        ffi_guard null_ptr do a ← call (crate.awareness_new peer timeout); into_raw (awareness a)

    pub loro_awareness_free : Ptr → Entry loro (Unit {0})
    loro_awareness_free p = ffi_guard tt (free_box (as_awareness loro) p)

    pub loro_awareness_peer : Ptr → Entry loro ℕ
    loro_awareness_peer p =
        ffi_guard 0 do a ← deref_or (as_awareness loro) p 0; call (crate.awareness_peer a)

    pub loro_awareness_set_local_state : Ptr → Ptr → ℕ → Entry loro LoroStatus
    loro_awareness_set_local_state p json json_len = ffi_guard loro_err_panic do
      a ← deref_or (as_awareness loro) p loro_err_invalid_arg
      value ← value_or_return json json_len loro_err_invalid_arg
      mutate awareness p (crate.awareness_set_local_state a value)
      pure loro_ok

    pub loro_awareness_get_local_state : Ptr → Ptr → Entry loro LoroStatus
    loro_awareness_get_local_state p out = ffi_guard loro_err_panic do
      a ← deref_or (as_awareness loro) p loro_err_invalid_arg
      require_out out loro_err_invalid_arg
      state ← call (crate.awareness_get_local_state a)
      write_local_state state out

    pub loro_awareness_encode_all : Ptr → Ptr → Entry loro LoroStatus
    loro_awareness_encode_all p out = ffi_guard loro_err_panic do
      a ← deref_or (as_awareness loro) p loro_err_invalid_arg
      require_out out loro_err_invalid_arg
      bytes ← call (crate.awareness_encode_all a)
      write_bytes out bytes
      pure loro_ok

    pub loro_awareness_encode : Ptr → Option (List ℕ) → ℕ → Ptr → Entry loro LoroStatus
    loro_awareness_encode p peers count out = ffi_guard loro_err_panic do
      a ← deref_or (as_awareness loro) p loro_err_invalid_arg
      require_out out loro_err_invalid_arg
      slice ← read_peers peers count
      bytes ← call (crate.awareness_encode a slice)
      write_bytes out bytes
      pure loro_ok

    pub loro_awareness_apply : Ptr → Ptr → ℕ → Entry loro LoroStatus
    loro_awareness_apply p bytes_at len = ffi_guard loro_err_panic do
      a ← deref_or (as_awareness loro) p loro_err_invalid_arg
      bytes ← slice_or_return bytes_at len loro_err_invalid_arg
      changes ← mutate awareness p (crate.awareness_apply a bytes)
      pure loro_ok

    pub loro_awareness_remove_outdated : Ptr → Entry loro LoroStatus
    loro_awareness_remove_outdated p = ffi_guard loro_err_panic do
      a ← deref_or (as_awareness loro) p loro_err_invalid_arg
      removed ← mutate awareness p (crate.awareness_remove_outdated a)
      pure loro_ok

    pub loro_awareness_get_all_states : Ptr → Ptr → Entry loro LoroStatus
    loro_awareness_get_all_states p out = ffi_guard loro_err_panic do
      a ← deref_or (as_awareness loro) p loro_err_invalid_arg
      require_out out loro_err_invalid_arg
      states ← call (crate.awareness_get_all_states a)
      write_serialized (loro.json_bytes (object (peer_fields states))) states_not_serialized out
