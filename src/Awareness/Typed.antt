-- ===== src/Awareness/Typed.antt =====
-- loro-c-api/src/awareness.rs: the typed surface of an `Awareness`, with values as handles and peer
-- ids as buffers of little-endian u64.
use loro_c.Base.{
  ℕ, ◌==◌, ◌||◌, if◌then◌else◌, Bool, true, false, Option, none, some, List, [], ◌∷◌, ascii, map,
}
use loro_c.World.{Loro, Ptr, null_ptr, LoroValue, PeerInfo, awareness, value, integer_cell}
use loro_c.Error.{LoroStatus, loro_ok, loro_err_invalid_arg, loro_err_panic}
use loro_c.Abi.{
  Body, Entry, ◌>>=◌, ◌>>◌, ffi_guard, pure, fail, call, deref_or, require_out, write_out, into_raw,
  null_out_pointer,
}
use loro_c.Value.{write_bytes}
use loro_c.Value.Json.{slice_or_return, mutate}
use loro_c.ValueTyped.Items.{as_value}
use loro_c.Awareness.{as_awareness, no_local_state}
use loro_c.Awareness.Library.{Presence}
use loro_c.Awareness.PeerIds.{packed}

abbrev no_state_for_peer : List ℕ
no_state_for_peer = ascii "no awareness state for peer"

-- `get_all_states().get(&peer)`.
unfoldable pub state_of : {I : Type 0} → List (ℕ × I) → ℕ → Option I
state_of [] peer = none
state_of ((q, info) ∷ states) peer = if q == peer then some info else state_of states peer

module _ {loro : Loro} where
  -- `if a.is_null() || b.is_null() { .. return r; }`.
  unfoldable pub require_outs : {R : Type 0} → Ptr → Ptr → R → Body loro R (Unit {0})
  require_outs a b r =
      if (a == null_ptr) || (b == null_ptr) then fail null_out_pointer r else pure tt

  unfoldable pub box_or_null : Option (LoroValue loro.ContainerId) → List ℕ → Body loro Ptr Ptr
  box_or_null none message = fail message null_ptr
  box_or_null (some v) message = into_raw (value v)

  unfoldable pub box_state : Option (PeerInfo loro) → Body loro Ptr Ptr
  box_state none = fail no_state_for_peer null_ptr
  box_state (some info) = into_raw (value info.state)

  unfoldable pub write_info : Option (PeerInfo loro) → Ptr → Ptr → Body loro Bool Bool
  write_info none out_counter out_timestamp = pure false
  write_info (some info) out_counter out_timestamp = do
    write_out out_counter (integer_cell info.counter)
    write_out out_timestamp (integer_cell info.timestamp)
    pure true

  module _ (crate : Presence loro) where
    unfoldable pub loro_awareness_set_local_state_value : Ptr → Ptr → Entry loro LoroStatus
    loro_awareness_set_local_state_value p v = ffi_guard loro_err_panic do
      a ← deref_or (as_awareness loro) p loro_err_invalid_arg
      state ← deref_or (as_value loro) v loro_err_invalid_arg
      mutate awareness p (crate.awareness_set_local_state a state)
      pure loro_ok

    unfoldable pub loro_awareness_get_local_state_value : Ptr → Entry loro Ptr
    loro_awareness_get_local_state_value p = ffi_guard null_ptr do
      a ← deref_or (as_awareness loro) p null_ptr
      state ← call (crate.awareness_get_local_state a)
      box_or_null state no_local_state

    unfoldable pub loro_awareness_apply_with_changes :
        Ptr → Ptr → ℕ → Ptr → Ptr → Entry loro LoroStatus
    loro_awareness_apply_with_changes p bytes_at len out_updated out_added =
        ffi_guard loro_err_panic do
          a ← deref_or (as_awareness loro) p loro_err_invalid_arg
          require_outs out_updated out_added loro_err_invalid_arg
          bytes ← slice_or_return bytes_at len loro_err_invalid_arg
          (updated, added) ← mutate awareness p (crate.awareness_apply a bytes)
          write_bytes out_updated (packed updated)
          write_bytes out_added (packed added)
          pure loro_ok

    unfoldable pub loro_awareness_remove_outdated_ids : Ptr → Ptr → Entry loro LoroStatus
    loro_awareness_remove_outdated_ids p out = ffi_guard loro_err_panic do
      a ← deref_or (as_awareness loro) p loro_err_invalid_arg
      require_out out loro_err_invalid_arg
      removed ← mutate awareness p (crate.awareness_remove_outdated a)
      write_bytes out (packed removed)
      pure loro_ok

    unfoldable pub loro_awareness_peer_ids : Ptr → Ptr → Entry loro LoroStatus
    loro_awareness_peer_ids p out = ffi_guard loro_err_panic do
      a ← deref_or (as_awareness loro) p loro_err_invalid_arg
      require_out out loro_err_invalid_arg
      states ← call (crate.awareness_get_all_states a)
      write_bytes out (packed (map (λ s. s.0) states))
      pure loro_ok

    unfoldable pub loro_awareness_get_peer_state_value : Ptr → ℕ → Entry loro Ptr
    loro_awareness_get_peer_state_value p peer = ffi_guard null_ptr do
      a ← deref_or (as_awareness loro) p null_ptr
      states ← call (crate.awareness_get_all_states a)
      box_state (state_of states peer)

    unfoldable pub loro_awareness_get_peer_info : Ptr → ℕ → Ptr → Ptr → Entry loro Bool
    loro_awareness_get_peer_info p peer out_counter out_timestamp = ffi_guard false do
      a ← deref_or (as_awareness loro) p false
      require_outs out_counter out_timestamp false
      states ← call (crate.awareness_get_all_states a)
      write_info (state_of states peer) out_counter out_timestamp
