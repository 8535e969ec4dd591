-- ===== src/Awareness/Ephemeral.antt =====
-- loro-c-api/src/awareness.rs: the handle of an `EphemeralStore` and its subscriptions. The methods
-- of a store take `&self`; what they change stands behind it.
use loro_c.Base.{ℕ, Option, none, some, List, [], ◌∷◌, ◌++◌, ascii, Result, ok, err}
use loro_c.Base.Int.{ℤ}
use loro_c.World.{
  Loro, Ptr, null_ptr, Obj, ephemeral_store, subscription, LoroValue, JsonItems, JsonFields,
  nil_json, cons_json, end_json, field_json, text_json, array, object,
}
use loro_c.Error.{
  LoroStatus, loro_ok, loro_err_invalid_arg, loro_err_not_found, loro_err_decode, loro_err_panic,
}
use loro_c.Abi.{
  Body, Entry, ◌>>=◌, ◌>>◌, ffi_guard, pure, fail, call, deref_or, require_out, into_raw, free_box,
}
use loro_c.Value.{write_bytes}
use loro_c.Value.Json.{
  value_or_return, string_or_return, slice_or_return, mutate, write_serialized, write_value_json,
}
use loro_c.ValueTyped.Items.{as_value}
use loro_c.Subscribe.{Subscriber, hand_over, held_during}
use loro_c.Awareness.{json_or_null}
use loro_c.Awareness.Library.{Presence}
use loro_c.Awareness.Typed.{box_or_null}

abbrev pub as_store : (loro : Loro) → Obj loro → Option loro.EphemeralStore
as_store loro (ephemeral_store s) = some s
as_store loro _ = none

abbrev no_value_for_key : List ℕ
no_value_for_key = ascii "no ephemeral value for key"

abbrev pub keys_not_serialized : List ℕ → List ℕ
keys_not_serialized e = ascii "failed to serialize ephemeral keys: " ++ e

abbrev states_not_serialized : List ℕ → List ℕ
states_not_serialized e = ascii "failed to serialize ephemeral states: " ++ e

-- `.map(JsonValue::from).collect()`.
pub key_items : List (List ℕ) → JsonItems
key_items [] = nil_json
key_items (k ∷ ks) = cons_json (text_json k) (key_items ks)

unfoldable pub state_fields :
    (loro : Loro) → List (List ℕ × LoroValue loro.ContainerId) → JsonFields
state_fields loro [] = end_json
state_fields loro ((k, v) ∷ states) =
    field_json k (json_or_null (loro.value_to_json v)) (state_fields loro states)

module _ {loro : Loro} where
  unfoldable pub write_found :
      Option (LoroValue loro.ContainerId) → Ptr → Body loro LoroStatus LoroStatus
  write_found none out = fail no_value_for_key loro_err_not_found
  write_found (some v) out = write_value_json out v

  unfoldable pub applied : Result (Unit {0}) (List ℕ) → Body loro LoroStatus LoroStatus
  applied (ok _) = pure loro_ok
  applied (err e) = fail e loro_err_decode

  module _ (crate : Presence loro) where
    unfoldable pub loro_ephemeral_store_new : ℤ → Entry loro Ptr
    loro_ephemeral_store_new timeout =
        ffi_guard null_ptr do s ← call (crate.store_new timeout); into_raw (ephemeral_store s)

    unfoldable pub loro_ephemeral_store_free : Ptr → Entry loro (Unit {0})
    loro_ephemeral_store_free p = ffi_guard tt (free_box (as_store loro) p)

    unfoldable pub loro_ephemeral_store_set : Ptr → Ptr → ℕ → Ptr → ℕ → Entry loro LoroStatus
    loro_ephemeral_store_set p key key_len json json_len = ffi_guard loro_err_panic do
      s ← deref_or (as_store loro) p loro_err_invalid_arg
      k ← string_or_return key key_len loro_err_invalid_arg
      v ← value_or_return json json_len loro_err_invalid_arg
      mutate ephemeral_store p (crate.store_set s k v)
      pure loro_ok

    unfoldable pub loro_ephemeral_store_get : Ptr → Ptr → ℕ → Ptr → Entry loro LoroStatus
    loro_ephemeral_store_get p key key_len out = ffi_guard loro_err_panic do
      s ← deref_or (as_store loro) p loro_err_invalid_arg
      require_out out loro_err_invalid_arg
      k ← string_or_return key key_len loro_err_invalid_arg
      found ← call (crate.store_get s k)
      write_found found out

    unfoldable pub loro_ephemeral_store_set_value : Ptr → Ptr → ℕ → Ptr → Entry loro LoroStatus
    loro_ephemeral_store_set_value p key key_len v = ffi_guard loro_err_panic do
      s ← deref_or (as_store loro) p loro_err_invalid_arg
      k ← string_or_return key key_len loro_err_invalid_arg
      state ← deref_or (as_value loro) v loro_err_invalid_arg
      mutate ephemeral_store p (crate.store_set s k state)
      pure loro_ok

    unfoldable pub loro_ephemeral_store_get_value : Ptr → Ptr → ℕ → Entry loro Ptr
    loro_ephemeral_store_get_value p key key_len = ffi_guard null_ptr do
      s ← deref_or (as_store loro) p null_ptr
      k ← string_or_return key key_len null_ptr
      found ← call (crate.store_get s k)
      box_or_null found no_value_for_key

    unfoldable pub loro_ephemeral_store_delete : Ptr → Ptr → ℕ → Entry loro LoroStatus
    loro_ephemeral_store_delete p key key_len = ffi_guard loro_err_panic do
      s ← deref_or (as_store loro) p loro_err_invalid_arg
      k ← string_or_return key key_len loro_err_invalid_arg
      mutate ephemeral_store p (crate.store_delete s k)
      pure loro_ok

    unfoldable pub loro_ephemeral_store_encode : Ptr → Ptr → ℕ → Ptr → Entry loro LoroStatus
    loro_ephemeral_store_encode p key key_len out = ffi_guard loro_err_panic do
      s ← deref_or (as_store loro) p loro_err_invalid_arg
      require_out out loro_err_invalid_arg
      k ← string_or_return key key_len loro_err_invalid_arg
      bytes ← call (crate.store_encode s k)
      write_bytes out bytes
      pure loro_ok

    unfoldable pub loro_ephemeral_store_encode_all : Ptr → Ptr → Entry loro LoroStatus
    loro_ephemeral_store_encode_all p out = ffi_guard loro_err_panic do
      s ← deref_or (as_store loro) p loro_err_invalid_arg
      require_out out loro_err_invalid_arg
      bytes ← call (crate.store_encode_all s)
      write_bytes out bytes
      pure loro_ok

    unfoldable pub loro_ephemeral_store_apply : Ptr → Ptr → ℕ → Entry loro LoroStatus
    loro_ephemeral_store_apply p bytes_at len = ffi_guard loro_err_panic do
      s ← deref_or (as_store loro) p loro_err_invalid_arg
      bytes ← slice_or_return bytes_at len loro_err_invalid_arg
      answer ← mutate ephemeral_store p (crate.store_apply s bytes)
      applied answer

    unfoldable pub loro_ephemeral_store_remove_outdated : Ptr → Entry loro LoroStatus
    loro_ephemeral_store_remove_outdated p = ffi_guard loro_err_panic do
      s ← deref_or (as_store loro) p loro_err_invalid_arg
      mutate ephemeral_store p (crate.store_remove_outdated s)
      pure loro_ok

    unfoldable pub loro_ephemeral_store_keys : Ptr → Ptr → Entry loro LoroStatus
    loro_ephemeral_store_keys p out = ffi_guard loro_err_panic do
      s ← deref_or (as_store loro) p loro_err_invalid_arg
      require_out out loro_err_invalid_arg
      keys ← call (crate.store_keys s)
      write_serialized (loro.json_bytes (array (key_items keys))) keys_not_serialized out

    unfoldable pub loro_ephemeral_store_get_all_states : Ptr → Ptr → Entry loro LoroStatus
    loro_ephemeral_store_get_all_states p out = ffi_guard loro_err_panic do
      s ← deref_or (as_store loro) p loro_err_invalid_arg
      require_out out loro_err_invalid_arg
      states ← call (crate.store_get_all_states s)
      write_serialized (loro.json_bytes (object (state_fields loro states))) states_not_serialized
          out

    -- `LoroEphemeralSubscriber` implements `Drop`; `LoroLocalUpdateCallback` does not.
    unfoldable pub loro_ephemeral_store_subscribe : Ptr → Subscriber → Entry loro Ptr
    loro_ephemeral_store_subscribe p callback = ffi_guard null_ptr do
      s ← held_during callback (deref_or (as_store loro) p null_ptr)
      sub ← hand_over callback (crate.store_subscribe s)
      into_raw (subscription sub)

    unfoldable pub loro_ephemeral_store_subscribe_local_updates : Ptr → Subscriber → Entry loro Ptr
    loro_ephemeral_store_subscribe_local_updates p callback = ffi_guard null_ptr do
      s ← deref_or (as_store loro) p null_ptr
      sub ← hand_over callback (crate.store_subscribe_local_updates s)
      into_raw (subscription sub)
