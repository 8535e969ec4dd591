-- ===== src/Container/Counter.antt =====
-- loro-c-api/src/container/counter.rs. An f64 is its bit pattern.
use loro_c.Base.{ℕ, Bool, false, Option, none, some, Result}
use loro_c.World.{Loro, Ptr, null_ptr, Obj, counter_handle, Call, LoroError}
use loro_c.Error.{LoroStatus, loro_err_invalid_arg, loro_err_panic}
use loro_c.Abi.{Entry, ◌>>=◌, ffi_guard, call, deref_or, free_box}
use loro_c.Subscribe.{Subscriber}
use loro_c.Container.Common.{
  Handle, Handled, changed_by, id_body, attached_body, doc_body, subscribe_body,
}

-- The methods of loro::LoroCounter.
pub record Counters (loro : Loro) : Type 0 where
  pub methods : Handled loro loro.LoroCounter
  pub counter_increment :
      loro.LoroCounter → ℕ → loro.LoroCounter × Call (Result (Unit {0}) LoroError)
  pub counter_decrement :
      loro.LoroCounter → ℕ → loro.LoroCounter × Call (Result (Unit {0}) LoroError)
  pub counter_get_value : loro.LoroCounter → Call ℕ

abbrev as_counter : (loro : Loro) → Obj loro → Option loro.LoroCounter
as_counter loro (counter_handle c) = some c
as_counter loro _ = none

abbrev counter_boxes : (loro : Loro) → Handle loro loro.LoroCounter
counter_boxes loro = record { boxed = counter_handle; unboxed = as_counter loro }

module _ {loro : Loro} where
  unfoldable loro_counter_free : Ptr → Entry loro (Unit {0})
  loro_counter_free p = ffi_guard tt (free_box (as_counter loro) p)

  module _ (crate : Counters loro) where
    unfoldable loro_counter_id : Ptr → Ptr → Entry loro LoroStatus
    loro_counter_id p out =
        ffi_guard loro_err_panic (id_body (counter_boxes loro) crate.methods p out)

    unfoldable loro_counter_increment : Ptr → ℕ → Entry loro LoroStatus
    loro_counter_increment p x = ffi_guard loro_err_panic do
      c ← deref_or (as_counter loro) p loro_err_invalid_arg
      changed_by (counter_boxes loro) p (crate.counter_increment c x)

    unfoldable loro_counter_decrement : Ptr → ℕ → Entry loro LoroStatus
    loro_counter_decrement p x = ffi_guard loro_err_panic do
      c ← deref_or (as_counter loro) p loro_err_invalid_arg
      changed_by (counter_boxes loro) p (crate.counter_decrement c x)

    -- 0 is the bit pattern of 0.0.
    unfoldable loro_counter_get_value : Ptr → Entry loro ℕ
    loro_counter_get_value p =
        ffi_guard 0 do c ← deref_or (as_counter loro) p 0; call (crate.counter_get_value c)

    unfoldable loro_counter_is_deleted : Ptr → Entry loro Bool
    loro_counter_is_deleted p =
        ffi_guard false do c ← deref_or (as_counter loro) p false; call (crate.methods.is_deleted c)

    unfoldable loro_counter_is_attached : Ptr → Entry loro Bool
    loro_counter_is_attached p =
        ffi_guard false
          do c ← deref_or (as_counter loro) p false; call (crate.methods.is_attached c)

    unfoldable loro_counter_get_attached : Ptr → Entry loro Ptr
    loro_counter_get_attached p =
        ffi_guard null_ptr (attached_body (counter_boxes loro) crate.methods p)

    unfoldable loro_counter_doc : Ptr → Entry loro Ptr
    loro_counter_doc p = ffi_guard null_ptr (doc_body (counter_boxes loro) crate.methods p)

    unfoldable loro_counter_subscribe : Ptr → Subscriber → Entry loro Ptr
    loro_counter_subscribe p callback =
        ffi_guard null_ptr (subscribe_body (counter_boxes loro) crate.methods p callback)
