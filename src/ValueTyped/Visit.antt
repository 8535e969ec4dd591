-- ===== src/ValueTyped/Visit.antt =====
-- loro-c-api/src/callbacks.rs, and the map visitor of loro-c-api/src/value_typed.rs. The C function
-- is a function of what it is given; what it does to the library's own state is not modelled.
pub mod Laws
use loro_c.Base.{ℕ, if◌then◌else◌, Bool, List}
use loro_c.World.{Loro, Ptr, Entries, end, entry, LoroValue, invoked, freed}
use loro_c.Error.{LoroStatus, loro_ok, loro_err_invalid_arg, loro_err_panic, set_last_error}
use loro_c.Abi.{
  Step, go, exit, unwinds, undefined, Entry, Body, and_then, ◌>>=◌, ◌>>◌, ffi_guard, pure, deref_or,
  emit,
}
use loro_c.ValueTyped.Items.{as_value}
use loro_c.ValueTyped.Compound.{map_of}

-- `CCallback<F>`: the function, its data, and whether there is a destructor.
pub record CCallback (F : Type 0) : Type 0 where
  pub invoke : F
  pub user_data : ℕ
  pub free_user_data : Bool

pub record LoroValueMapVisitor (C : Type 0) : Type 0 where
  pub invoke : List ℕ → LoroValue C → Bool
  pub user_data : ℕ
  pub free_user_data : Bool

module _ {loro : Loro} where
  -- `Drop for CCallback`.
  pub drop_callback : {R F : Type 0} → CCallback F → Body loro R (Unit {0})
  drop_callback cb = if cb.free_user_data then emit (freed cb.user_data) else pure tt

  drop_after : {R F A : Type 0} → CCallback F → Step loro R A → Step loro R A
  drop_after cb (go a w) = and_then (drop_callback cb w) (λ _. pure a)
  drop_after cb (exit r w) = and_then (drop_callback cb w) (λ _ w'. exit r w')
  drop_after cb (unwinds w) = and_then (drop_callback cb w) (λ _ w'. unwinds w')
  drop_after cb undefined = undefined

  -- A local `cb` is dropped wherever the body is left, by a value, a `return` or a panic.
  drop_at_exit : {R F A : Type 0} → CCallback F → Body loro R A → Body loro R A
  drop_at_exit cb body w = drop_after cb (body w)

  pub visit :
      {R : Type 0}
      → CCallback (List ℕ → LoroValue loro.ContainerId → Bool)
      → Entries loro.ContainerId
      → Body loro R (Unit {0})
  visit cb end = pure tt
  visit cb (entry k v m) =
      let rest = visit cb m in
      do emit (invoked k cb.user_data); if cb.invoke k v then rest else pure tt

  -- The entries come in the order of the hash map's iterator.
  pub loro_value_map_for_each : Ptr → LoroValueMapVisitor loro.ContainerId → Entry loro LoroStatus
  loro_value_map_for_each p visitor =
      let cb : CCallback (List ℕ → LoroValue loro.ContainerId → Bool) = record {
        invoke = visitor.invoke;
        user_data = visitor.user_data;
        free_user_data = visitor.free_user_data;
      } in
      ffi_guard loro_err_panic (
        drop_at_exit cb (do
          v ← deref_or (as_value loro) p loro_err_invalid_arg
          entries ← map_of v loro_err_invalid_arg
          visit cb entries
          pure loro_ok))
