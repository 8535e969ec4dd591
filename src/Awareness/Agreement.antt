-- ===== src/Awareness/Agreement.antt =====
-- The JSON surface and the typed surface of presence do the same.
use loro_c.Base.{ℕ, ◌≡◌, ◌≢◌, ap, sym, ◌∙◌, take, ok}
use loro_c.Error.{loro_err_panic, loro_err_invalid_arg}
use loro_c.World.{Loro, World, Ptr, null_ptr, LoroValue}
use loro_c.Abi.{finish}
use loro_c.Abi.Laws.{Points, Readable, after}
use loro_c.Value.Json.Steps.{deref_or-live, value_or_return-parsed}
use loro_c.ValueTyped.Items.{as_value}
use loro_c.Awareness.{as_awareness, loro_awareness_set_local_state}
use loro_c.Awareness.Library.{Presence}
use loro_c.Awareness.Typed.{loro_awareness_set_local_state_value}

-- A live awareness is given the value of a live handle, or a JSON text that serde_json parses to
-- that value: the two calls have the same outcome, with the same status and the same world after it.
pub set_local_state-Agrees :
    {loro : Loro} (crate : Presence loro) (w : World loro) (p v json : Ptr) (json_len : ℕ)
    (a : loro.Awareness) (x : LoroValue loro.ContainerId)
    → Points (as_awareness loro) w p a
    → Points (as_value loro) w v x
    → json ≢ null_ptr
    → Readable w json json_len
    → loro.value_from_json_slice (take json_len (w.c_data json)) ≡ ok x
    → loro_awareness_set_local_state crate p json json_len w
      ≡ loro_awareness_set_local_state_value crate p v w
unfolding loro_awareness_set_local_state loro_awareness_set_local_state_value
set_local_state-Agrees {loro} crate w p v json json_len a x at_p at_v ne readable parses =
    ap (finish loro_err_panic) (
      after _ (deref_or-live w p (as_awareness loro) loro_err_invalid_arg at_p)
      ∙ after _ (value_or_return-parsed w json json_len ne readable loro_err_invalid_arg x parses)
      ∙ sym (
          after _ (deref_or-live w p (as_awareness loro) loro_err_invalid_arg at_p)
          ∙ after _ (deref_or-live w v (as_value loro) loro_err_invalid_arg at_v)))
