-- ===== src/Event.antt =====
-- loro-c-api/src/event.rs: what a subscriber may ask of an event while its callback runs, and
-- `loro_subscription_detach`. The functions that subscribe are in Subscribe.
pub mod Json
use loro_c.Base.{
  ℕ, ◌==◌, if◌then◌else◌, Bool, false, Option, none, some, List, ascii, ◌++◌, length, get_elem?,
}
use loro_c.World.{
  Loro, Ptr, null_ptr, Obj, diff_event, container_diff, DiffEvent, ContainerDiff, EventTriggerKind,
  local, import, checkout, Diff, text_diff, list_diff, map_diff, tree_diff, counter_diff,
  unknown_diff,
}
use loro_c.Error.{LoroStatus, loro_ok, loro_err_invalid_arg, loro_err_not_found, loro_err_panic}
use loro_c.Abi.{Body, Entry, ◌>>=◌, ◌>>◌, ffi_guard, pure, fail, call, load, free_box, require_out}
use loro_c.Value.{write_bytes, to_vec}
use loro_c.Value.Json.{borrowed_or, write_serialized}
use loro_c.Subscribe.{as_subscription}
use Json.{Diffs, diff_to_json, path_to_json}

pub data LoroEventTriggerKind : Type 0 where
  loro_event_trigger_local loro_event_trigger_import loro_event_trigger_checkout :
      LoroEventTriggerKind

pub data LoroDiffKind : Type 0 where
  loro_diff_list loro_diff_text loro_diff_map loro_diff_tree loro_diff_counter : LoroDiffKind
  loro_diff_unknown : LoroDiffKind

abbrev as_diff_event : (loro : Loro) → Obj loro → Option (DiffEvent loro)
as_diff_event loro (diff_event e) = some e
as_diff_event loro _ = none

abbrev as_container_diff : (loro : Loro) → Obj loro → Option (ContainerDiff loro)
as_container_diff loro (container_diff d) = some d
as_container_diff loro _ = none

abbrev null_event_pointer : List ℕ
null_event_pointer = ascii "null diff event pointer passed to loro-c-api"

abbrev null_diff_pointer : List ℕ
null_diff_pointer = ascii "null container diff pointer passed to loro-c-api"

abbrev no_current_target : List ℕ
no_current_target = ascii "event has no current target"

abbrev diff_out_of_range : List ℕ
diff_out_of_range = ascii "container diff index out of range"

abbrev pub diff_not_serialized : List ℕ → List ℕ
diff_not_serialized e = ascii "failed to serialize diff to JSON: " ++ e

unfoldable trigger_of : EventTriggerKind → LoroEventTriggerKind
trigger_of local = loro_event_trigger_local
trigger_of import = loro_event_trigger_import
trigger_of checkout = loro_event_trigger_checkout

module _ {loro : Loro} where
  unfoldable kind_of : Diff loro → LoroDiffKind
  kind_of (list_diff _) = loro_diff_list
  kind_of (text_diff _) = loro_diff_text
  kind_of (map_diff _) = loro_diff_map
  kind_of (tree_diff _) = loro_diff_tree
  kind_of (counter_diff _) = loro_diff_counter
  kind_of unknown_diff = loro_diff_unknown

  unfoldable event_ref : {R : Type 0} → Ptr → R → Body loro R (DiffEvent loro)
  event_ref ev r = borrowed_or (as_diff_event loro) null_event_pointer ev r

  unfoldable container_diff_ref : {R : Type 0} → Ptr → R → Body loro R (ContainerDiff loro)
  container_diff_ref cd r = borrowed_or (as_container_diff loro) null_diff_pointer cd r

  unfoldable loro_diff_event_triggered_by : Ptr → Entry loro LoroEventTriggerKind
  loro_diff_event_triggered_by ev =
      ffi_guard loro_event_trigger_local
        do e ← event_ref ev loro_event_trigger_local; pure (trigger_of e.triggered_by)

  unfoldable loro_diff_event_origin : Ptr → Ptr → Entry loro LoroStatus
  loro_diff_event_origin ev out = ffi_guard loro_err_panic do
    e ← event_ref ev loro_err_invalid_arg
    require_out out loro_err_invalid_arg
    write_bytes out (to_vec e.origin)
    pure loro_ok

  unfoldable write_target : Option loro.ContainerId → Ptr → Body loro LoroStatus LoroStatus
  write_target none out = fail no_current_target loro_err_not_found
  write_target (some cid) out = do write_bytes out (loro.container_id_text cid); pure loro_ok

  unfoldable loro_diff_event_current_target : Ptr → Ptr → Entry loro LoroStatus
  loro_diff_event_current_target ev out = ffi_guard loro_err_panic do
    e ← event_ref ev loro_err_invalid_arg
    require_out out loro_err_invalid_arg
    write_target e.current_target out

  unfoldable loro_diff_event_count : Ptr → Entry loro ℕ
  loro_diff_event_count ev = ffi_guard 0 do e ← event_ref ev 0; pure (length e.events)

  -- The address of the element inside the event's vector.
  unfoldable diff_pointer : Option Ptr → Body loro Ptr Ptr
  diff_pointer none = fail diff_out_of_range null_ptr
  diff_pointer (some cd) = pure cd

  unfoldable loro_diff_event_get : Ptr → ℕ → Entry loro Ptr
  loro_diff_event_get ev index =
      ffi_guard null_ptr do e ← event_ref ev null_ptr; diff_pointer (get_elem? e.events index)

  unfoldable loro_container_diff_target : Ptr → Ptr → Entry loro LoroStatus
  loro_container_diff_target cd out = ffi_guard loro_err_panic do
    d ← container_diff_ref cd loro_err_invalid_arg
    require_out out loro_err_invalid_arg
    write_bytes out (loro.container_id_text d.target)
    pure loro_ok

  unfoldable loro_container_diff_is_unknown : Ptr → Entry loro Bool
  loro_container_diff_is_unknown cd =
      ffi_guard false do d ← container_diff_ref cd false; pure d.is_unknown

  unfoldable loro_container_diff_kind : Ptr → Entry loro LoroDiffKind
  loro_container_diff_kind cd =
      ffi_guard loro_diff_unknown
        do d ← container_diff_ref cd loro_diff_unknown; pure (kind_of d.diff)

  unfoldable loro_container_diff_path_json : Ptr → Ptr → Entry loro LoroStatus
  loro_container_diff_path_json cd out = ffi_guard loro_err_panic do
    d ← container_diff_ref cd loro_err_invalid_arg
    require_out out loro_err_invalid_arg
    write_serialized (loro.json_bytes (path_to_json loro d.path)) diff_not_serialized out

  module _ (crate : Diffs loro) where
    unfoldable loro_subscription_detach : Ptr → Entry loro (Unit {0})
    loro_subscription_detach p = ffi_guard tt (
        if p == null_ptr then pure tt else (do
          sub ← load (as_subscription loro) p
          free_box (as_subscription loro) p
          call (crate.detach sub)))

    unfoldable loro_container_diff_to_json : Ptr → Ptr → Entry loro LoroStatus
    loro_container_diff_to_json cd out = ffi_guard loro_err_panic do
      d ← container_diff_ref cd loro_err_invalid_arg
      require_out out loro_err_invalid_arg
      value ← call (diff_to_json crate d.diff)
      write_serialized (loro.json_bytes value) diff_not_serialized out
