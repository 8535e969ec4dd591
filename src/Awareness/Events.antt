-- ===== src/Awareness/Events.antt =====
-- loro-c-api/src/awareness.rs: the accessors of a change event of an ephemeral store, which a
-- subscriber may call while its callback runs.
use loro_c.Base.{Option, none, some, List, ℕ, ascii}
use loro_c.World.{
  Loro, Ptr, Obj, ephemeral_event, EphemeralStoreEvent, EphemeralEventTrigger, by_local, by_import,
  by_timeout, array,
}
use loro_c.Error.{LoroStatus, loro_err_invalid_arg, loro_err_panic}
use loro_c.Abi.{Body, Entry, ◌>>=◌, ◌>>◌, ffi_guard, pure, require_out}
use loro_c.Value.Json.{borrowed_or, write_serialized}
use loro_c.Awareness.Ephemeral.{key_items, keys_not_serialized}

pub data LoroEphemeralEventTrigger : Type 0 where
  loro_ephemeral_local loro_ephemeral_import loro_ephemeral_timeout : LoroEphemeralEventTrigger

abbrev pub as_event : (loro : Loro) → Obj loro → Option EphemeralStoreEvent
as_event loro (ephemeral_event e) = some e
as_event loro _ = none

abbrev null_event_pointer : List ℕ
null_event_pointer = ascii "null ephemeral event pointer passed to loro-c-api"

unfoldable trigger_of : EphemeralEventTrigger → LoroEphemeralEventTrigger
trigger_of by_local = loro_ephemeral_local
trigger_of by_import = loro_ephemeral_import
trigger_of by_timeout = loro_ephemeral_timeout

module _ {loro : Loro} where
  -- `ephemeral_event_ref`.
  unfoldable pub ephemeral_event_ref : {R : Type 0} → Ptr → R → Body loro R EphemeralStoreEvent
  ephemeral_event_ref ev r = borrowed_or (as_event loro) null_event_pointer ev r

  unfoldable loro_ephemeral_event_by : Ptr → Entry loro LoroEphemeralEventTrigger
  loro_ephemeral_event_by ev =
      ffi_guard loro_ephemeral_local
        do event ← ephemeral_event_ref ev loro_ephemeral_local; pure (trigger_of event.by)

  unfoldable pub write_keys :
      Ptr → Ptr → (EphemeralStoreEvent → List (List ℕ)) → Entry loro LoroStatus
  write_keys ev out pick = ffi_guard loro_err_panic do
    event ← ephemeral_event_ref ev loro_err_invalid_arg
    require_out out loro_err_invalid_arg
    write_serialized (loro.json_bytes (array (key_items (pick event)))) keys_not_serialized out

  unfoldable pub loro_ephemeral_event_added : Ptr → Ptr → Entry loro LoroStatus
  loro_ephemeral_event_added ev out = write_keys ev out (λ e. e.added)

  unfoldable pub loro_ephemeral_event_updated : Ptr → Ptr → Entry loro LoroStatus
  loro_ephemeral_event_updated ev out = write_keys ev out (λ e. e.updated)

  unfoldable pub loro_ephemeral_event_removed : Ptr → Ptr → Entry loro LoroStatus
  loro_ephemeral_event_removed ev out = write_keys ev out (λ e. e.removed)
