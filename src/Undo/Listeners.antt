-- ===== src/Undo/Listeners.antt =====
-- loro-c-api/src/undo.rs: the closures that the library installs as `on_push` and `on_pop`. The
-- event and the metadata stand on the closure's stack: they have an address while the C function
-- runs, and none afterwards.
pub mod Laws
use loro_c.Base.{ℕ, Option, none, some}
use loro_c.World.{
  Loro, World, Ptr, null_ptr, CounterSpan, LoroCounterSpan, DiffEvent, diff_event, undo_meta,
  UndoItemMeta, update,
}
use loro_c.Abi.{
  Body, Entry, Outcome, returned, undefined_behaviour, go, undefined, ◌>>=◌, ◌>>◌, pure, load,
  into_raw,
}
use loro_c.Version.Ids.{counter_span}
use loro_c.Undo.Library.{History}
use loro_c.Undo.Meta.{as_undo_meta}

-- loro::UndoOrRedo and its C mirror.
pub data UndoOrRedo : Type 0 where
  undo redo : UndoOrRedo

pub data LoroUndoOrRedo : Type 0 where
  loro_undo loro_redo : LoroUndoOrRedo

unfoldable pub from_loro : UndoOrRedo → LoroUndoOrRedo
from_loro undo = loro_undo
from_loro redo = loro_redo

-- The C function of `LoroUndoOnPush` and of `LoroUndoOnPop`, given its `user_data`: what it does
-- is what it makes of the world, mostly by calls of the library.
abbrev pub OnPush : Loro → Type 0
OnPush loro = LoroUndoOrRedo → LoroCounterSpan → Ptr → Ptr → Entry loro (Unit {0})

abbrev pub OnPop : Loro → Type 0
OnPop loro = LoroUndoOrRedo → LoroCounterSpan → Ptr → Entry loro (Unit {0})

module _ {loro : Loro} {R : Type 0} where
  -- A call of a C function: what its world is afterwards.
  unfoldable pub entered : Outcome loro (Unit {0}) → Body loro R (Unit {0})
  entered (returned _ w') w = go tt w'
  entered undefined_behaviour w = undefined

  unfoldable pub invoke : Entry loro (Unit {0}) → Body loro R (Unit {0})
  invoke f w = entered (f w) w

  -- `(e as *const DiffEvent)`, or null where there is no event.
  unfoldable pub event_pointer : Option (DiffEvent loro) → Body loro R Ptr
  event_pointer none = pure null_ptr
  event_pointer (some e) = into_raw (diff_event e)

  -- The end of a local: nothing stands at its address any more.
  unfoldable pub end_scope : Ptr → Body loro R (Unit {0})
  end_scope p w = go tt (record w { heap = update w.heap p none })

  -- The end of the event, if there was one.
  unfoldable pub end_event : Option (DiffEvent loro) → Ptr → Body loro R (Unit {0})
  end_event none p w = go tt w
  end_event (some e) p w = end_scope p w

  pub on_push :
      History loro
      → OnPush loro
      → UndoOrRedo
      → CounterSpan
      → Option (DiffEvent loro)
      → Body loro R (UndoItemMeta loro)
  on_push crate f kind span ev = do
    ev_ptr ← event_pointer ev
    meta_ptr ← into_raw (undo_meta crate.meta_new)
    invoke (f (from_loro kind) (counter_span span) ev_ptr meta_ptr)
    meta ← load (as_undo_meta loro) meta_ptr
    end_scope meta_ptr
    end_event ev ev_ptr
    pure meta

  pub on_pop : OnPop loro → UndoOrRedo → CounterSpan → UndoItemMeta loro → Body loro R (Unit {0})
  on_pop f kind span meta = do
    meta_ptr ← into_raw (undo_meta meta)
    invoke (f (from_loro kind) (counter_span span) meta_ptr)
    end_scope meta_ptr
