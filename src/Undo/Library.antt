-- ===== src/Undo/Library.antt =====
-- loro::UndoManager and loro::UndoItemMeta, outside the repository. What a manager does to the
-- document that it belongs to, and which earlier callback it gives up, stays inside the crate.
use loro_c.Base.{ℕ, Bool, Option, List, Result}
use loro_c.Base.Int.{ℤ}
use loro_c.World.{Loro, LoroValue, LoroError, Call, Handed, UndoItemMeta}

pub record History (loro : Loro) : Type 0 where
  pub undo_new : loro.Doc → loro.Doc × Call loro.UndoManager
  pub undo_undo : loro.UndoManager → loro.UndoManager × Call (Result Bool LoroError)
  pub undo_redo : loro.UndoManager → loro.UndoManager × Call (Result Bool LoroError)
  pub undo_can_undo : loro.UndoManager → Call Bool
  pub undo_can_redo : loro.UndoManager → Call Bool
  pub undo_undo_count : loro.UndoManager → Call ℕ
  pub undo_redo_count : loro.UndoManager → Call ℕ
  pub undo_peer : loro.UndoManager → Call ℕ
  pub undo_top_undo_value : loro.UndoManager → Call (Option (LoroValue loro.ContainerId))
  pub undo_top_redo_value : loro.UndoManager → Call (Option (LoroValue loro.ContainerId))
  pub undo_record_new_checkpoint :
      loro.UndoManager → loro.UndoManager × Call (Result (Unit {0}) LoroError)
  pub undo_set_merge_interval : loro.UndoManager → ℤ → loro.UndoManager × Call (Unit {0})
  pub undo_set_max_undo_steps : loro.UndoManager → ℕ → loro.UndoManager × Call (Unit {0})
  pub undo_add_exclude_origin_prefix :
      loro.UndoManager → List ℕ → loro.UndoManager × Call (Unit {0})
  pub undo_clear : loro.UndoManager → loro.UndoManager × Call (Unit {0})
  pub undo_group_start : loro.UndoManager → loro.UndoManager × Call (Result (Unit {0}) LoroError)
  pub undo_group_end : loro.UndoManager → loro.UndoManager × Call (Unit {0})
  pub undo_pause : loro.UndoManager → loro.UndoManager × Call (Unit {0})
  pub undo_resume : loro.UndoManager → loro.UndoManager × Call (Unit {0})
  pub undo_is_paused : loro.UndoManager → Call Bool
  -- The closure that owns the C callback moves into the call.
  pub undo_set_on_push : loro.UndoManager → loro.UndoManager × Handed (Unit {0})
  pub undo_set_on_pop : loro.UndoManager → loro.UndoManager × Handed (Unit {0})
  pub meta_new : UndoItemMeta loro
  pub meta_set_value :
      UndoItemMeta loro → LoroValue loro.ContainerId → UndoItemMeta loro × Call (Unit {0})
  pub meta_add_cursor : UndoItemMeta loro → loro.Cursor → UndoItemMeta loro × Call (Unit {0})
