-- ===== src/World/Crate.antt =====
-- The public data of the crate `loro` that the C layer takes apart: containers, diff events, and
-- what the callbacks of undo, presence and commits are given.
use loro_c.Base.{ℕ, Bool, Option, List}
use loro_c.Base.Int.{ℤ}
use loro_c.World.Types.{LoroValue, Side, TreeId, TreeParentId, Index}
use loro_c.World.Library.{Loro}

-- loro::Container.
pub data Container (loro : Loro) : Type 0 where
  map_container : loro.LoroMap → Container loro
  list_container : loro.LoroList → Container loro
  text_container : loro.LoroText → Container loro
  movable_list_container : loro.LoroMovableList → Container loro
  tree_container : loro.LoroTree → Container loro
  counter_container : loro.LoroCounter → Container loro
  unknown_container : loro.UnknownContainer → Container loro

-- loro::ValueOrContainer.
pub data ValueOrContainer (loro : Loro) : Type 0 where
  plain_value : LoroValue loro.ContainerId → ValueOrContainer loro
  live_container : Container loro → ValueOrContainer loro

-- loro::TextDelta; an attribute map is its entries.
pub data TextDelta (loro : Loro) : Type 0 where
  retain_text : ℕ → Option (List (List ℕ × LoroValue loro.ContainerId)) → TextDelta loro
  insert_text : List ℕ → Option (List (List ℕ × LoroValue loro.ContainerId)) → TextDelta loro
  delete_text : ℕ → TextDelta loro

-- loro::event::ListDiffItem.
pub data ListDiffItem (loro : Loro) : Type 0 where
  insert_items : List (ValueOrContainer loro) → Bool → ListDiffItem loro
  delete_items : ℕ → ListDiffItem loro
  retain_items : ℕ → ListDiffItem loro

-- loro::TreeExternalDiff and loro::TreeDiffItem.
pub data TreeExternalDiff (loro : Loro) : Type 0 where
  create : TreeParentId → ℕ → loro.FractionalIndex → TreeExternalDiff loro
  move : TreeParentId → ℕ → loro.FractionalIndex → TreeParentId → ℕ → TreeExternalDiff loro
  delete : TreeParentId → ℕ → TreeExternalDiff loro

pub record TreeDiffItem (loro : Loro) : Type 0 where
  pub target : TreeId
  pub action : TreeExternalDiff loro

-- loro::event::Diff.
pub data Diff (loro : Loro) : Type 0 where
  text_diff : List (TextDelta loro) → Diff loro
  list_diff : List (ListDiffItem loro) → Diff loro
  map_diff : List (List ℕ × Option (ValueOrContainer loro)) → Diff loro
  tree_diff : List (TreeDiffItem loro) → Diff loro
  counter_diff : ℕ → Diff loro
  unknown_diff : Diff loro

-- loro::event::ContainerDiff.
pub record ContainerDiff (loro : Loro) : Type 0 where
  pub target : loro.ContainerId
  pub path : List (loro.ContainerId × Index)
  pub is_unknown : Bool
  pub diff : Diff loro

-- loro::EventTriggerKind.
pub data EventTriggerKind : Type 0 where
  local import checkout : EventTriggerKind

-- loro::event::DiffEvent; its container diffs as the addresses of the vector's elements.
pub record DiffEvent (loro : Loro) : Type 0 where
  pub triggered_by : EventTriggerKind
  pub origin : List ℕ
  pub current_target : Option loro.ContainerId
  pub events : List ℕ

-- loro::awareness::PeerInfo.
pub record PeerInfo (loro : Loro) : Type 0 where
  pub state : LoroValue loro.ContainerId
  pub counter : ℤ
  pub timestamp : ℤ

-- loro::awareness::EphemeralEventTrigger and EphemeralStoreEvent.
pub data EphemeralEventTrigger : Type 0 where
  by_local by_import by_timeout : EphemeralEventTrigger

pub record EphemeralStoreEvent : Type 0 where
  pub by : EphemeralEventTrigger
  pub added : List (List ℕ)
  pub updated : List (List ℕ)
  pub removed : List (List ℕ)

-- loro::cursor::AbsolutePosition, loro::undo::CursorWithPos, loro::UndoItemMeta.
pub record AbsolutePosition : Type 0 where
  pub pos : ℕ
  pub side : Side

pub record CursorWithPos (loro : Loro) : Type 0 where
  pub cursor : loro.Cursor
  pub pos : AbsolutePosition

pub record UndoItemMeta (loro : Loro) : Type 0 where
  pub value : LoroValue loro.ContainerId
  pub cursors : List (CursorWithPos loro)

-- loro::PreCommitCallbackPayload; its change metadata as the address of the field.
pub record PreCommitPayload (loro : Loro) : Type 0 where
  pub change_meta : ℕ
  pub origin : List ℕ
  pub modifier : loro.PreCommitModifier
