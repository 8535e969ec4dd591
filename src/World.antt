-- ===== src/World.antt =====
-- What the C ABI of loro-c-api works on: the heap of boxed handles and byte buffers, the memory of
-- the C caller, the thread's last-error slot (loro-c-api/src/error.rs), and the trace of calls of C
-- function pointers. The crate `loro` itself enters as the parameter `Loro`.
mod Types
mod Library
mod Crate
pub use Types.*
pub use Library.*
pub use Crate.*
use loro_c.Base.{ℕ, suc, ◌==◌, if◌then◌else◌, Bool, Option, none, some, List, [], ◌∷◌}
use loro_c.Base.Int.{ℤ}

abbrev pub Ptr : Type 0
Ptr = ℕ

abbrev pub null_ptr : Ptr
null_ptr = 0

-- value.rs: an owned byte buffer handed to the caller.
pub record LoroBytes : Type 0 where
  pub data_ptr : Ptr
  pub len : ℕ
  pub cap : ℕ

-- import_status.rs: one entry of a span map, and the two maps.
pub record LoroPeerCounterSpan : Type 0 where
  pub peer : ℕ
  pub start : ℤ
  pub end : ℤ

pub record LoroImportStatus : Type 0 where
  pub success : List LoroPeerCounterSpan
  pub pending : Option (List LoroPeerCounterSpan)

-- cursor.rs: a resolved position.
pub record LoroPosQueryResult : Type 0 where
  pub side : LoroSide
  pub abs_pos : ℕ

-- What stands at an address of the library's heap: a boxed handle, the allocation of a buffer, or,
-- while a callback runs, the borrowed object behind a callback-scoped pointer (the last five).
pub data Obj (loro : Loro) : Type 0 where
  value : LoroValue loro.ContainerId → Obj loro
  buffer : ByteVec → Obj loro
  import_status : LoroImportStatus → Obj loro
  version_vector : loro.VersionVector → Obj loro
  frontiers : loro.Frontiers → Obj loro
  doc : loro.Doc → Obj loro
  subscription : loro.Subscription → Obj loro
  container : Container loro → Obj loro
  map_handle : loro.LoroMap → Obj loro
  list_handle : loro.LoroList → Obj loro
  text_handle : loro.LoroText → Obj loro
  movable_list_handle : loro.LoroMovableList → Obj loro
  tree_handle : loro.LoroTree → Obj loro
  counter_handle : loro.LoroCounter → Obj loro
  value_or_container : ValueOrContainer loro → Obj loro
  jsonpath_results : List (ValueOrContainer loro) → Obj loro
  cursor : loro.Cursor → Obj loro
  awareness : loro.Awareness → Obj loro
  ephemeral_store : loro.EphemeralStore → Obj loro
  undo_manager : loro.UndoManager → Obj loro
  fractional_index : loro.FractionalIndex → Obj loro
  style_config_map : loro.StyleConfigMap → Obj loro
  diff_batch : List (loro.ContainerId × Diff loro) → Obj loro
  diff_event : DiffEvent loro → Obj loro
  container_diff : ContainerDiff loro → Obj loro
  undo_meta : UndoItemMeta loro → Obj loro
  ephemeral_event : EphemeralStoreEvent → Obj loro
  pre_commit_payload : PreCommitPayload loro → Obj loro

-- What the library writes into a variable of the caller.
pub data Cell : Type 0 where
  bytes_cell : LoroBytes → Cell
  bool_cell : Bool → Cell
  double_cell : ℕ → Cell
  integer_cell : ℤ → Cell
  id_cell : LoroId → Cell
  span_cell : LoroCounterSpan → Cell
  peer_span_cell : LoroPeerCounterSpan → Cell
  size_cell : ℕ → Cell
  side_cell : LoroSide → Cell
  position_cell : LoroPosQueryResult → Cell
  pointer_cell : Ptr → Cell

-- A call of a C function pointer, or the hand-over of a callback to the crate `loro`.
pub data Event : Type 0 where
  invoked : List ℕ → ℕ → Event
  freed : ℕ → Event
  handed_over : ℕ → Event

pub record World (loro : Loro) : Type 0 where
  pub heap : Ptr → Option (Obj loro)
  pub next : Ptr
  pub last_error : Option (List ℕ)
  pub c_data : Ptr → List ℕ
  pub c_cell : Ptr → Option Cell
  pub trace : List Event

abbrev pub update {ℓ} : {A : Type ℓ} → (Ptr → A) → Ptr → A → Ptr → A
update f p v q = if p == q then v else f q
