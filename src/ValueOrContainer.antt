-- ===== src/ValueOrContainer.antt =====
-- loro-c-api/src/value_or_container.rs: what a path resolves to.
pub mod Laws
use loro_c.Base.{
  ℕ, ◌==◌, leb, if◌then◌else◌, Bool, true, false, Option, none, some, List, [], ◌∷◌, ascii, length,
  take, Result, ok, err,
}
use loro_c.Base.Int.{ℤ}
use loro_c.World.{
  Loro, Ptr, null_ptr, Obj, value, container, value_or_container, LoroValue, ValueOrContainer,
  plain_value, live_container, ByteVec, Call, Index, key, seq, node_index, TreeId,
}
use loro_c.Error.{LoroStatus, loro_ok, loro_err_invalid_arg, loro_err_encode, loro_err_panic}
use loro_c.Abi.{
  Body, Entry, go, undefined, ◌>>=◌, ◌>>◌, ffi_guard, pure, fail, call, deref_or, require_out,
  into_raw, free_box,
}
use loro_c.Value.Json.{string_or_return, write_value_json}
use loro_c.Subscribe.{as_doc}
use loro_c.Container.{LoroContainerType, loro_container_unknown, container_type_of}

-- container/tree.rs: the C mirror of loro::TreeID.
pub record LoroTreeId : Type 0 where
  pub peer : ℕ
  pub counter : ℤ

unfoldable pub tree_id_to_loro : LoroTreeId → TreeId
tree_id_to_loro id = record { peer = id.peer; counter = id.counter }

pub data LoroPathComponentKind : Type 0 where
  loro_path_key loro_path_seq loro_path_node : LoroPathComponentKind

pub record LoroPathComponent : Type 0 where
  pub kind : LoroPathComponentKind
  pub key : Ptr
  pub key_len : ℕ
  pub seq : ℕ
  pub node : LoroTreeId

-- The path queries of loro::LoroDoc, and `ValueOrContainer::get_deep_value`.
pub record Paths (loro : Loro) : Type 0 where
  pub doc_get_by_path : loro.Doc → List Index → Call (Option (ValueOrContainer loro))
  pub doc_get_by_str_path : loro.Doc → List ℕ → Call (Option (ValueOrContainer loro))
  pub get_deep_value : ValueOrContainer loro → Call (LoroValue loro.ContainerId)

abbrev pub as_value_or_container : (loro : Loro) → Obj loro → Option (ValueOrContainer loro)
as_value_or_container loro (value_or_container v) = some v
as_value_or_container loro _ = none

abbrev null_path_pointer : List ℕ
null_path_pointer = ascii "null path pointer passed to loro-c-api"

abbrev pub unresolved_path : List ℕ
unresolved_path = ascii "path did not resolve to a value or container"

abbrev holds_a_value : List ℕ
holds_a_value = ascii "value-or-container holds a value, not a container"

abbrev holds_a_container : List ℕ
holds_a_container = ascii "value-or-container holds a container, not a value"

module _ {loro : Loro} where
  -- `slice::from_raw_parts` on an array of path components, `none` for the null pointer.
  unfoldable pub read_components :
      Option (List LoroPathComponent) → ℕ → Body loro Ptr (List LoroPathComponent)
  read_components none count w = (if count == 0 then pure [] else fail null_path_pointer null_ptr) w
  read_components (some path) count w =
      if leb count (length path) then go (take count path) w else undefined

  unfoldable pub index_of : LoroPathComponentKind → LoroPathComponent → Body loro Ptr Index
  index_of loro_path_key c = do k ← string_or_return c.key c.key_len null_ptr; pure (key k)
  index_of loro_path_seq c = pure (seq c.seq)
  index_of loro_path_node c = pure (node_index (tree_id_to_loro c.node))

  -- The loop that converts the components; a bad key returns from the whole call.
  pub indices_of : List LoroPathComponent → Body loro Ptr (List Index)
  indices_of [] = pure []
  indices_of (c ∷ cs) =
      let rest = indices_of cs in do i ← index_of c.kind c; is ← rest; pure (i ∷ is)

  pub box_resolved : Option (ValueOrContainer loro) → Body loro Ptr Ptr
  box_resolved none = fail unresolved_path null_ptr
  box_resolved (some v) = into_raw (value_or_container v)

  pub is_container : ValueOrContainer loro → Bool
  is_container (plain_value _) = false
  is_container (live_container _) = true

  pub type_of : ValueOrContainer loro → LoroContainerType
  type_of (plain_value _) = loro_container_unknown
  type_of (live_container c) = container_type_of c

  pub box_container : ValueOrContainer loro → Body loro Ptr Ptr
  box_container (plain_value _) = fail holds_a_value null_ptr
  box_container (live_container c) = into_raw (container c)

  pub box_plain_value : ValueOrContainer loro → Body loro Ptr Ptr
  box_plain_value (plain_value v) = into_raw (value v)
  box_plain_value (live_container _) = fail holds_a_container null_ptr

  pub loro_value_or_container_is_container : Ptr → Entry loro Bool
  loro_value_or_container_is_container p =
      ffi_guard false do v ← deref_or (as_value_or_container loro) p false; pure (is_container v)

  pub loro_value_or_container_container_type : Ptr → Entry loro LoroContainerType
  loro_value_or_container_container_type p =
      ffi_guard loro_container_unknown
        do v ← deref_or (as_value_or_container loro) p loro_container_unknown; pure (type_of v)

  pub loro_value_or_container_get_container : Ptr → Entry loro Ptr
  loro_value_or_container_get_container p =
      ffi_guard null_ptr do v ← deref_or (as_value_or_container loro) p null_ptr; box_container v

  pub loro_value_or_container_get_value : Ptr → Entry loro Ptr
  loro_value_or_container_get_value p =
      ffi_guard null_ptr do v ← deref_or (as_value_or_container loro) p null_ptr; box_plain_value v

  unfoldable pub loro_value_or_container_free : Ptr → Entry loro (Unit {0})
  loro_value_or_container_free p = ffi_guard tt (free_box (as_value_or_container loro) p)

  module _ (crate : Paths loro) where
    pub loro_doc_get_by_path : Ptr → Option (List LoroPathComponent) → ℕ → Entry loro Ptr
    loro_doc_get_by_path p path count = ffi_guard null_ptr do
      d ← deref_or (as_doc loro) p null_ptr
      components ← read_components path count
      indices ← indices_of components
      found ← call (crate.doc_get_by_path d indices)
      box_resolved found

    pub loro_doc_get_by_str_path : Ptr → Ptr → ℕ → Entry loro Ptr
    loro_doc_get_by_str_path p path path_len = ffi_guard null_ptr do
      d ← deref_or (as_doc loro) p null_ptr
      s ← string_or_return path path_len null_ptr
      found ← call (crate.doc_get_by_str_path d s)
      box_resolved found

    pub loro_value_or_container_get_value_json : Ptr → Ptr → Entry loro LoroStatus
    loro_value_or_container_get_value_json p out = ffi_guard loro_err_panic do
      v ← deref_or (as_value_or_container loro) p loro_err_invalid_arg
      require_out out loro_err_invalid_arg
      deep ← call (crate.get_deep_value v)
      write_value_json out deep
