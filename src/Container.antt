-- ===== src/Container.antt =====
-- loro-c-api/src/container/any.rs: the handle of a container of any type.
pub mod Laws
pub mod Attach
pub mod Common
pub mod Counter
pub mod Map
pub mod Sequence
pub mod MovableList
use loro_c.Base.{ℕ, ◌==◌, if◌then◌else◌, Option, none, some, List, ascii}
use loro_c.World.{
  Loro, Ptr, null_ptr, Obj, container, map_handle, list_handle, text_handle, movable_list_handle,
  tree_handle, counter_handle, Container, map_container, list_container, text_container,
  movable_list_container, tree_container, counter_container, unknown_container, ByteVec, Call,
  update,
}
use loro_c.Error.{LoroStatus, loro_ok, loro_err_invalid_arg, loro_err_panic}
use loro_c.Abi.{
  Body, Entry, ◌>>=◌, ◌>>◌, ffi_guard, pure, fail, call, load, deref_or, require_out, into_raw,
  free_box, record_error, go,
}
use loro_c.Value.{write_bytes}

pub data LoroContainerType : Type 0 where
  loro_container_map loro_container_list loro_container_text : LoroContainerType
  loro_container_movable_list loro_container_tree loro_container_counter : LoroContainerType
  loro_container_unknown : LoroContainerType

-- The containers of the crate `loro`: the constructors of detached ones, and `ContainerTrait::id`
-- with its Display.
pub record Containers (loro : Loro) : Type 0 where
  pub map_new : Call loro.LoroMap
  pub list_new : Call loro.LoroList
  pub text_new : Call loro.LoroText
  pub movable_list_new : Call loro.LoroMovableList
  pub tree_new : Call loro.LoroTree
  pub counter_new : Call loro.LoroCounter
  pub container_id : Container loro → Call ByteVec

abbrev pub as_container : (loro : Loro) → Obj loro → Option (Container loro)
as_container loro (container c) = some c
as_container loro _ = none

abbrev null_container_pointer : List ℕ
null_container_pointer = ascii "null container pointer passed to loro-c-api"

abbrev unknown_type : List ℕ
unknown_type = ascii "cannot create a container of unknown type"

module _ {loro : Loro} where
  unfoldable pub container_type_of : Container loro → LoroContainerType
  container_type_of (map_container _) = loro_container_map
  container_type_of (list_container _) = loro_container_list
  container_type_of (text_container _) = loro_container_text
  container_type_of (movable_list_container _) = loro_container_movable_list
  container_type_of (tree_container _) = loro_container_tree
  container_type_of (counter_container _) = loro_container_counter
  container_type_of (unknown_container _) = loro_container_unknown

  -- `any::take`: the box is consumed, and its content comes back.
  unfoldable pub taken : {R : Type 0} → Ptr → Container loro → Body loro R (Option (Container loro))
  taken p c w = go (some c) (record w { heap = update w.heap p none })

  pub take : {R : Type 0} → Ptr → Body loro R (Option (Container loro))
  take p =
      if p == null_ptr
      then (do record_error null_container_pointer; pure none)
      else (do c ← load (as_container loro) p; taken p c)

  pub box_map : Container loro → Body loro Ptr Ptr
  box_map (map_container m) = into_raw (map_handle m)
  box_map _ = fail (ascii "container is not a map") null_ptr

  pub box_list : Container loro → Body loro Ptr Ptr
  box_list (list_container l) = into_raw (list_handle l)
  box_list _ = fail (ascii "container is not a list") null_ptr

  pub box_text : Container loro → Body loro Ptr Ptr
  box_text (text_container t) = into_raw (text_handle t)
  box_text _ = fail (ascii "container is not a text container") null_ptr

  pub box_movable_list : Container loro → Body loro Ptr Ptr
  box_movable_list (movable_list_container l) = into_raw (movable_list_handle l)
  box_movable_list _ = fail (ascii "container is not a movable list") null_ptr

  pub box_tree : Container loro → Body loro Ptr Ptr
  box_tree (tree_container t) = into_raw (tree_handle t)
  box_tree _ = fail (ascii "container is not a tree") null_ptr

  pub box_counter : Container loro → Body loro Ptr Ptr
  box_counter (counter_container c) = into_raw (counter_handle c)
  box_counter _ = fail (ascii "container is not a counter") null_ptr

  unfoldable pub loro_container_free : Ptr → Entry loro (Unit {0})
  loro_container_free p = ffi_guard tt (free_box (as_container loro) p)

  pub loro_container_type : Ptr → Entry loro LoroContainerType
  loro_container_type p =
      ffi_guard loro_container_unknown
        do c ← deref_or (as_container loro) p loro_container_unknown; pure (container_type_of c)

  pub loro_container_get_map : Ptr → Entry loro Ptr
  loro_container_get_map p =
      ffi_guard null_ptr do c ← deref_or (as_container loro) p null_ptr; box_map c

  pub loro_container_get_list : Ptr → Entry loro Ptr
  loro_container_get_list p =
      ffi_guard null_ptr do c ← deref_or (as_container loro) p null_ptr; box_list c

  pub loro_container_get_text : Ptr → Entry loro Ptr
  loro_container_get_text p =
      ffi_guard null_ptr do c ← deref_or (as_container loro) p null_ptr; box_text c

  pub loro_container_get_movable_list : Ptr → Entry loro Ptr
  loro_container_get_movable_list p =
      ffi_guard null_ptr do c ← deref_or (as_container loro) p null_ptr; box_movable_list c

  pub loro_container_get_tree : Ptr → Entry loro Ptr
  loro_container_get_tree p =
      ffi_guard null_ptr do c ← deref_or (as_container loro) p null_ptr; box_tree c

  pub loro_container_get_counter : Ptr → Entry loro Ptr
  loro_container_get_counter p =
      ffi_guard null_ptr do c ← deref_or (as_container loro) p null_ptr; box_counter c

  module _ (crate : Containers loro) where
    pub new_container : LoroContainerType → Body loro Ptr (Container loro)
    new_container loro_container_map = do m ← call crate.map_new; pure (map_container m)
    new_container loro_container_list = do l ← call crate.list_new; pure (list_container l)
    new_container loro_container_text = do t ← call crate.text_new; pure (text_container t)
    new_container loro_container_movable_list = do
      l ← call crate.movable_list_new
      pure (movable_list_container l)
    new_container loro_container_tree = do t ← call crate.tree_new; pure (tree_container t)
    new_container loro_container_counter = do c ← call crate.counter_new; pure (counter_container c)
    new_container loro_container_unknown = fail unknown_type null_ptr

    pub loro_container_new : LoroContainerType → Entry loro Ptr
    loro_container_new ty = ffi_guard null_ptr do c ← new_container ty; into_raw (container c)

    pub loro_container_id : Ptr → Ptr → Entry loro LoroStatus
    loro_container_id p out = ffi_guard loro_err_panic do
      c ← deref_or (as_container loro) p loro_err_invalid_arg
      require_out out loro_err_invalid_arg
      bytes ← call (crate.container_id c)
      write_bytes out bytes
      pure loro_ok
