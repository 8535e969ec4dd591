-- ===== src/Container/Laws.antt =====
-- A container of any type gives its typed handle, and no other.
use loro_c.Base.{◌≡◌, refl, Option, none, some}
use loro_c.World.{
  Loro, World, Ptr, null_ptr, Obj, update, Container, map_container, list_container, text_container,
  movable_list_container, tree_container, counter_container, map_handle, list_handle, text_handle,
  movable_list_handle, tree_handle, counter_handle,
}
use loro_c.Abi.Laws.{Returns, Points, Ends, bind, guarded}
use loro_c.Abi.Contract.{Failed, failed}
use loro_c.Abi.Steps.{alloc_any, deref_at, fail_any}
use loro_c.Container.{
  LoroContainerType, loro_container_map, loro_container_list, loro_container_text,
  loro_container_movable_list, loro_container_tree, loro_container_counter, as_container, box_map,
  box_list, box_text, box_movable_list, box_tree, box_counter, loro_container_get_map,
  loro_container_get_list, loro_container_get_text, loro_container_get_movable_list,
  loro_container_get_tree, loro_container_get_counter,
}

module _ {loro : Loro} where
  -- The typed handle that a container has of a type, if it is of that type.
  abbrev pub typed : LoroContainerType → Container loro → Option (Obj loro)
  typed loro_container_map (map_container m) = some (map_handle m)
  typed loro_container_list (list_container l) = some (list_handle l)
  typed loro_container_text (text_container t) = some (text_handle t)
  typed loro_container_movable_list (movable_list_container l) = some (movable_list_handle l)
  typed loro_container_tree (tree_container t) = some (tree_handle t)
  typed loro_container_counter (counter_container c) = some (counter_handle c)
  typed _ _ = none

  module _ (w : World loro) where
    -- A new box with the handle; or null and a message, where there is none.
    abbrev pub Gives : Option (Obj loro) → Ptr → World loro → Type 0
    Gives (some o) q w' = (q ≡ w.next) × (w'.heap ≡ update w.heap w.next (some o))
    Gives none q w' = (q ≡ null_ptr) × Failed w w'

    map_given :
        {U : World loro → Type 0} (c : Container loro)
        → Ends ⊥
            (Gives (typed loro_container_map c))
            U
            (Gives (typed loro_container_map c))
            (box_map c w)
    unfolding box_map
    map_given (map_container m) = alloc_any w _ (refl, refl)
    map_given _ = fail_any w _ _ (refl, failed w _)

    list_given :
        {U : World loro → Type 0} (c : Container loro)
        → Ends ⊥
            (Gives (typed loro_container_list c))
            U
            (Gives (typed loro_container_list c))
            (box_list c w)
    unfolding box_list
    list_given (list_container x) = alloc_any w _ (refl, refl)
    list_given _ = fail_any w _ _ (refl, failed w _)

    text_given :
        {U : World loro → Type 0} (c : Container loro)
        → Ends ⊥
            (Gives (typed loro_container_text c))
            U
            (Gives (typed loro_container_text c))
            (box_text c w)
    unfolding box_text
    text_given (text_container x) = alloc_any w _ (refl, refl)
    text_given _ = fail_any w _ _ (refl, failed w _)

    movable_list_given :
        {U : World loro → Type 0} (c : Container loro)
        → Ends ⊥
            (Gives (typed loro_container_movable_list c))
            U
            (Gives (typed loro_container_movable_list c))
            (box_movable_list c w)
    unfolding box_movable_list
    movable_list_given (movable_list_container x) = alloc_any w _ (refl, refl)
    movable_list_given _ = fail_any w _ _ (refl, failed w _)

    tree_given :
        {U : World loro → Type 0} (c : Container loro)
        → Ends ⊥
            (Gives (typed loro_container_tree c))
            U
            (Gives (typed loro_container_tree c))
            (box_tree c w)
    unfolding box_tree
    tree_given (tree_container x) = alloc_any w _ (refl, refl)
    tree_given _ = fail_any w _ _ (refl, failed w _)

    counter_given :
        {U : World loro → Type 0} (c : Container loro)
        → Ends ⊥
            (Gives (typed loro_container_counter c))
            U
            (Gives (typed loro_container_counter c))
            (box_counter c w)
    unfolding box_counter
    counter_given (counter_container x) = alloc_any w _ (refl, refl)
    counter_given _ = fail_any w _ _ (refl, failed w _)

-- Each of the six typed getters, on a live container: if the container is of that type, the result is
-- a new box with its typed handle; if it is of another type, or unknown, the result is null, with a
-- message, and no box and no variable of the caller changed. So at most one of the six succeeds.
pub getters-Gives :
    {loro : Loro} (w : World loro) (p : Ptr) (c : Container loro)
    → Points (as_container loro) w p c
    → Returns (Gives w (typed loro_container_map c)) (loro_container_get_map p w)
      × Returns (Gives w (typed loro_container_list c)) (loro_container_get_list p w)
      × Returns (Gives w (typed loro_container_text c)) (loro_container_get_text p w)
      × Returns
          (Gives w (typed loro_container_movable_list c))
          (loro_container_get_movable_list p w)
      × Returns (Gives w (typed loro_container_tree c)) (loro_container_get_tree p w)
      × Returns (Gives w (typed loro_container_counter c)) (loro_container_get_counter p w)
unfolding loro_container_get_map loro_container_get_list loro_container_get_text
    loro_container_get_movable_list loro_container_get_tree loro_container_get_counter
getters-Gives {loro} w p c at_p = (
  guarded _ (bind (deref_at w (as_container loro) p _ at_p (map_given w c))),
  guarded _ (bind (deref_at w (as_container loro) p _ at_p (list_given w c))),
  guarded _ (bind (deref_at w (as_container loro) p _ at_p (text_given w c))),
  guarded _ (bind (deref_at w (as_container loro) p _ at_p (movable_list_given w c))),
  guarded _ (bind (deref_at w (as_container loro) p _ at_p (tree_given w c))),
  guarded _ (bind (deref_at w (as_container loro) p _ at_p (counter_given w c))),
)
