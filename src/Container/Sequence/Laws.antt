-- ===== src/Container/Sequence/Laws.antt =====
-- A child given to a list: who owns it afterwards.
use loro_c.Base.{ℕ, ◌≡◌, refl, Option, none, some, Result, ok, err}
use loro_c.World.{
  Loro, World, Ptr, null_ptr, Obj, update, container, list_handle, Container, Call, returns, panics,
  LoroError,
}
use loro_c.Error.{record_loro_error, set_last_error}
use loro_c.Abi.{and_then, loro_error, store, call}
use loro_c.Value.{or_return}
use loro_c.Value.Json.{mutate}
use loro_c.Abi.Laws.{Returns, Points, AfterPanic, Ends, bind, goes, guarded, unwinding}
use loro_c.Abi.Steps.{alloc_any, deref_at, load-live, not_null}
use loro_c.Container.{as_container, take, taken}
use loro_c.Container.Attach.{attach_container, child_or_return, box_attached}
use loro_c.Container.Sequence.{
  Sequences, as_list, loro_list_insert_container, loro_list_push_container,
}

module _ {loro : Loro} (w : World loro) (p child : Ptr) where
  -- The heap without the child's box, and with what the crate made of the list at `p`.
  abbrev pub moved : loro.LoroList → Ptr → Option (Obj loro)
  moved l = update (update w.heap child none) p (some (list_handle l))

  -- What comes of a child that is attached: a new box with what the crate gave for it, or null; its
  -- own box is gone in every case.
  abbrev pub ChildTaken :
      loro.LoroList × Call (Result (Container loro) LoroError) → Ptr → World loro → Type 0
  ChildTaken (l, returns (ok c)) q w' =
      (q ≡ w.next) × (w'.heap ≡ update (moved l) w.next (some (container c)))
  ChildTaken (l, returns (err e)) q w' = (q ≡ null_ptr) × (w'.heap ≡ moved l)
  ChildTaken (l, panics) q w' = (q ≡ null_ptr) × (w'.heap ≡ moved l)

  child_any :
      {E : Ptr → World loro → Type 0} {U : World loro → Type 0}
      {Q : Container loro → World loro → Type 0} (c : Container loro)
      → Points (as_container loro) w child c
      → Q c (record w { heap = update w.heap child none })
      → Ends ⊥ E U Q (child_or_return child w)
  unfolding child_or_return take taken and_then or_return
  child_any c at_child q =
      rw (not_null child at_child.ne_null)
        (rw (load-live (as_container loro) w child at_child) (goes q))

  attached_any :
      (a : loro.LoroList × Call (Result (Container loro) LoroError))
      → Ends ⊥ (ChildTaken a) (AfterPanic (ChildTaken a) null_ptr) (ChildTaken a) (
          and_then
            (mutate list_handle p a (record w { heap = update w.heap child none }))
            box_attached)
  unfolding mutate box_attached loro_error record_loro_error set_last_error store call and_then
  attached_any (l, returns (ok c)) = alloc_any _ _ (refl, refl)
  attached_any (l, returns (err e)) = goes (refl, refl)
  attached_any (l, panics) = unwinding (refl, refl)

-- A live list is given a child at a live handle, at its end or at a position: the call returns, also
-- where the crate `loro` panics. The box of the child is gone in every case, and the list is what the
-- crate made of it when it attached a container of the child's type (an unknown type is refused, and
-- the list is as it was); the result is a new box with the attached container, or null if the crate
-- refused or panicked. No other box changes.
pub containers-ChildTaken :
    {loro : Loro} (crate : Sequences loro) (w : World loro) (p child : Ptr) (l : loro.LoroList)
    (c : Container loro) (at : ℕ)
    → Points (as_list loro) w p l
    → Points (as_container loro) w child c
    → Returns
        (ChildTaken w p child (attach_container l (crate.list_push_container l) c))
        (loro_list_push_container crate p child w)
      × Returns
          (ChildTaken w p child (attach_container l (crate.list_insert_container l at) c))
          (loro_list_insert_container crate p at child w)
unfolding loro_list_push_container loro_list_insert_container
containers-ChildTaken {loro} crate w p child l c at at_p at_child = (
  guarded _ (
      bind (
        deref_at w (as_list loro) p _ at_p
          (bind (child_any w p child c at_child (attached_any w p child _))))),
  guarded _ (
      bind (
        deref_at w (as_list loro) p _ at_p
          (bind (child_any w p child c at_child (attached_any w p child _))))),
)
