-- ===== src/Undo/Meta/Laws.antt =====
-- The metadata of an undo item, as a callback reads and writes it.
use loro_c.Base.{
  ℕ, ◌≡◌, ◌≢◌, refl, ap, sym, ◌∙◌, ◌==◌, if◌then◌else◌, Bool-cases, inl, inr, Option, none, some,
  take, length, get_elem?, ok,
}
use loro_c.World.{
  Loro, World, Ptr, null_ptr, Cell, LoroValue, UndoItemMeta, CursorWithPos, cursor, size_cell,
  side_cell, update, undo_meta, returns,
}
use loro_c.Error.{loro_ok, loro_err_panic, loro_err_invalid_arg}
use loro_c.Abi.{and_then, call, finish, returned, store}
use loro_c.Abi.Laws.{Returns, Points, Readable, Ends, after, bind, goes, guarded}
use loro_c.Abi.Contract.{Failed, failed}
use loro_c.Abi.Steps.{ne_null, alloc_any, fail_any, write_any}
use loro_c.Cursor.{from_side}
use loro_c.Value.Json.{mutate}
use loro_c.Value.Json.Steps.{borrowed_or-live, deref_or-live, value_or_return-parsed}
use loro_c.ValueTyped.Items.{as_value}
use loro_c.Undo.Library.{History}
use loro_c.Undo.Meta.{
  as_undo_meta, meta_ref, null_meta_pointer, box_cursor, loro_undo_meta_set_value_json,
  loro_undo_meta_set_value, loro_undo_meta_cursors_len, loro_undo_meta_get_cursor,
}

-- The metadata of an undo item is given the value of a live handle, or a JSON text that serde_json
-- parses to that value: the two calls have the same outcome, with the same status and the same world
-- after it.
pub set_value-Agrees :
    {loro : Loro} (crate : History loro) (w : World loro) (p v json : Ptr) (json_len : ℕ)
    (m : UndoItemMeta loro) (x : LoroValue loro.ContainerId)
    → Points (as_undo_meta loro) w p m
    → Points (as_value loro) w v x
    → json ≢ null_ptr
    → Readable w json json_len
    → loro.value_from_json_slice (take json_len (w.c_data json)) ≡ ok x
    → loro_undo_meta_set_value_json crate p json json_len w ≡ loro_undo_meta_set_value crate p v w
unfolding loro_undo_meta_set_value_json loro_undo_meta_set_value meta_ref
set_value-Agrees {loro} crate w p v json json_len m x at_p at_v ne readable parses =
    ap (finish loro_err_panic) (
      after _ (borrowed_or-live w p (as_undo_meta loro) null_meta_pointer loro_err_invalid_arg at_p)
      ∙ after _ (value_or_return-parsed w json json_len ne readable loro_err_invalid_arg x parses)
      ∙ sym (
          after _
            (borrowed_or-live w p (as_undo_meta loro) null_meta_pointer loro_err_invalid_arg at_p)
          ∙ after _ (deref_or-live w v (as_value loro) loro_err_invalid_arg at_v)))

module _ {loro : Loro} (w : World loro) (out_pos out_side : Ptr) where
  -- The caller's variables after a write that is skipped for the null pointer.
  abbrev pub asked : Ptr → Cell → (Ptr → Option Cell) → Ptr → Option Cell
  asked out c cells = if out == null_ptr then cells else update cells out (some c)

  -- What an index finds: a new box with the cursor, its position and side where they are asked for;
  -- or nothing, and a message.
  abbrev pub ReadsCursor : Option (CursorWithPos loro) → Ptr → World loro → Type 0
  ReadsCursor none q w' = (q ≡ null_ptr) × Failed w w'
  ReadsCursor (some c) q w' =
      (q ≡ w.next)
      × (w'.heap ≡ update w.heap w.next (some (cursor c.cursor)))
      × (w'.c_cell
          ≡ asked out_side (side_cell (from_side c.pos.side))
              (asked out_pos (size_cell c.pos.pos) w.c_cell))

  cursor_read :
      {U : World loro → Type 0} (c : Option (CursorWithPos loro))
      → Ends ⊥ (ReadsCursor c) U (ReadsCursor c) (box_cursor c out_pos out_side w)
  unfolding box_cursor
  cursor_read none = fail_any w _ _ (refl, failed w _)
  cursor_read (some c) = elim (Bool-cases (out_pos == null_ptr)) [
    | inl e ↦ elim (Bool-cases (out_side == null_ptr)) [
      | inl f ↦ rw (e, f) (bind (goes (bind (goes (alloc_any w _ (refl, refl, rw (e, f) refl))))))
      | inr f ↦
          rw (e, f)
            (bind (
              goes (
                bind (write_any w _ _ (ne_null _ f) (alloc_any _ _ (refl, refl, rw (e, f) refl))))))
    ]
    | inr e ↦ elim (Bool-cases (out_side == null_ptr)) [
      | inl f ↦
          rw (e, f)
            (bind (
              write_any w _ _ (ne_null _ e)
                (bind (goes (alloc_any _ _ (refl, refl, rw (e, f) refl))))))
      | inr f ↦
          rw (e, f)
            (bind (
              write_any w _ _ (ne_null _ e) (
                bind (write_any _ _ _ (ne_null _ f) (alloc_any _ _ (refl, refl, rw (e, f) refl))))))
    ]
  ]

-- Metadata at a live pointer: `loro_undo_meta_cursors_len` answers with the number of its cursors and
-- changes nothing; `loro_undo_meta_get_cursor` gives, for an index below that number, a new box with
-- that cursor, and writes its position and its side to those of the two variables that are not null;
-- for any other index it returns null with a message, and no box and no variable changes.
pub get_cursor-ReadsCursor :
    {loro : Loro} (w : World loro) (p out_pos out_side : Ptr) (m : UndoItemMeta loro) (index : ℕ)
    → Points (as_undo_meta loro) w p m
    → Returns (λ n w'. (n ≡ length m.cursors) × (w' ≡ w)) (loro_undo_meta_cursors_len p w)
      × Returns
          (ReadsCursor w out_pos out_side (get_elem? m.cursors index))
          (loro_undo_meta_get_cursor p index out_pos out_side w)
unfolding loro_undo_meta_cursors_len loro_undo_meta_get_cursor meta_ref
get_cursor-ReadsCursor {loro} w p out_pos out_side m index at_p = (
  guarded _ (
      bind (
        rw (borrowed_or-live {R = ℕ} w p (as_undo_meta loro) null_meta_pointer 0 at_p)
          (goes (goes (refl, refl))))),
  guarded _ (
      bind (
        rw (borrowed_or-live w p (as_undo_meta loro) null_meta_pointer null_ptr at_p)
          (goes (cursor_read w out_pos out_side (get_elem? m.cursors index))))),
)

-- Where the method of the crate returns, the metadata is what it made.
pub set_value-returned :
    {loro : Loro} (crate : History loro) (w : World loro) (p v : Ptr) (m m' : UndoItemMeta loro)
    (x : LoroValue loro.ContainerId)
    → Points (as_undo_meta loro) w p m
    → Points (as_value loro) w v x
    → crate.meta_set_value m x ≡ (m', returns tt)
    → loro_undo_meta_set_value crate p v w
      ≡ returned loro_ok (record w { heap = update w.heap p (some (undo_meta m')) })
unfolding loro_undo_meta_set_value meta_ref mutate store call and_then finish
set_value-returned {loro} crate w p v m m' x at_p at_v made =
    rw (borrowed_or-live w p (as_undo_meta loro) null_meta_pointer loro_err_invalid_arg at_p)
      (rw (deref_or-live w v (as_value loro) loro_err_invalid_arg at_v) (rw made refl))
