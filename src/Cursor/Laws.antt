-- ===== src/Cursor/Laws.antt =====
-- Where a cursor stands, as the two queries of a document tell it.
use loro_c.Base.{◌∙◌, ◌≡◌, ◌≢◌, refl, Option, none, some, Result, ok, err, ◌==◌, ◌||◌, false, arith}
use loro_c.World.{
  Loro, World, Ptr, null_ptr, Cell, cursor, Call, returns, panics, update, position_cell,
  pointer_cell,
}
use loro_c.Error.{
  LoroStatus, loro_ok, loro_err_decode, loro_err_not_found, loro_err_panic, set_last_error,
}
use loro_c.Abi.{and_then, call}
use loro_c.Abi.Laws.{Returns, Points, AfterPanic, Ends, bind, goes, guarded, unwinding}
use loro_c.Abi.Memory.{update-same, update-other}
use loro_c.Abi.Steps.{alloc_any, deref_at, fail_any, out_at, write_any}
use loro_c.Awareness.Typed.{require_outs}
use loro_c.Subscribe.{as_doc}
use loro_c.Cursor.{
  CannotFindRelativePosition, PosQueryResult, Cursors, as_cursor, position, history_unreadable,
  other_position_error, record_cursor_error, write_position, write_position_full, box_update,
  loro_doc_get_cursor_pos, loro_doc_get_cursor_pos_full,
}

module _ {loro : Loro} (w : World loro) (out : Ptr) where
  -- What a query tells the caller for each answer of the crate: the position, or why there is none.
  abbrev pub Tells :
      Call (Result (PosQueryResult loro) CannotFindRelativePosition)
      → LoroStatus
      → World loro
      → Type 0
  Tells (returns (ok found)) status w' =
      (status ≡ loro_ok) × (w'.c_cell out ≡ some (position_cell (position found.current)))
  Tells (returns (err (history_unreadable _))) status w' =
      (status ≡ loro_err_decode) × (w'.c_cell ≡ w.c_cell) × (w'.heap ≡ w.heap)
  Tells (returns (err (other_position_error _))) status w' =
      (status ≡ loro_err_not_found) × (w'.c_cell ≡ w.c_cell) × (w'.heap ≡ w.heap)
  Tells panics status w' = (status ≡ loro_err_panic) × (w'.c_cell ≡ w.c_cell) × (w'.heap ≡ w.heap)

  told :
      (ne : out ≢ null_ptr) (c : Call (Result (PosQueryResult loro) CannotFindRelativePosition))
      → Ends ⊥
          (Tells c)
          (AfterPanic (Tells c) loro_err_panic)
          (Tells c)
          (and_then (call c w) (λ found. write_position found out))
  unfolding call write_position record_cursor_error set_last_error
  told ne (returns (ok found)) =
      bind (goes (bind (write_any w out _ ne (goes (refl, update-same w.c_cell out _)))))
  told ne (returns (err (history_unreadable t))) = bind (goes (fail_any w _ _ (refl, refl, refl)))
  told ne (returns (err (other_position_error t))) = bind (goes (fail_any w _ _ (refl, refl, refl)))
  told ne panics = bind (unwinding (refl, refl, refl))

module _ {loro : Loro} (w : World loro) (out out_update : Ptr) where
  -- The second variable: null, or a new box with the cursor that replaces a stale one.
  abbrev pub Updates : Option loro.Cursor → World loro → Type 0
  Updates none w' = (w'.c_cell out_update ≡ some (pointer_cell null_ptr)) × (w'.heap ≡ w.heap)
  Updates (some c) w' =
      (w'.c_cell out_update ≡ some (pointer_cell w.next))
      × (w'.heap ≡ update w.heap w.next (some (cursor c)))

  -- The same answer, and the update where there is a position.
  abbrev pub TellsAll :
      Call (Result (PosQueryResult loro) CannotFindRelativePosition)
      → LoroStatus
      → World loro
      → Type 0
  TellsAll (returns (ok found)) status w' =
      Tells w out (returns (ok found)) status w' × Updates found.update w'
  TellsAll c status w' = Tells w out c status w'

  -- The caller's variables with the position in the first.
  abbrev placed : PosQueryResult loro → Ptr → Option Cell
  placed found = update w.c_cell out (some (position_cell (position found.current)))

  position_told :
      (out_ne : out ≢ null_ptr) (update_ne : out_update ≢ null_ptr) {U : World loro → Type 0}
      (found : PosQueryResult loro) (u : Option loro.Cursor)
      → found.update ≡ u
      → out ≢ out_update
      → Ends ⊥
          (TellsAll (returns (ok found)))
          U
          (TellsAll (returns (ok found)))
          (write_position_full (ok found) out out_update w)
  unfolding write_position_full box_update
  position_told out_ne update_ne found none e ne = rw e (
      bind (
        goes (
          bind (
            write_any w out _ out_ne (
              bind (
                write_any _ out_update _ update_ne (
                  goes (
                    (refl, update-other (placed found) _ _ _ ne ∙ update-same w.c_cell out _),
                    (update-same (placed found) out_update _, refl),
                  ))))))))
  position_told out_ne update_ne found (some c) e ne = rw e (
      bind (
        alloc_any w _ (
          bind (
            write_any _ out _ out_ne (
              bind (
                write_any _ out_update _ update_ne (
                  goes (
                    (refl, update-other (placed found) _ _ _ ne ∙ update-same w.c_cell out _),
                    (update-same (placed found) out_update _, refl),
                  ))))))))

  all_told :
      (out_ne : out ≢ null_ptr) (update_ne : out_update ≢ null_ptr)
      (c : Call (Result (PosQueryResult loro) CannotFindRelativePosition))
      → out ≢ out_update
      → Ends ⊥
          (TellsAll c)
          (AfterPanic (TellsAll c) loro_err_panic)
          (TellsAll c)
          (and_then (call c w) (λ found. write_position_full found out out_update))
  unfolding call write_position_full record_cursor_error set_last_error
  all_told out_ne update_ne (returns (ok found)) ne =
      bind (goes (position_told out_ne update_ne found _ refl ne))
  all_told out_ne update_ne (returns (err (history_unreadable t))) ne =
      bind (goes (fail_any w _ _ (refl, refl, refl)))
  all_told out_ne update_ne (returns (err (other_position_error t))) ne =
      bind (goes (fail_any w _ _ (refl, refl, refl)))
  all_told out_ne update_ne panics ne = bind (unwinding (refl, refl, refl))

-- The two queries for the position of a live cursor in a live document, with variables that are not
-- null and, for the full query, differ: both return, with the same status and the same position in
-- the first variable. An unreadable history is told by the status "decode", every other reason by
-- "not found", a panic by its own status, and in these cases no box and no variable changed. The full
-- query also writes its second variable on success: null, or a new box with the cursor that replaces
-- the given one.
pub get_cursor_pos-Tells :
    {loro : Loro} (crate : Cursors loro) (w : World loro) (p c out out_update : Ptr) (d : loro.Doc)
    (x : loro.Cursor)
    → Points (as_doc loro) w p d
    → Points (as_cursor loro) w c x
    → out ≢ null_ptr
    → out_update ≢ null_ptr
    → out ≢ out_update
    → Returns (Tells w out (crate.doc_get_cursor_pos d x)) (loro_doc_get_cursor_pos crate p c out w)
      × Returns
          (TellsAll w out out_update (crate.doc_get_cursor_pos d x))
          (loro_doc_get_cursor_pos_full crate p c out out_update w)
unfolding loro_doc_get_cursor_pos loro_doc_get_cursor_pos_full require_outs
get_cursor_pos-Tells {loro} crate w p c out out_update d x at_p at_c ne ne' differ = (
  guarded _ (
      bind (
        deref_at w (as_doc loro) p _ at_p (
          bind (
            deref_at w (as_cursor loro) c _ at_c
              (bind (out_at w out _ ne (told w out ne (crate.doc_get_cursor_pos d x)))))))),
  guarded _ (
      bind (
        deref_at w (as_doc loro) p _ at_p (
          bind (
            deref_at w (as_cursor loro) c _ at_c (
              rw (both out out_update ne ne') (
                bind (
                  goes
                    (all_told w out out_update ne ne' (crate.doc_get_cursor_pos d x) differ)))))))),
)
  where
    both : (a b : Ptr) → a ≢ null_ptr → b ≢ null_ptr → ((a == null_ptr) || (b == null_ptr)) ≡ false
    both a b h k = ground arith
