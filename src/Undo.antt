-- ===== src/Undo.antt =====
-- loro-c-api/src/undo.rs: the handle of an undo manager.
pub mod Library
pub mod Meta
pub mod Listeners
pub mod Laws
use loro_c.Base.{
  ℕ, ◌==◌, if◌then◌else◌, Bool, true, false, Option, none, some, List, ascii, ◌++◌, Result, ok, err,
}
use loro_c.Base.Int.{ℤ}
use loro_c.World.{
  Loro, Ptr, null_ptr, Obj, doc, undo_manager, value, LoroValue, LoroError, ByteVec, Call, Handed,
  bool_cell,
}
use loro_c.Error.{LoroStatus, loro_ok, loro_err_invalid_arg, loro_err_panic}
use loro_c.Abi.{
  Body, Entry, ◌>>=◌, ◌>>◌, ffi_guard, pure, fail, call, deref_or, require_out, write_out, into_raw,
  free_box, loro_error, store,
}
use loro_c.Value.{write_bytes}
use loro_c.Value.Json.{string_or_return, mutate}
use loro_c.Subscribe.{Subscriber, as_doc, held_during, hand_over}
use Library.{History}

abbrev pub as_undo_manager : (loro : Loro) → Obj loro → Option loro.UndoManager
as_undo_manager loro (undo_manager m) = some m
as_undo_manager loro _ = none

abbrev undo_value_not_serialized : List ℕ → List ℕ
undo_value_not_serialized e = ascii "failed to serialize undo value: " ++ e

module _ {loro : Loro} where
  -- `um_mut`, and the early return that follows it.
  unfoldable pub um_mut : {R : Type 0} → Ptr → R → Body loro R loro.UndoManager
  um_mut p r = deref_or (as_undo_manager loro) p r

  -- `Ok(did) => { if !applied.is_null() { applied.write(did) } LORO_OK }`.
  pub write_applied : Result Bool LoroError → Ptr → Body loro LoroStatus LoroStatus
  write_applied (ok did) applied = do
    if applied == null_ptr then pure tt else write_out applied (bool_cell did)
    pure loro_ok
  write_applied (err e) applied = loro_error e

  pub done_or_error : Result (Unit {0}) LoroError → Body loro LoroStatus LoroStatus
  done_or_error (ok _) = pure loro_ok
  done_or_error (err e) = loro_error e

  unfoldable pub write_top : Result ByteVec (List ℕ) → Ptr → Body loro Bool Bool
  write_top (ok bytes) out = do write_bytes out bytes; pure true
  write_top (err e) out = fail (undo_value_not_serialized e) false

  unfoldable pub top_value_json : Option (LoroValue loro.ContainerId) → Ptr → Body loro Bool Bool
  top_value_json none out w = pure false w
  top_value_json (some v) out w = write_top (loro.value_json_bytes v) out w

  unfoldable box_top : Option (LoroValue loro.ContainerId) → Body loro Ptr Ptr
  box_top none = pure null_ptr
  box_top (some v) = into_raw (value v)

  -- A listener moves into a method that answers nothing.
  unfoldable pub install :
      Ptr → Subscriber → loro.UndoManager × Handed (Unit {0}) → Body loro LoroStatus (Unit {0})
  install p callback (m, h) = do store p (undo_manager m); hand_over callback h

  -- A method that answers nothing.
  unfoldable pub changed :
      (loro.UndoManager → loro.UndoManager × Call (Unit {0}))
      → Ptr
      → Body loro LoroStatus LoroStatus
  changed f p = do m ← um_mut p loro_err_invalid_arg; mutate undo_manager p (f m); pure loro_ok

  module _ (crate : History loro) where
    unfoldable loro_undo_manager_new : Ptr → Entry loro Ptr
    loro_undo_manager_new p = ffi_guard null_ptr do
      d ← deref_or (as_doc loro) p null_ptr
      m ← mutate doc p (crate.undo_new d)
      into_raw (undo_manager m)

    unfoldable pub loro_undo_manager_free : Ptr → Entry loro (Unit {0})
    loro_undo_manager_free p = ffi_guard tt (free_box (as_undo_manager loro) p)

    pub loro_undo_manager_undo : Ptr → Ptr → Entry loro LoroStatus
    loro_undo_manager_undo p applied = ffi_guard loro_err_panic do
      m ← um_mut p loro_err_invalid_arg
      did ← mutate undo_manager p (crate.undo_undo m)
      write_applied did applied

    pub loro_undo_manager_redo : Ptr → Ptr → Entry loro LoroStatus
    loro_undo_manager_redo p applied = ffi_guard loro_err_panic do
      m ← um_mut p loro_err_invalid_arg
      did ← mutate undo_manager p (crate.undo_redo m)
      write_applied did applied

    unfoldable loro_undo_manager_can_undo : Ptr → Entry loro Bool
    loro_undo_manager_can_undo p =
        ffi_guard false do m ← deref_or (as_undo_manager loro) p false; call (crate.undo_can_undo m)

    unfoldable loro_undo_manager_can_redo : Ptr → Entry loro Bool
    loro_undo_manager_can_redo p =
        ffi_guard false do m ← deref_or (as_undo_manager loro) p false; call (crate.undo_can_redo m)

    unfoldable loro_undo_manager_undo_count : Ptr → Entry loro ℕ
    loro_undo_manager_undo_count p =
        ffi_guard 0 do m ← deref_or (as_undo_manager loro) p 0; call (crate.undo_undo_count m)

    unfoldable loro_undo_manager_redo_count : Ptr → Entry loro ℕ
    loro_undo_manager_redo_count p =
        ffi_guard 0 do m ← deref_or (as_undo_manager loro) p 0; call (crate.undo_redo_count m)

    unfoldable loro_undo_manager_peer : Ptr → Entry loro ℕ
    loro_undo_manager_peer p =
        ffi_guard 0 do m ← deref_or (as_undo_manager loro) p 0; call (crate.undo_peer m)

    unfoldable loro_undo_manager_top_undo_value_json : Ptr → Ptr → Entry loro Bool
    loro_undo_manager_top_undo_value_json p out = ffi_guard false do
      m ← deref_or (as_undo_manager loro) p false
      require_out out false
      top ← call (crate.undo_top_undo_value m)
      top_value_json top out

    unfoldable loro_undo_manager_top_redo_value_json : Ptr → Ptr → Entry loro Bool
    loro_undo_manager_top_redo_value_json p out = ffi_guard false do
      m ← deref_or (as_undo_manager loro) p false
      require_out out false
      top ← call (crate.undo_top_redo_value m)
      top_value_json top out

    unfoldable loro_undo_manager_top_undo_value : Ptr → Entry loro Ptr
    loro_undo_manager_top_undo_value p = ffi_guard null_ptr do
      m ← deref_or (as_undo_manager loro) p null_ptr
      top ← call (crate.undo_top_undo_value m)
      box_top top

    unfoldable loro_undo_manager_top_redo_value : Ptr → Entry loro Ptr
    loro_undo_manager_top_redo_value p = ffi_guard null_ptr do
      m ← deref_or (as_undo_manager loro) p null_ptr
      top ← call (crate.undo_top_redo_value m)
      box_top top

    pub loro_undo_manager_record_new_checkpoint : Ptr → Entry loro LoroStatus
    loro_undo_manager_record_new_checkpoint p = ffi_guard loro_err_panic do
      m ← um_mut p loro_err_invalid_arg
      r ← mutate undo_manager p (crate.undo_record_new_checkpoint m)
      done_or_error r

    pub loro_undo_manager_set_merge_interval : Ptr → ℤ → Entry loro LoroStatus
    loro_undo_manager_set_merge_interval p interval_ms =
        ffi_guard loro_err_panic (changed (λ m. crate.undo_set_merge_interval m interval_ms) p)

    pub loro_undo_manager_set_max_undo_steps : Ptr → ℕ → Entry loro LoroStatus
    loro_undo_manager_set_max_undo_steps p steps =
        ffi_guard loro_err_panic (changed (λ m. crate.undo_set_max_undo_steps m steps) p)

    pub loro_undo_manager_add_exclude_origin_prefix : Ptr → Ptr → ℕ → Entry loro LoroStatus
    loro_undo_manager_add_exclude_origin_prefix p prefix prefix_len = ffi_guard loro_err_panic do
      m ← um_mut p loro_err_invalid_arg
      s ← string_or_return prefix prefix_len loro_err_invalid_arg
      mutate undo_manager p (crate.undo_add_exclude_origin_prefix m s)
      pure loro_ok

    pub loro_undo_manager_clear : Ptr → Entry loro LoroStatus
    loro_undo_manager_clear p = ffi_guard loro_err_panic (changed crate.undo_clear p)

    pub loro_undo_manager_group_start : Ptr → Entry loro LoroStatus
    loro_undo_manager_group_start p = ffi_guard loro_err_panic do
      m ← um_mut p loro_err_invalid_arg
      r ← mutate undo_manager p (crate.undo_group_start m)
      done_or_error r

    pub loro_undo_manager_group_end : Ptr → Entry loro LoroStatus
    loro_undo_manager_group_end p = ffi_guard loro_err_panic (changed crate.undo_group_end p)

    pub loro_undo_manager_pause : Ptr → Entry loro LoroStatus
    loro_undo_manager_pause p = ffi_guard loro_err_panic (changed crate.undo_pause p)

    pub loro_undo_manager_resume : Ptr → Entry loro LoroStatus
    loro_undo_manager_resume p = ffi_guard loro_err_panic (changed crate.undo_resume p)

    unfoldable loro_undo_manager_is_paused : Ptr → Entry loro Bool
    loro_undo_manager_is_paused p =
        ffi_guard false
          do m ← deref_or (as_undo_manager loro) p false; call (crate.undo_is_paused m)

    -- `LoroUndoOnPush` and `LoroUndoOnPop` implement `Drop`; the closure takes the callback over.
    pub loro_undo_manager_set_on_push : Ptr → Subscriber → Entry loro LoroStatus
    loro_undo_manager_set_on_push p callback = ffi_guard loro_err_panic do
      m ← held_during callback (um_mut p loro_err_invalid_arg)
      install p callback (crate.undo_set_on_push m)
      pure loro_ok

    pub loro_undo_manager_set_on_pop : Ptr → Subscriber → Entry loro LoroStatus
    loro_undo_manager_set_on_pop p callback = ffi_guard loro_err_panic do
      m ← held_during callback (um_mut p loro_err_invalid_arg)
      install p callback (crate.undo_set_on_pop m)
      pure loro_ok
