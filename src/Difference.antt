-- ===== src/Difference.antt =====
-- loro-c-api/src/diff.rs: the difference of two versions as a batch of diffs, applied and reverted.
use loro_c.Base.{Option, none, some, List, [], ◌∷◌, Result, ok, err}
use loro_c.World.{
  Loro, Ptr, doc, Obj, diff_batch, Diff, LoroError, Call, returns, JsonValue, JsonFields, object,
  end_json, field_json, pointer_cell,
}
use loro_c.Error.{LoroStatus, loro_ok, loro_err_invalid_arg, loro_err_panic}
use loro_c.Abi.{
  Body, Entry, ◌>>=◌, ◌>>◌, ffi_guard, pure, call, deref_or, require_out, write_out, into_raw,
  free_box, loro_error,
}
use loro_c.Value.Json.{mutate, write_serialized}
use loro_c.Version.Ids.{as_frontiers}
use loro_c.Version.Travel.{checkout_status}
use loro_c.Subscribe.{as_doc}
use loro_c.Event.{diff_not_serialized}
use loro_c.Event.Json.{Diffs, and_then_call, diff_to_json}

abbrev pub DiffBatch : (loro : Loro) → Type 0
DiffBatch loro = List (loro.ContainerId × Diff loro)

-- The methods of loro::LoroDoc, and what the marshalling asks of the crate.
pub record Differences (loro : Loro) : Type 0 where
  pub diffs : Diffs loro
  pub doc_diff :
      loro.Doc → loro.Frontiers → loro.Frontiers → Call (Result (DiffBatch loro) LoroError)
  pub doc_apply_diff : loro.Doc → DiffBatch loro → loro.Doc × Call (Result (Unit {0}) LoroError)
  pub doc_revert_to : loro.Doc → loro.Frontiers → loro.Doc × Call (Result (Unit {0}) LoroError)

abbrev as_diff_batch : (loro : Loro) → Obj loro → Option (DiffBatch loro)
as_diff_batch loro (diff_batch b) = some b
as_diff_batch loro _ = none

module _ {loro : Loro} where
  unfoldable loro_diff_batch_free : Ptr → Entry loro (Unit {0})
  loro_diff_batch_free p = ffi_guard tt (free_box (as_diff_batch loro) p)

  unfoldable write_batch : Result (DiffBatch loro) LoroError → Ptr → Body loro LoroStatus LoroStatus
  write_batch (err e) out = loro_error e
  write_batch (ok batch) out = do
    p ← into_raw (diff_batch batch)
    write_out out (pointer_cell p)
    pure loro_ok

  module _ (crate : Differences loro) where
    unfoldable loro_doc_diff : Ptr → Ptr → Ptr → Ptr → Entry loro LoroStatus
    loro_doc_diff p from_f to_f out = ffi_guard loro_err_panic do
      d ← deref_or (as_doc loro) p loro_err_invalid_arg
      from ← deref_or (as_frontiers loro) from_f loro_err_invalid_arg
      to ← deref_or (as_frontiers loro) to_f loro_err_invalid_arg
      require_out out loro_err_invalid_arg
      found ← call (crate.doc_diff d from to)
      write_batch found out

    unfoldable loro_doc_apply_diff : Ptr → Ptr → Entry loro LoroStatus
    loro_doc_apply_diff p batch = ffi_guard loro_err_panic do
      d ← deref_or (as_doc loro) p loro_err_invalid_arg
      b ← deref_or (as_diff_batch loro) batch loro_err_invalid_arg
      applied ← mutate doc p (crate.doc_apply_diff d b)
      checkout_status applied

    unfoldable loro_doc_revert_to : Ptr → Ptr → Entry loro LoroStatus
    loro_doc_revert_to p f = ffi_guard loro_err_panic do
      d ← deref_or (as_doc loro) p loro_err_invalid_arg
      ids ← deref_or (as_frontiers loro) f loro_err_invalid_arg
      reverted ← mutate doc p (crate.doc_revert_to d ids)
      checkout_status reverted

    unfoldable batch_fields : DiffBatch loro → Call JsonFields
    batch_fields [] = returns end_json
    batch_fields ((cid, diff) ∷ batch) = and_then_call (diff_to_json crate.diffs diff) (λ j.
        and_then_call (batch_fields batch)
          (λ fs. returns (field_json (loro.container_id_text cid).items j fs)))

    unfoldable diff_batch_to_json : DiffBatch loro → Call JsonValue
    diff_batch_to_json batch = and_then_call (batch_fields batch) (λ fs. returns (object fs))

    unfoldable loro_diff_batch_to_json : Ptr → Ptr → Entry loro LoroStatus
    loro_diff_batch_to_json batch out = ffi_guard loro_err_panic do
      b ← deref_or (as_diff_batch loro) batch loro_err_invalid_arg
      require_out out loro_err_invalid_arg
      j ← call (diff_batch_to_json b)
      write_serialized (loro.json_bytes j) diff_not_serialized out
