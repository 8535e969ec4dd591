-- ===== src/Document/Export.antt =====
-- loro-c-api/src/doc.rs: the functions that export snapshots and updates.
use loro_c.Base.{
  ℕ, ◌==◌, leb, if◌then◌else◌, Bool, true, false, Option, none, some, List, [], ◌++◌, ascii, length,
  map, take, Result, ok, err,
}
use loro_c.World.{
  Loro, Ptr, null_ptr, doc, LoroIdSpan, LoroEncodeError, LoroError, ByteVec, LoroBytes, bool_cell,
  bytes_cell,
}
use loro_c.Error.{LoroStatus, loro_ok, loro_err_invalid_arg, loro_err_panic}
use loro_c.Abi.{
  Body, Entry, Outcome, returned, undefined_behaviour, go, undefined, ◌>>=◌, ◌>>◌, ffi_guard, pure,
  fail, load, deref_or, require_out, write_out, loro_error,
}
use loro_c.Value.{write_bytes}
use loro_c.Value.Json.{mutate, write_serialized}
use loro_c.Version.Ids.{as_version_vector, as_frontiers, span_to_loro}
use loro_c.Version.Travel.{encode_error, write_export}
use loro_c.Subscribe.{as_doc}
use loro_c.Document.Library.{
  Documents, ExportMode, snapshot, all_updates, shallow_snapshot, snapshot_at, state_only,
  updates_in_range,
}

abbrev null_spans_pointer : List ℕ
null_spans_pointer = ascii "null spans pointer passed to loro-c-api"

abbrev updates_not_serialized : List ℕ → List ℕ
updates_not_serialized e = ascii "failed to serialize JSON updates: " ++ e

abbrev changes_not_serialized : List ℕ → List ℕ
changes_not_serialized e = ascii "failed to serialize id-span changes: " ++ e

-- `LoroBytes::empty`.
abbrev empty : LoroBytes
empty = record { data_ptr = null_ptr; len = 0; cap = 0 }

unfoldable is_some : Option ByteVec → Bool
is_some none = false
is_some (some _) = true

module _ {loro : Loro} where
  -- What a function with a guard of its own answers, inside another body.
  unfoldable answered : Outcome loro LoroStatus → Body loro LoroStatus LoroStatus
  answered (returned r w') w = go r w'
  answered undefined_behaviour w = undefined

  -- `slice::from_raw_parts` on an array of spans, `none` for the null pointer.
  unfoldable read_spans : Option (List LoroIdSpan) → ℕ → Body loro LoroStatus (List LoroIdSpan)
  read_spans none count w =
      (if count == 0 then pure [] else fail null_spans_pointer loro_err_invalid_arg) w
  read_spans (some spans) count w =
      if leb count (length spans) then go (take count spans) w else undefined

  -- `unsafe { frontiers.as_ref() }`.
  unfoldable frontiers_or_none : Ptr → Body loro LoroStatus (Option loro.Frontiers)
  frontiers_or_none f =
      if f == null_ptr then pure none else (do ids ← load (as_frontiers loro) f; pure (some ids))

  unfoldable write_pending_bytes : Option ByteVec → Ptr → Body loro LoroStatus (Unit {0})
  write_pending_bytes none out = write_out out (bytes_cell empty)
  write_pending_bytes (some bytes) out = write_bytes out bytes

  unfoldable write_pending :
      Result (Option ByteVec) LoroEncodeError → Ptr → Ptr → Body loro LoroStatus LoroStatus
  write_pending (ok pending) out has_pending = do
    if has_pending == null_ptr then pure tt else write_out has_pending (bool_cell (is_some pending))
    write_pending_bytes pending out
    pure loro_ok
  write_pending (err e) out has_pending = encode_error e

  module _ (crate : Documents loro) where
    unfoldable export_with : Ptr → Ptr → ExportMode loro → Entry loro LoroStatus
    export_with p out mode = ffi_guard loro_err_panic do
      d ← deref_or (as_doc loro) p loro_err_invalid_arg
      require_out out loro_err_invalid_arg
      exported ← mutate doc p (crate.doc_export d mode)
      write_export exported out

    unfoldable loro_doc_export_snapshot : Ptr → Ptr → Entry loro LoroStatus
    loro_doc_export_snapshot p out = export_with p out snapshot

    unfoldable loro_doc_export_updates : Ptr → Ptr → Entry loro LoroStatus
    loro_doc_export_updates p out = export_with p out all_updates

    -- The three functions that read their frontiers outside any guard: nothing there can panic, so
    -- that a guard with the same fallback changes nothing.
    unfoldable loro_doc_export_shallow_snapshot : Ptr → Ptr → Ptr → Entry loro LoroStatus
    loro_doc_export_shallow_snapshot p f out = ffi_guard loro_err_panic do
      ids ← deref_or (as_frontiers loro) f loro_err_invalid_arg
      λ w. answered (export_with p out (shallow_snapshot ids) w) w

    unfoldable loro_doc_export_snapshot_at : Ptr → Ptr → Ptr → Entry loro LoroStatus
    loro_doc_export_snapshot_at p f out = ffi_guard loro_err_panic do
      ids ← deref_or (as_frontiers loro) f loro_err_invalid_arg
      λ w. answered (export_with p out (snapshot_at ids) w) w

    unfoldable loro_doc_export_state_only : Ptr → Ptr → Ptr → Entry loro LoroStatus
    loro_doc_export_state_only p f out =
        ffi_guard loro_err_panic
          do ids ← frontiers_or_none f; λ w. answered (export_with p out (state_only ids) w) w

    unfoldable loro_doc_export_updates_in_range :
        Ptr → Option (List LoroIdSpan) → ℕ → Ptr → Entry loro LoroStatus
    loro_doc_export_updates_in_range p spans count out = ffi_guard loro_err_panic do
      slice ← read_spans spans count
      λ w. answered (export_with p out (updates_in_range (map span_to_loro slice)) w) w

    unfoldable loro_doc_export_pending_updates : Ptr → Ptr → Ptr → Entry loro LoroStatus
    loro_doc_export_pending_updates p out has_pending = ffi_guard loro_err_panic do
      d ← deref_or (as_doc loro) p loro_err_invalid_arg
      require_out out loro_err_invalid_arg
      pending ← mutate doc p (crate.doc_export_pending_updates d)
      write_pending pending out has_pending

    unfoldable write_schema :
        Result crate.JsonSchema LoroError → Ptr → Body loro LoroStatus LoroStatus
    write_schema (ok schema) out =
        write_serialized (crate.schema_bytes schema) updates_not_serialized out
    write_schema (err e) out = loro_error e

    unfoldable export_json_updates_impl : Ptr → Ptr → Ptr → Ptr → Bool → Entry loro LoroStatus
    export_json_updates_impl p start_vv end_vv out compress = ffi_guard loro_err_panic do
      d ← deref_or (as_doc loro) p loro_err_invalid_arg
      start ← deref_or (as_version_vector loro) start_vv loro_err_invalid_arg
      end ← deref_or (as_version_vector loro) end_vv loro_err_invalid_arg
      require_out out loro_err_invalid_arg
      exported ← mutate doc p (
          if compress
          then crate.doc_export_json_updates d start end
          else crate.doc_export_json_updates_without_peer_compression d start end)
      write_schema exported out

    unfoldable loro_doc_export_json_updates : Ptr → Ptr → Ptr → Ptr → Entry loro LoroStatus
    loro_doc_export_json_updates p start_vv end_vv out =
        export_json_updates_impl p start_vv end_vv out true

    unfoldable loro_doc_export_json_updates_without_peer_compression :
        Ptr → Ptr → Ptr → Ptr → Entry loro LoroStatus
    loro_doc_export_json_updates_without_peer_compression p start_vv end_vv out =
        export_json_updates_impl p start_vv end_vv out false

    unfoldable loro_doc_export_json_in_id_span : Ptr → LoroIdSpan → Ptr → Entry loro LoroStatus
    loro_doc_export_json_in_id_span p span out = ffi_guard loro_err_panic do
      d ← deref_or (as_doc loro) p loro_err_invalid_arg
      require_out out loro_err_invalid_arg
      changes ← mutate doc p (crate.doc_export_json_in_id_span d (span_to_loro span))
      write_serialized (crate.changes_bytes changes) changes_not_serialized out
