-- ===== src/Version/Travel.antt =====
-- Time travel and the versions of a document, in loro-c-api/src/version.rs. A document changes behind
-- a shared reference: a checkout changes its state, and an export commits what is pending.
pub mod Laws
use loro_c.Base.{Bool, false, Option, none, some, List, ℕ, ascii, Result, ok, err}
use loro_c.World.{
  Loro, Ptr, null_ptr, ByteVec, LoroError, LoroEncodeError, doc, version_vector, frontiers, Call,
}
use loro_c.Error.{LoroStatus, loro_ok, loro_err_invalid_arg, loro_err_panic, record_encode_error}
use loro_c.Abi.{
  go, Entry, Body, ◌>>=◌, ◌>>◌, ffi_guard, pure, fail, call, deref_or, require_out, store, into_raw,
  loro_error,
}
use loro_c.Value.{write_bytes}
use loro_c.Version.Ids.{as_version_vector, as_frontiers}
use loro_c.Subscribe.{as_doc}

abbrev not_in_history : List ℕ
not_in_history = ascii "frontiers not contained in the document history"

module _ {loro : Loro} where
  pub box_vv : loro.VersionVector → Body loro Ptr Ptr
  box_vv vv = into_raw (version_vector vv)

  pub box_vv_or : Result loro.VersionVector LoroError → Body loro Ptr Ptr
  box_vv_or (ok vv) = box_vv vv
  box_vv_or (err e) = fail (loro.error_text e) null_ptr

  pub box_found_vv : Result (Option loro.VersionVector) LoroError → Body loro Ptr Ptr
  box_found_vv (ok (some vv)) = box_vv vv
  box_found_vv (ok none) = fail not_in_history null_ptr
  box_found_vv (err e) = fail (loro.error_text e) null_ptr

  pub box_frontiers_or : Result loro.Frontiers LoroError → Body loro Ptr Ptr
  box_frontiers_or (ok f) = into_raw (frontiers f)
  box_frontiers_or (err e) = fail (loro.error_text e) null_ptr

  pub loro_doc_oplog_vv : Ptr → Entry loro Ptr
  loro_doc_oplog_vv p =
      ffi_guard null_ptr
        do d ← deref_or (as_doc loro) p null_ptr; vv ← call (loro.doc_oplog_vv d); box_vv vv

  pub loro_doc_state_vv : Ptr → Entry loro Ptr
  loro_doc_state_vv p = ffi_guard null_ptr do
    d ← deref_or (as_doc loro) p null_ptr
    resolved ← call (loro.doc_try_state_vv d)
    box_vv_or resolved

  pub loro_doc_oplog_frontiers : Ptr → Entry loro Ptr
  loro_doc_oplog_frontiers p = ffi_guard null_ptr do
    d ← deref_or (as_doc loro) p null_ptr
    f ← call (loro.doc_oplog_frontiers d)
    into_raw (frontiers f)

  unfoldable loro_doc_state_frontiers : Ptr → Entry loro Ptr
  loro_doc_state_frontiers p = ffi_guard null_ptr do
    d ← deref_or (as_doc loro) p null_ptr
    f ← call (loro.doc_state_frontiers d)
    into_raw (frontiers f)

  unfoldable loro_doc_is_shallow : Ptr → Entry loro Bool
  loro_doc_is_shallow p =
      ffi_guard false do d ← deref_or (as_doc loro) p false; call (loro.doc_is_shallow d)

  unfoldable loro_doc_shallow_since_vv : Ptr → Entry loro Ptr
  loro_doc_shallow_since_vv p =
      ffi_guard null_ptr
        do d ← deref_or (as_doc loro) p null_ptr; vv ← call (loro.doc_shallow_since_vv d); box_vv vv

  pub loro_doc_frontiers_to_vv : Ptr → Ptr → Entry loro Ptr
  loro_doc_frontiers_to_vv p f = ffi_guard null_ptr do
    d ← deref_or (as_doc loro) p null_ptr
    ids ← deref_or (as_frontiers loro) f null_ptr
    found ← call (loro.doc_try_frontiers_to_vv d ids)
    box_found_vv found

  pub loro_doc_vv_to_frontiers : Ptr → Ptr → Entry loro Ptr
  loro_doc_vv_to_frontiers p v = ffi_guard null_ptr do
    d ← deref_or (as_doc loro) p null_ptr
    vv ← deref_or (as_version_vector loro) v null_ptr
    found ← call (loro.doc_try_vv_to_frontiers d vv)
    box_frontiers_or found

  -- A method of the document, which changes it behind `&self`.
  unfoldable mutate_doc : {R A : Type 0} → Ptr → loro.Doc × Call A → Body loro R A
  mutate_doc p (d, c) = do store p (doc d); call c

  unfoldable pub checkout_status : Result (Unit {0}) LoroError → Body loro LoroStatus LoroStatus
  checkout_status (ok _) = pure loro_ok
  checkout_status (err e) = loro_error e

  unfoldable loro_doc_checkout : Ptr → Ptr → Entry loro LoroStatus
  loro_doc_checkout p f = ffi_guard loro_err_panic do
    d ← deref_or (as_doc loro) p loro_err_invalid_arg
    ids ← deref_or (as_frontiers loro) f loro_err_invalid_arg
    checked_out ← mutate_doc p (loro.doc_checkout d ids)
    checkout_status checked_out

  unfoldable loro_doc_checkout_to_latest : Ptr → Entry loro LoroStatus
  loro_doc_checkout_to_latest p = ffi_guard loro_err_panic do
    d ← deref_or (as_doc loro) p loro_err_invalid_arg
    mutate_doc p (loro.doc_checkout_to_latest d)
    pure loro_ok

  unfoldable loro_doc_is_detached : Ptr → Entry loro Bool
  loro_doc_is_detached p =
      ffi_guard false do d ← deref_or (as_doc loro) p false; call (loro.doc_is_detached d)

  -- `Err(e) => record_encode_error(&e)`.
  unfoldable pub encode_error : LoroEncodeError → Body loro LoroStatus LoroStatus
  encode_error e w = let (status, w') = record_encode_error e w in go status w'

  unfoldable pub write_export :
      Result ByteVec LoroEncodeError → Ptr → Body loro LoroStatus LoroStatus
  write_export (ok bytes) out = do write_bytes out bytes; pure loro_ok
  write_export (err e) out = encode_error e

  unfoldable loro_doc_export_updates_from : Ptr → Ptr → Ptr → Entry loro LoroStatus
  loro_doc_export_updates_from p from out = ffi_guard loro_err_panic do
    d ← deref_or (as_doc loro) p loro_err_invalid_arg
    vv ← deref_or (as_version_vector loro) from loro_err_invalid_arg
    require_out out loro_err_invalid_arg
    exported ← mutate_doc p (loro.doc_export_updates d vv)
    write_export exported out
