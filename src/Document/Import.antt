-- ===== src/Document/Import.antt =====
-- loro-c-api/src/doc.rs: the functions that import updates, alone, in batches, and as JSON.
pub mod Laws
use loro_c.Base.{
  ℕ, ◌==◌, leb, ◌&&◌, not, if◌then◌else◌, Option, none, some, List, [], ◌∷◌, ◌++◌, ascii, length,
  take, Result, ok, err,
}
use loro_c.World.{Loro, Ptr, null_ptr, doc, LoroError, pointer_cell}
use loro_c.Error.{LoroStatus, loro_ok, loro_err_invalid_arg, loro_err_panic}
use loro_c.Abi.{
  Body, Entry, go, unwinds, undefined, ◌>>=◌, ◌>>◌, ffi_guard, pure, fail, deref_or, write_out,
  loro_error,
}
use loro_c.Value.{bytes_or_empty}
use loro_c.Value.Json.{string_or_return, slice_or_return, mutate, null_data_pointer}
use loro_c.ImportStatus.{ImportStatus, box_status}
use loro_c.Subscribe.{as_doc}
use loro_c.Document.Library.{Documents, ImportHistoryMode, exact, json_lossy}

pub data LoroImportHistoryMode : Type 0 where
  loro_import_history_exact loro_import_history_json_lossy : LoroImportHistoryMode

unfoldable pub to_import_history_mode : LoroImportHistoryMode → ImportHistoryMode
to_import_history_mode loro_import_history_exact = exact
to_import_history_mode loro_import_history_json_lossy = json_lossy

abbrev null_blobs_pointer : List ℕ
null_blobs_pointer = ascii "null datas/lens pointer passed to loro-c-api"

abbrev pub null_blob_pointer : List ℕ → List ℕ
null_blob_pointer fn_name = ascii "null blob pointer passed to " ++ fn_name

module _ {loro : Loro} where
  -- `Ok(_) => LORO_OK, Err(e) => record_loro_error(&e)`.
  unfoldable pub imported : Result ImportStatus LoroError → Body loro LoroStatus LoroStatus
  imported (ok _) = pure loro_ok
  imported (err e) = loro_error e

  -- The status goes to `*out`, unless `out` is null.
  unfoldable pub write_status : Ptr → ImportStatus → Body loro LoroStatus (Unit {0})
  write_status out status =
      if out == null_ptr
      then pure tt
      else (do p ← box_status status; write_out out (pointer_cell p))

  unfoldable pub finish_import_status :
      Result ImportStatus LoroError → Ptr → Body loro LoroStatus LoroStatus
  finish_import_status (ok status) out = do write_status out status; pure loro_ok
  finish_import_status (err e) out = loro_error e

  -- `if data.is_null() && len != 0 { .. }`, before the other arguments are read.
  unfoldable pub data_present : Ptr → ℕ → Body loro LoroStatus (Unit {0})
  data_present p len =
      if (p == null_ptr) && not (len == 0)
      then fail null_data_pointer loro_err_invalid_arg
      else pure tt

  -- An array of `count` elements, `none` for the null pointer; read only if `count` is not 0.
  unfoldable pub array_of : {A : Type 0} → Option (List A) → ℕ → Body loro LoroStatus (List A)
  array_of none count w =
      (if count == 0 then pure [] else fail null_blobs_pointer loro_err_invalid_arg) w
  array_of (some xs) count w = if leb count (length xs) then go (take count xs) w else undefined

  -- One blob, and the loop over the lengths with `ptrs[i]`.
  unfoldable pub blob : List ℕ → Ptr → ℕ → Body loro LoroStatus (List ℕ)
  blob fn_name p len =
      if (p == null_ptr) && not (len == 0)
      then fail (null_blob_pointer fn_name) loro_err_invalid_arg
      else bytes_or_empty p len

  unfoldable pub blobs_of : List ℕ → List Ptr → List ℕ → Body loro LoroStatus (List (List ℕ))
  blobs_of fn_name ptrs [] w = go [] w
  blobs_of fn_name [] (len ∷ lens) w = unwinds w
  blobs_of fn_name (p ∷ ptrs) (len ∷ lens) w =
      let rest = blobs_of fn_name ptrs lens in
      (blob fn_name p len >>= λ b. rest >>= λ bs. pure (b ∷ bs)) w

  -- `blobs_from_raw`, and the early return that follows it.
  unfoldable pub blobs_from_raw :
      Option (List Ptr) → Option (List ℕ) → ℕ → List ℕ → Body loro LoroStatus (List (List ℕ))
  blobs_from_raw datas lens count fn_name = do
    ptrs ← array_of datas count
    lengths ← array_of lens count
    blobs_of fn_name ptrs lengths

  module _ (crate : Documents loro) where
    pub loro_doc_import : Ptr → Ptr → ℕ → Entry loro LoroStatus
    loro_doc_import p bytes_at len = ffi_guard loro_err_panic do
      d ← deref_or (as_doc loro) p loro_err_invalid_arg
      bytes ← slice_or_return bytes_at len loro_err_invalid_arg
      r ← mutate doc p (crate.doc_import d bytes)
      imported r

    pub loro_doc_import_status : Ptr → Ptr → ℕ → Ptr → Entry loro LoroStatus
    loro_doc_import_status p bytes_at len out = ffi_guard loro_err_panic do
      d ← deref_or (as_doc loro) p loro_err_invalid_arg
      bytes ← slice_or_return bytes_at len loro_err_invalid_arg
      r ← mutate doc p (crate.doc_import d bytes)
      finish_import_status r out

    pub loro_doc_import_json_updates : Ptr → Ptr → ℕ → Entry loro LoroStatus
    loro_doc_import_json_updates p json len = ffi_guard loro_err_panic do
      d ← deref_or (as_doc loro) p loro_err_invalid_arg
      s ← string_or_return json len loro_err_invalid_arg
      r ← mutate doc p (crate.doc_import_json_updates d s)
      imported r

    pub loro_doc_import_json_updates_status : Ptr → Ptr → ℕ → Ptr → Entry loro LoroStatus
    loro_doc_import_json_updates_status p json len out = ffi_guard loro_err_panic do
      d ← deref_or (as_doc loro) p loro_err_invalid_arg
      s ← string_or_return json len loro_err_invalid_arg
      r ← mutate doc p (crate.doc_import_json_updates d s)
      finish_import_status r out

    pub loro_doc_import_batch :
        Ptr → Option (List Ptr) → Option (List ℕ) → ℕ → Entry loro LoroStatus
    loro_doc_import_batch p datas lens count = ffi_guard loro_err_panic do
      d ← deref_or (as_doc loro) p loro_err_invalid_arg
      blobs ← blobs_from_raw datas lens count (ascii "loro_doc_import_batch")
      r ← mutate doc p (crate.doc_import_batch d blobs)
      imported r

    unfoldable loro_doc_import_batch_status :
        Ptr → Option (List Ptr) → Option (List ℕ) → ℕ → Ptr → Entry loro LoroStatus
    loro_doc_import_batch_status p datas lens count out = ffi_guard loro_err_panic do
      d ← deref_or (as_doc loro) p loro_err_invalid_arg
      blobs ← blobs_from_raw datas lens count (ascii "loro_doc_import_batch_status")
      r ← mutate doc p (crate.doc_import_batch d blobs)
      finish_import_status r out

    pub loro_doc_import_with : Ptr → Ptr → ℕ → Ptr → ℕ → Entry loro LoroStatus
    loro_doc_import_with p bytes_at len origin origin_len = ffi_guard loro_err_panic do
      d ← deref_or (as_doc loro) p loro_err_invalid_arg
      data_present bytes_at len
      s ← string_or_return origin origin_len loro_err_invalid_arg
      bytes ← bytes_or_empty bytes_at len
      r ← mutate doc p (crate.doc_import_with d bytes s)
      imported r

    pub loro_doc_import_with_status : Ptr → Ptr → ℕ → Ptr → ℕ → Ptr → Entry loro LoroStatus
    loro_doc_import_with_status p bytes_at len origin origin_len out = ffi_guard loro_err_panic do
      d ← deref_or (as_doc loro) p loro_err_invalid_arg
      data_present bytes_at len
      s ← string_or_return origin origin_len loro_err_invalid_arg
      bytes ← bytes_or_empty bytes_at len
      r ← mutate doc p (crate.doc_import_with d bytes s)
      finish_import_status r out

    unfoldable loro_doc_import_with_history_mode :
        Ptr → Ptr → ℕ → Ptr → ℕ → LoroImportHistoryMode → Ptr → Entry loro LoroStatus
    loro_doc_import_with_history_mode p bytes_at len origin origin_len mode out =
        ffi_guard loro_err_panic do
          d ← deref_or (as_doc loro) p loro_err_invalid_arg
          data_present bytes_at len
          s ← string_or_return origin origin_len loro_err_invalid_arg
          bytes ← bytes_or_empty bytes_at len
          r ←
              mutate doc p
                (crate.doc_import_with_history_mode d bytes s (to_import_history_mode mode))
          finish_import_status r out

    unfoldable loro_doc_import_batch_with_history_mode :
        Ptr
        → Option (List Ptr)
        → Option (List ℕ)
        → ℕ
        → LoroImportHistoryMode
        → Ptr
        → Entry loro LoroStatus
    loro_doc_import_batch_with_history_mode p datas lens count mode out =
        ffi_guard loro_err_panic do
          d ← deref_or (as_doc loro) p loro_err_invalid_arg
          blobs ← blobs_from_raw datas lens count (ascii "loro_doc_import_batch_with_history_mode")
          r ←
              mutate doc p
                (crate.doc_import_batch_with_history_mode d blobs (to_import_history_mode mode))
          finish_import_status r out
