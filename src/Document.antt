-- ===== src/Document.antt =====
-- loro-c-api/src/doc.rs: the handle of a document: its life, its peer, its root containers, its
-- value. The versions of a document are in Version/Travel.
pub mod Library
pub mod Import
pub mod Export
pub mod Query
use loro_c.Base.{ℕ, Bool, false, List, ascii, ◌++◌}
use loro_c.Base.Int.{ℤ}
use loro_c.World.{
  Loro, Ptr, null_ptr, doc, value, text_handle, map_handle, list_handle, movable_list_handle,
  tree_handle, counter_handle, Obj, Call,
}
use loro_c.Error.{LoroStatus, loro_ok, loro_err_invalid_arg, loro_err_panic}
use loro_c.Abi.{
  Body, Entry, ◌>>=◌, ◌>>◌, ffi_guard, pure, call, deref_or, require_out, into_raw, free_box,
}
use loro_c.Value.Json.{string_or_return, mutate, write_serialized}
use loro_c.Version.Travel.{checkout_status}
use loro_c.Subscribe.{as_doc}
use Library.{Documents}

abbrev document_not_serialized : List ℕ → List ℕ
document_not_serialized e = ascii "failed to serialize document to JSON: " ++ e

module _ {loro : Loro} where
  -- The body that the six root containers share.
  unfoldable root_container :
      {T : Type 0}
      → (loro.Doc → List ℕ → Call T)
      → (T → Obj loro)
      → Ptr
      → Ptr
      → ℕ
      → Body loro Ptr Ptr
  root_container get wrap p id id_len = do
    d ← deref_or (as_doc loro) p null_ptr
    name ← string_or_return id id_len null_ptr
    c ← call (get d name)
    into_raw (wrap c)

  unfoldable loro_doc_free : Ptr → Entry loro (Unit {0})
  loro_doc_free p = ffi_guard tt (free_box (as_doc loro) p)

  module _ (crate : Documents loro) where
    unfoldable loro_doc_new : Entry loro Ptr
    loro_doc_new = ffi_guard null_ptr do d ← call crate.doc_new; into_raw (doc d)

    unfoldable loro_doc_fork : Ptr → Entry loro Ptr
    loro_doc_fork p = ffi_guard null_ptr do
      d ← deref_or (as_doc loro) p null_ptr
      f ← mutate doc p (crate.doc_fork d)
      into_raw (doc f)

    unfoldable loro_doc_commit : Ptr → Entry loro LoroStatus
    loro_doc_commit p = ffi_guard loro_err_panic do
      d ← deref_or (as_doc loro) p loro_err_invalid_arg
      mutate doc p (crate.doc_commit d)
      pure loro_ok

    unfoldable loro_doc_peer_id : Ptr → Entry loro ℕ
    loro_doc_peer_id p = ffi_guard 0 do d ← deref_or (as_doc loro) p 0; call (crate.doc_peer_id d)

    unfoldable loro_doc_set_peer_id : Ptr → ℕ → Entry loro LoroStatus
    loro_doc_set_peer_id p peer = ffi_guard loro_err_panic do
      d ← deref_or (as_doc loro) p loro_err_invalid_arg
      r ← mutate doc p (crate.doc_set_peer_id d peer)
      checkout_status r

    unfoldable loro_doc_set_record_timestamp : Ptr → Bool → Entry loro (Unit {0})
    loro_doc_set_record_timestamp p record_it = ffi_guard tt do
      d ← deref_or (as_doc loro) p tt
      mutate doc p (crate.doc_set_record_timestamp d record_it)

    unfoldable loro_doc_set_change_merge_interval : Ptr → ℤ → Entry loro (Unit {0})
    loro_doc_set_change_merge_interval p interval = ffi_guard tt do
      d ← deref_or (as_doc loro) p tt
      mutate doc p (crate.doc_set_change_merge_interval d interval)

    unfoldable loro_doc_decoded_value_cache_limit : Ptr → Entry loro ℕ
    loro_doc_decoded_value_cache_limit p =
        ffi_guard 0 do d ← deref_or (as_doc loro) p 0; call (crate.doc_decoded_value_cache_limit d)

    unfoldable loro_doc_set_decoded_value_cache_limit : Ptr → ℕ → Entry loro (Unit {0})
    loro_doc_set_decoded_value_cache_limit p limit = ffi_guard tt do
      d ← deref_or (as_doc loro) p tt
      mutate doc p (crate.doc_set_decoded_value_cache_limit d limit)

    unfoldable loro_doc_get_text : Ptr → Ptr → ℕ → Entry loro Ptr
    loro_doc_get_text p id id_len =
        ffi_guard null_ptr (root_container crate.doc_get_text text_handle p id id_len)

    unfoldable loro_doc_get_map : Ptr → Ptr → ℕ → Entry loro Ptr
    loro_doc_get_map p id id_len =
        ffi_guard null_ptr (root_container crate.doc_get_map map_handle p id id_len)

    unfoldable loro_doc_get_list : Ptr → Ptr → ℕ → Entry loro Ptr
    loro_doc_get_list p id id_len =
        ffi_guard null_ptr (root_container crate.doc_get_list list_handle p id id_len)

    unfoldable loro_doc_get_movable_list : Ptr → Ptr → ℕ → Entry loro Ptr
    loro_doc_get_movable_list p id id_len =
        ffi_guard null_ptr
          (root_container crate.doc_get_movable_list movable_list_handle p id id_len)

    unfoldable loro_doc_get_tree : Ptr → Ptr → ℕ → Entry loro Ptr
    loro_doc_get_tree p id id_len =
        ffi_guard null_ptr (root_container crate.doc_get_tree tree_handle p id id_len)

    unfoldable loro_doc_get_counter : Ptr → Ptr → ℕ → Entry loro Ptr
    loro_doc_get_counter p id id_len =
        ffi_guard null_ptr (root_container crate.doc_get_counter counter_handle p id id_len)

    unfoldable loro_doc_get_deep_value_json : Ptr → Ptr → Entry loro LoroStatus
    loro_doc_get_deep_value_json p out = ffi_guard loro_err_panic do
      d ← deref_or (as_doc loro) p loro_err_invalid_arg
      require_out out loro_err_invalid_arg
      v ← call (crate.doc_get_deep_value d)
      write_serialized (loro.value_json_bytes v) document_not_serialized out

    unfoldable loro_doc_get_deep_value : Ptr → Entry loro Ptr
    loro_doc_get_deep_value p = ffi_guard null_ptr do
      d ← deref_or (as_doc loro) p null_ptr
      v ← call (crate.doc_get_deep_value d)
      into_raw (value v)

    unfoldable loro_doc_len_ops : Ptr → Entry loro ℕ
    loro_doc_len_ops p = ffi_guard 0 do d ← deref_or (as_doc loro) p 0; call (crate.doc_len_ops d)

    unfoldable loro_doc_len_changes : Ptr → Entry loro ℕ
    loro_doc_len_changes p =
        ffi_guard 0 do d ← deref_or (as_doc loro) p 0; call (crate.doc_len_changes d)

    unfoldable loro_doc_get_pending_txn_len : Ptr → Entry loro ℕ
    loro_doc_get_pending_txn_len p =
        ffi_guard 0 do d ← deref_or (as_doc loro) p 0; call (crate.doc_get_pending_txn_len d)

    unfoldable loro_doc_has_history_cache : Ptr → Entry loro Bool
    loro_doc_has_history_cache p =
        ffi_guard false do d ← deref_or (as_doc loro) p false; call (crate.doc_has_history_cache d)

    unfoldable loro_doc_free_history_cache : Ptr → Entry loro LoroStatus
    loro_doc_free_history_cache p = ffi_guard loro_err_panic do
      d ← deref_or (as_doc loro) p loro_err_invalid_arg
      mutate doc p (crate.doc_free_history_cache d)
      pure loro_ok
