-- ===== src/Document/Query.antt =====
-- loro-c-api/src/doc.rs: containers by their ids, the history of a document, and its modes.
pub mod Sorted
use Prim.Native.Nat.{Ordering}
use loro_c.Base.{
  ℕ, ltb, ◌==◌, if◌then◌else◌, Bool, true, false, Option, none, some, List, [], ◌∷◌, ◌++◌, ascii,
  map, Result, ok, err,
}
use loro_c.World.{
  Loro, Ptr, null_ptr, doc, container, frontiers, text_handle, map_handle, list_handle,
  movable_list_handle, tree_handle, counter_handle, Obj, Container, Call, Index, OpId, LoroId,
  LoroValue, LoroError, CounterSpan, VersionVectorDiff, JsonValue, JsonFields, text_json, number,
  array, object, end_json, field_json, integer_cell,
}
use loro_c.Error.{LoroStatus, loro_ok, loro_err_invalid_arg, loro_err_not_found, loro_err_panic}
use loro_c.Abi.{
  Body, Entry, ◌>>=◌, ◌>>◌, ffi_guard, pure, fail, call, deref_or, require_out, write_out, into_raw,
  loro_error,
}
use loro_c.Value.Json.{string_or_return, mutate, write_serialized}
use loro_c.Version.Ids.{as_frontiers, to_loro}
use loro_c.Version.Vector.{ordering_code}
use loro_c.Version.Spans.{sort_by_peer, json_items}
use loro_c.Subscribe.{as_doc, invalid_container_id}
use loro_c.Awareness.PeerIds.{decimal}
use loro_c.Event.Json.{path_to_json}
use Sorted.{sort_texts, id_spans_to_json}

-- The methods of loro::LoroDoc; the error of `try_minimize_frontiers` is its text.
pub record Histories (loro : Loro) : Type 0 where
  pub doc_free_diff_calculator : loro.Doc → loro.Doc × Call (Unit {0})
  pub doc_compact_change_store : loro.Doc → loro.Doc × Call (Unit {0})
  pub doc_set_hide_empty_root_containers : loro.Doc → Bool → loro.Doc × Call (Unit {0})
  pub doc_attach : loro.Doc → loro.Doc × Call (Unit {0})
  pub doc_detach : loro.Doc → loro.Doc × Call (Unit {0})
  pub doc_has_container : loro.Doc → loro.ContainerId → Call Bool
  pub doc_delete_root_container : loro.Doc → loro.ContainerId → loro.Doc × Call (Unit {0})
  pub doc_get_path_to_container :
      loro.Doc → loro.ContainerId → Call (Option (List (loro.ContainerId × Index)))
  pub doc_try_get_changed_containers_in :
      loro.Doc → OpId → ℕ → loro.Doc × Call (Result (List loro.ContainerId) LoroError)
  pub doc_cmp_with_frontiers : loro.Doc → loro.Frontiers → Call Ordering
  pub doc_try_minimize_frontiers : loro.Doc → loro.Frontiers → Call (Result loro.Frontiers (List ℕ))
  pub doc_fork_at : loro.Doc → loro.Frontiers → Call (Result loro.Doc LoroError)
  pub doc_try_get_text : loro.Doc → loro.ContainerId → Call (Option loro.LoroText)
  pub doc_try_get_map : loro.Doc → loro.ContainerId → Call (Option loro.LoroMap)
  pub doc_try_get_list : loro.Doc → loro.ContainerId → Call (Option loro.LoroList)
  pub doc_try_get_movable_list : loro.Doc → loro.ContainerId → Call (Option loro.LoroMovableList)
  pub doc_try_get_tree : loro.Doc → loro.ContainerId → Call (Option loro.LoroTree)
  pub doc_try_get_counter : loro.Doc → loro.ContainerId → Call (Option loro.LoroCounter)
  pub doc_get_container : loro.Doc → loro.ContainerId → Call (Option (Container loro))
  pub doc_get_deep_value_with_id : loro.Doc → Call (LoroValue loro.ContainerId)
  pub doc_try_find_id_spans_between :
      loro.Doc → loro.Frontiers → loro.Frontiers → Call (Result VersionVectorDiff LoroError)

abbrev no_path : List ℕ
no_path = ascii "no path to container (container not found)"

abbrev path_not_serialized : List ℕ → List ℕ
path_not_serialized e = ascii "failed to serialize path to JSON: " ++ e

abbrev containers_not_serialized : List ℕ → List ℕ
containers_not_serialized e = ascii "failed to serialize containers to JSON: " ++ e

abbrev document_not_serialized : List ℕ → List ℕ
document_not_serialized e = ascii "failed to serialize document to JSON: " ++ e

abbrev spans_not_serialized : List ℕ → List ℕ
spans_not_serialized e = ascii "failed to serialize id spans to JSON: " ++ e

module _ {loro : Loro} where
  -- `cid_from_raw`, and the early return that follows it.
  unfoldable parsed_id : {R : Type 0} → List ℕ → R → Body loro R loro.ContainerId
  parsed_id s r = elim (loro.container_id_parse s) [
    | none ↦ fail (invalid_container_id s) r
    | some id ↦ pure id
  ]

  unfoldable cid_from_raw : {R : Type 0} → Ptr → ℕ → R → Body loro R loro.ContainerId
  cid_from_raw cid cid_len r = do s ← string_or_return cid cid_len r; parsed_id s r

  unfoldable box_found : {T : Type 0} → (T → Obj loro) → Option T → Body loro Ptr Ptr
  box_found wrap none = pure null_ptr
  box_found wrap (some c) = into_raw (wrap c)

  -- The body that the seven lookups by id share.
  unfoldable look_up :
      {T : Type 0}
      → (loro.Doc → loro.ContainerId → Call (Option T))
      → (T → Obj loro)
      → Ptr
      → Ptr
      → ℕ
      → Body loro Ptr Ptr
  look_up get wrap p cid cid_len = do
    d ← deref_or (as_doc loro) p null_ptr
    id ← cid_from_raw cid cid_len null_ptr
    found ← call (get d id)
    box_found wrap found

  unfoldable write_path :
      Option (List (loro.ContainerId × Index)) → Ptr → Body loro LoroStatus LoroStatus
  write_path none out = fail no_path loro_err_not_found
  write_path (some path) out =
      write_serialized (loro.json_bytes (path_to_json loro path)) path_not_serialized out

  unfoldable write_containers :
      Result (List loro.ContainerId) LoroError → Ptr → Body loro LoroStatus LoroStatus
  write_containers (err e) out = loro_error e
  write_containers (ok set) out =
      let cids = sort_texts (map (λ c. (loro.container_id_text c).items) set) in
      write_serialized (loro.json_bytes (array (json_items (map text_json cids))))
        containers_not_serialized out

  unfoldable box_minimized : Result loro.Frontiers (List ℕ) → Body loro Ptr Ptr
  box_minimized (ok f) = into_raw (frontiers f)
  box_minimized (err e) = fail e null_ptr

  unfoldable box_forked : Result loro.Doc LoroError → Body loro Ptr Ptr
  box_forked (ok d) = into_raw (doc d)
  box_forked (err e) = do status ← loro_error e; pure null_ptr

  unfoldable write_spans :
      Result VersionVectorDiff LoroError → Ptr → Body loro LoroStatus LoroStatus
  write_spans (err e) out = loro_error e
  write_spans (ok diff) out =
      write_serialized
        (loro.json_bytes (
          object (
            field_json (ascii "retreat") (id_spans_to_json diff.retreat)
              (field_json (ascii "forward") (id_spans_to_json diff.forward) end_json))))
        spans_not_serialized out

  -- The body of the functions that change the document and answer with a status.
  unfoldable changed_doc :
      (loro.Doc → loro.Doc × Call (Unit {0})) → Ptr → Body loro LoroStatus LoroStatus
  changed_doc change p = do
    d ← deref_or (as_doc loro) p loro_err_invalid_arg
    mutate doc p (change d)
    pure loro_ok

  module _ (crate : Histories loro) where
    unfoldable loro_doc_free_diff_calculator : Ptr → Entry loro LoroStatus
    loro_doc_free_diff_calculator p =
        ffi_guard loro_err_panic (changed_doc crate.doc_free_diff_calculator p)

    unfoldable loro_doc_compact_change_store : Ptr → Entry loro LoroStatus
    loro_doc_compact_change_store p =
        ffi_guard loro_err_panic (changed_doc crate.doc_compact_change_store p)

    unfoldable loro_doc_set_hide_empty_root_containers : Ptr → Bool → Entry loro LoroStatus
    loro_doc_set_hide_empty_root_containers p hide =
        ffi_guard loro_err_panic
          (changed_doc (λ d. crate.doc_set_hide_empty_root_containers d hide) p)

    unfoldable loro_doc_attach : Ptr → Entry loro LoroStatus
    loro_doc_attach p = ffi_guard loro_err_panic (changed_doc crate.doc_attach p)

    unfoldable loro_doc_detach : Ptr → Entry loro LoroStatus
    loro_doc_detach p = ffi_guard loro_err_panic (changed_doc crate.doc_detach p)

    unfoldable loro_doc_has_container : Ptr → Ptr → ℕ → Entry loro Bool
    loro_doc_has_container p cid cid_len = ffi_guard false do
      d ← deref_or (as_doc loro) p false
      id ← cid_from_raw cid cid_len false
      call (crate.doc_has_container d id)

    unfoldable loro_doc_delete_root_container : Ptr → Ptr → ℕ → Entry loro LoroStatus
    loro_doc_delete_root_container p cid cid_len = ffi_guard loro_err_panic do
      d ← deref_or (as_doc loro) p loro_err_invalid_arg
      id ← cid_from_raw cid cid_len loro_err_invalid_arg
      mutate doc p (crate.doc_delete_root_container d id)
      pure loro_ok

    unfoldable loro_doc_get_path_to_container : Ptr → Ptr → ℕ → Ptr → Entry loro LoroStatus
    loro_doc_get_path_to_container p cid cid_len out = ffi_guard loro_err_panic do
      d ← deref_or (as_doc loro) p loro_err_invalid_arg
      require_out out loro_err_invalid_arg
      id ← cid_from_raw cid cid_len loro_err_invalid_arg
      path ← call (crate.doc_get_path_to_container d id)
      write_path path out

    unfoldable loro_doc_get_changed_containers_in : Ptr → LoroId → ℕ → Ptr → Entry loro LoroStatus
    loro_doc_get_changed_containers_in p id len out = ffi_guard loro_err_panic do
      d ← deref_or (as_doc loro) p loro_err_invalid_arg
      require_out out loro_err_invalid_arg
      set ← mutate doc p (crate.doc_try_get_changed_containers_in d (to_loro id) len)
      write_containers set out

    unfoldable loro_doc_cmp_with_frontiers : Ptr → Ptr → Ptr → Entry loro LoroStatus
    loro_doc_cmp_with_frontiers p f out = ffi_guard loro_err_panic do
      d ← deref_or (as_doc loro) p loro_err_invalid_arg
      ids ← deref_or (as_frontiers loro) f loro_err_invalid_arg
      require_out out loro_err_invalid_arg
      order ← call (crate.doc_cmp_with_frontiers d ids)
      write_out out (integer_cell (ordering_code order))
      pure loro_ok

    unfoldable loro_doc_minimize_frontiers : Ptr → Ptr → Entry loro Ptr
    loro_doc_minimize_frontiers p f = ffi_guard null_ptr do
      d ← deref_or (as_doc loro) p null_ptr
      ids ← deref_or (as_frontiers loro) f null_ptr
      minimized ← call (crate.doc_try_minimize_frontiers d ids)
      box_minimized minimized

    unfoldable loro_doc_fork_at : Ptr → Ptr → Entry loro Ptr
    loro_doc_fork_at p f = ffi_guard null_ptr do
      d ← deref_or (as_doc loro) p null_ptr
      ids ← deref_or (as_frontiers loro) f null_ptr
      forked ← call (crate.doc_fork_at d ids)
      box_forked forked

    unfoldable loro_doc_try_get_text : Ptr → Ptr → ℕ → Entry loro Ptr
    loro_doc_try_get_text p cid cid_len =
        ffi_guard null_ptr (look_up crate.doc_try_get_text text_handle p cid cid_len)

    unfoldable loro_doc_try_get_map : Ptr → Ptr → ℕ → Entry loro Ptr
    loro_doc_try_get_map p cid cid_len =
        ffi_guard null_ptr (look_up crate.doc_try_get_map map_handle p cid cid_len)

    unfoldable loro_doc_try_get_list : Ptr → Ptr → ℕ → Entry loro Ptr
    loro_doc_try_get_list p cid cid_len =
        ffi_guard null_ptr (look_up crate.doc_try_get_list list_handle p cid cid_len)

    unfoldable loro_doc_try_get_movable_list : Ptr → Ptr → ℕ → Entry loro Ptr
    loro_doc_try_get_movable_list p cid cid_len =
        ffi_guard null_ptr
          (look_up crate.doc_try_get_movable_list movable_list_handle p cid cid_len)

    unfoldable loro_doc_try_get_tree : Ptr → Ptr → ℕ → Entry loro Ptr
    loro_doc_try_get_tree p cid cid_len =
        ffi_guard null_ptr (look_up crate.doc_try_get_tree tree_handle p cid cid_len)

    unfoldable loro_doc_try_get_counter : Ptr → Ptr → ℕ → Entry loro Ptr
    loro_doc_try_get_counter p cid cid_len =
        ffi_guard null_ptr (look_up crate.doc_try_get_counter counter_handle p cid cid_len)

    unfoldable loro_doc_get_container : Ptr → Ptr → ℕ → Entry loro Ptr
    loro_doc_get_container p cid cid_len =
        ffi_guard null_ptr (look_up crate.doc_get_container container p cid cid_len)

    unfoldable loro_doc_get_deep_value_with_id_json : Ptr → Ptr → Entry loro LoroStatus
    loro_doc_get_deep_value_with_id_json p out = ffi_guard loro_err_panic do
      d ← deref_or (as_doc loro) p loro_err_invalid_arg
      require_out out loro_err_invalid_arg
      v ← call (crate.doc_get_deep_value_with_id d)
      write_serialized (loro.value_json_bytes v) document_not_serialized out

    unfoldable loro_doc_find_id_spans_between : Ptr → Ptr → Ptr → Ptr → Entry loro LoroStatus
    loro_doc_find_id_spans_between p from_f to_f out = ffi_guard loro_err_panic do
      d ← deref_or (as_doc loro) p loro_err_invalid_arg
      from ← deref_or (as_frontiers loro) from_f loro_err_invalid_arg
      to ← deref_or (as_frontiers loro) to_f loro_err_invalid_arg
      require_out out loro_err_invalid_arg
      diff ← call (crate.doc_try_find_id_spans_between d from to)
      write_spans diff out
