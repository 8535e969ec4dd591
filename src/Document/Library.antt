-- ===== src/Document/Library.antt =====
-- loro::LoroDoc, outside the repository. A method that changes the document gives it back; an
-- export commits what is pending.
use loro_c.Base.{ℕ, Bool, Option, List, Result}
use loro_c.Base.Int.{ℤ}
use loro_c.World.{Loro, LoroValue, LoroError, LoroEncodeError, ByteVec, IdSpan, Call}
use loro_c.ImportStatus.{ImportStatus}

-- loro::ExportMode, as far as the library makes it.
pub data ExportMode (loro : Loro) : Type 0 where
  snapshot all_updates : ExportMode loro
  shallow_snapshot snapshot_at : loro.Frontiers → ExportMode loro
  state_only : Option loro.Frontiers → ExportMode loro
  updates_in_range : List IdSpan → ExportMode loro

-- loro::ImportHistoryMode.
pub data ImportHistoryMode : Type 0 where
  exact json_lossy : ImportHistoryMode

pub record Documents (loro : Loro) : Type 1 where
  pub doc_new : Call loro.Doc
  pub doc_fork : loro.Doc → loro.Doc × Call loro.Doc
  pub doc_commit : loro.Doc → loro.Doc × Call (Unit {0})
  pub doc_peer_id : loro.Doc → Call ℕ
  pub doc_set_peer_id : loro.Doc → ℕ → loro.Doc × Call (Result (Unit {0}) LoroError)
  pub doc_set_record_timestamp : loro.Doc → Bool → loro.Doc × Call (Unit {0})
  pub doc_set_change_merge_interval : loro.Doc → ℤ → loro.Doc × Call (Unit {0})
  pub doc_decoded_value_cache_limit : loro.Doc → Call ℕ
  pub doc_set_decoded_value_cache_limit : loro.Doc → ℕ → loro.Doc × Call (Unit {0})
  pub doc_get_text : loro.Doc → List ℕ → Call loro.LoroText
  pub doc_get_map : loro.Doc → List ℕ → Call loro.LoroMap
  pub doc_get_list : loro.Doc → List ℕ → Call loro.LoroList
  pub doc_get_movable_list : loro.Doc → List ℕ → Call loro.LoroMovableList
  pub doc_get_tree : loro.Doc → List ℕ → Call loro.LoroTree
  pub doc_get_counter : loro.Doc → List ℕ → Call loro.LoroCounter
  pub doc_get_deep_value : loro.Doc → Call (LoroValue loro.ContainerId)
  pub doc_len_ops : loro.Doc → Call ℕ
  pub doc_len_changes : loro.Doc → Call ℕ
  pub doc_get_pending_txn_len : loro.Doc → Call ℕ
  pub doc_has_history_cache : loro.Doc → Call Bool
  pub doc_free_history_cache : loro.Doc → loro.Doc × Call (Unit {0})
  -- Imports.
  pub doc_import : loro.Doc → List ℕ → loro.Doc × Call (Result ImportStatus LoroError)
  pub doc_import_with : loro.Doc → List ℕ → List ℕ → loro.Doc × Call (Result ImportStatus LoroError)
  pub doc_import_with_history_mode :
      loro.Doc
      → List ℕ
      → List ℕ
      → ImportHistoryMode
      → loro.Doc × Call (Result ImportStatus LoroError)
  pub doc_import_batch : loro.Doc → List (List ℕ) → loro.Doc × Call (Result ImportStatus LoroError)
  pub doc_import_batch_with_history_mode :
      loro.Doc → List (List ℕ) → ImportHistoryMode → loro.Doc × Call (Result ImportStatus LoroError)
  pub doc_import_json_updates : loro.Doc → List ℕ → loro.Doc × Call (Result ImportStatus LoroError)
  -- Exports. A JSON schema is opaque; serde_json writes it and the list of changes.
  pub JsonSchema : Type 0
  pub JsonChanges : Type 0
  pub schema_bytes : JsonSchema → Result ByteVec (List ℕ)
  pub changes_bytes : JsonChanges → Result ByteVec (List ℕ)
  pub doc_export : loro.Doc → ExportMode loro → loro.Doc × Call (Result ByteVec LoroEncodeError)
  pub doc_export_pending_updates :
      loro.Doc → loro.Doc × Call (Result (Option ByteVec) LoroEncodeError)
  pub doc_export_json_updates :
      loro.Doc
      → loro.VersionVector
      → loro.VersionVector
      → loro.Doc × Call (Result JsonSchema LoroError)
  pub doc_export_json_updates_without_peer_compression :
      loro.Doc
      → loro.VersionVector
      → loro.VersionVector
      → loro.Doc × Call (Result JsonSchema LoroError)
  pub doc_export_json_in_id_span : loro.Doc → IdSpan → loro.Doc × Call JsonChanges
