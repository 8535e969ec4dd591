-- ===== src/Examples/Busy/Runs.antt =====
-- Each theorem about presence, undo, cursors, containers, paths and commits applied to the second
-- world.
use loro_c.Base.{
  ℕ, ◌≡◌, refl, ◌≢◌, inr, true, false, none, some, List, [], ◌∷◌, length, get_elem?, arith, take,
  map, ascii, ◌*◌,
}
use loro_c.Base.Int.{pos}
use loro_c.World.{returns, panics, LoroValue, undo_manager, null_ptr, TextDelta, text_diff}
use loro_c.Abi.Laws.{Returns, Ends}
use loro_c.Abi.Contract.{Writes}
use loro_c.Abi.Replaced.{Replaced}
use loro_c.Value.{to_vec}
use loro_c.Subscribe.{Subscriber}
use loro_c.Subscribe.Ownership.{Consumed, LeftOrTaken}
use loro_c.Awareness.{
  loro_awareness_get_local_state, loro_awareness_encode_all, loro_awareness_encode,
  loro_awareness_get_all_states, loro_awareness_set_local_state,
}
use loro_c.Awareness.PeerIds.{u64s_to_le_bytes, packed}
use loro_c.Awareness.PeerIds.Laws.{
  AreBytes, read_u64s, u64s_to_le_bytes-AreBytes, read_u64s-u64s_to_le_bytes,
}
use loro_c.Awareness.Typed.{loro_awareness_peer_ids, loro_awareness_set_local_state_value}
use loro_c.Awareness.Ephemeral.{
  loro_ephemeral_store_get, loro_ephemeral_store_encode, loro_ephemeral_store_encode_all,
  loro_ephemeral_store_keys, loro_ephemeral_store_get_all_states, loro_ephemeral_store_subscribe,
  loro_ephemeral_store_subscribe_local_updates,
}
use loro_c.Awareness.Laws.{awareness-Contract, store-Contract}
use loro_c.Awareness.Subscribers.{subscriptions-Owned}
use loro_c.Awareness.Agreement.{set_local_state-Agrees}
use loro_c.Undo.{
  loro_undo_manager_set_on_push, loro_undo_manager_set_on_pop, loro_undo_manager_set_merge_interval,
  loro_undo_manager_set_max_undo_steps, loro_undo_manager_clear, loro_undo_manager_group_end,
  loro_undo_manager_pause, loro_undo_manager_resume,
}
use loro_c.Undo.Laws.{Installed, listeners-Installed, settings-Replaced}
use loro_c.Undo.Meta.{loro_undo_meta_cursors_len, loro_undo_meta_get_cursor}
use loro_c.Undo.Meta.Laws.{ReadsCursor, get_cursor-ReadsCursor}
use loro_c.Undo.Listeners.{UndoOrRedo, on_push}
use loro_c.Undo.Listeners.Laws.{on_push-Carries, remembers}
use loro_c.Cursor.{loro_doc_get_cursor_pos, loro_doc_get_cursor_pos_full}
use loro_c.Cursor.Laws
use loro_c.Container.{
  loro_container_get_map, loro_container_get_list, loro_container_get_text,
  loro_container_get_movable_list, loro_container_get_tree, loro_container_get_counter,
  LoroContainerType,
}
use loro_c.Container.Laws.{Gives, typed, getters-Gives}
use loro_c.ValueOrContainer.{LoroPathComponent, LoroPathComponentKind, loro_doc_get_by_path}
use loro_c.ValueOrContainer.Laws.{Resolves, indices, get_by_path-Resolves}
use loro_c.Commit.{LoroCommitOptions, loro_doc_commit_with, loro_doc_set_next_commit_options}
use loro_c.Commit.Laws.{CommitsWith, described, commit_with-CommitsWith}
use loro_c.Event.Json.{diff_to_json}
use loro_c.Event.Json.Laws.{read_edits, edit_of, read_edits-diff_to_json}
use loro_c.Document.Import.{
  loro_doc_import, loro_doc_import_status, loro_doc_import_json_updates,
  loro_doc_import_json_updates_status, loro_doc_import_with, loro_doc_import_with_status,
}
use loro_c.Document.Import.Laws.{import_status-Agrees}
use loro_c.Container.Attach.{attach_container}
use loro_c.Container.Sequence.{loro_list_push_container, loro_list_insert_container}
use loro_c.Container.Sequence.Laws.{ChildTaken, containers-ChildTaken}
use loro_c.Examples.{crate}
use loro_c.Examples.Busy.{
  presence, sequences, with_list, at_list, at_child, diffs, documents, history, cursors, paths,
  commits, item, a_list, busy, busy-WellFormed, at_null, at_awareness, at_store, at_document,
  at_cursor, at_undo, at_item, at_container, text_at, string_at, no_string,
}

abbrev listener : Subscriber
listener = record { user_data = 5; free_user_data = true }

abbrev path : List LoroPathComponent
path =
    record {
      kind = LoroPathComponentKind.loro_path_key;
      key = 100;
      key_len = 1;
      seq = 0;
      node = record { peer = 0; counter = pos 0 };
    }
    ∷ []

abbrev options : LoroCommitOptions
options = record {
  origin = 100;
  origin_len = 1;
  message = 0;
  message_len = 0;
  timestamp = pos 0;
  has_timestamp = false;
  immediate_renew = true;
}

ne_100 : 100 ≢ null_ptr
ne_100 e = absurd (omega arith)

abbrev three_ids : List ℕ
three_ids = 7 ∷ 256 ∷ 65537 ∷ []

bytes_example :
    (length (u64s_to_le_bytes three_ids) ≡ length three_ids * 8)
    × AreBytes (u64s_to_le_bytes three_ids)
    × (packed three_ids ≡ to_vec (u64s_to_le_bytes three_ids))
bytes_example = u64s_to_le_bytes-AreBytes three_ids

read_u64s_example : read_u64s (length three_ids) (u64s_to_le_bytes three_ids) ≡ three_ids
read_u64s_example =
    read_u64s-u64s_to_le_bytes three_ids (omega arith, (omega arith, (omega arith, tt)))

awareness_example :
    Returns (Writes busy 300) (loro_awareness_get_local_state presence 2 300 busy)
    × Returns (Writes busy 300) (loro_awareness_encode_all presence 2 300 busy)
    × Returns (Writes busy 300) (loro_awareness_encode presence 2 (some (7 ∷ [])) 1 300 busy)
    × Returns (Writes busy 300) (loro_awareness_get_all_states presence 2 300 busy)
    × Returns (Writes busy 300) (loro_awareness_peer_ids presence 2 300 busy)
awareness_example =
    awareness-Contract busy presence 2 300 (some (7 ∷ [])) 1 (inr (_, at_awareness)) (omega arith)

store_example :
    Returns (Writes busy 300) (loro_ephemeral_store_get presence 3 100 1 300 busy)
    × Returns (Writes busy 300) (loro_ephemeral_store_encode presence 3 100 1 300 busy)
    × Returns (Writes busy 300) (loro_ephemeral_store_encode_all presence 3 300 busy)
    × Returns (Writes busy 300) (loro_ephemeral_store_keys presence 3 300 busy)
    × Returns (Writes busy 300) (loro_ephemeral_store_get_all_states presence 3 300 busy)
store_example = store-Contract busy presence 3 300 100 1 (inr (_, at_store)) string_at

subscriptions_example :
    Returns (Consumed busy listener) (loro_ephemeral_store_subscribe presence 3 listener busy)
    × Returns
        (LeftOrTaken busy listener)
        (loro_ephemeral_store_subscribe_local_updates presence 3 listener busy)
subscriptions_example = subscriptions-Owned presence busy 3 listener (inr (_, at_store))

set_local_state_example :
    loro_awareness_set_local_state presence 2 100 1 busy
    ≡ loro_awareness_set_local_state_value presence 2 1 busy
set_local_state_example =
    set_local_state-Agrees presence busy 2 1 100 1 (7 ∷ []) LoroValue.null at_awareness at_null
      ne_100 text_at refl

listeners_example :
    Returns
      (Installed history busy 6 listener)
      (loro_undo_manager_set_on_push history 6 listener busy)
    × Returns
        (Installed history busy 6 listener)
        (loro_undo_manager_set_on_pop history 6 listener busy)
listeners_example = listeners-Installed history busy 6 listener (inr (_, at_undo))

settings_example :
    Returns
      (Replaced busy 6 (undo_manager 3) (returns tt))
      (loro_undo_manager_set_merge_interval history 6 (pos 2) busy)
    × Returns
        (Replaced busy 6 (undo_manager 9) (returns tt))
        (loro_undo_manager_set_max_undo_steps history 6 9 busy)
    × Returns
        (Replaced busy 6 (undo_manager 0) (returns tt))
        (loro_undo_manager_clear history 6 busy)
    × Returns
        (Replaced busy 6 (undo_manager 3) (returns tt))
        (loro_undo_manager_group_end history 6 busy)
    × Returns (Replaced busy 6 (undo_manager 3) panics) (loro_undo_manager_pause history 6 busy)
    × Returns
        (Replaced busy 6 (undo_manager 3) (returns tt))
        (loro_undo_manager_resume history 6 busy)
settings_example = settings-Replaced history busy 6 3 (pos 2) 9 at_undo

children_example :
    Returns
      (ChildTaken with_list 9 8 (attach_container tt (sequences.list_push_container tt) a_list))
      (loro_list_push_container sequences 9 8 with_list)
    × Returns
        (ChildTaken with_list 9 8
          (attach_container tt (sequences.list_insert_container tt 3) a_list))
        (loro_list_insert_container sequences 9 3 8 with_list)
children_example = containers-ChildTaken sequences with_list 9 8 tt a_list 3 at_list at_child

get_cursor_example :
    Returns (λ n w'. (n ≡ 1) × (w' ≡ busy)) (loro_undo_meta_cursors_len 7 busy)
    × Returns
        (ReadsCursor busy 300 0 (get_elem? item.cursors 0))
        (loro_undo_meta_get_cursor 7 0 300 0 busy)
get_cursor_example = get_cursor-ReadsCursor busy 7 300 0 item 0 at_item

on_push_example :
    Ends {R = Unit {0}} ⊥
      (λ r w'. ⊥)
      (λ w'. ⊥)
      (λ m w'. (m.value ≡ LoroValue.null) × (w'.heap ≡ busy.heap))
      (on_push history
        (remembers history 1)
        UndoOrRedo.undo
        (record { start = pos 0; end = pos 1 })
        none
        busy)
on_push_example =
    on_push-Carries history busy 1 LoroValue.null UndoOrRedo.undo
      (record { start = pos 0; end = pos 1 }) none (λ m y. refl) busy-WellFormed at_null

get_cursor_pos_example :
    Returns
      (Laws.Tells busy 300 (cursors.doc_get_cursor_pos tt 6))
      (loro_doc_get_cursor_pos cursors 4 5 300 busy)
    × Returns
        (Laws.TellsAll busy 300 400 (cursors.doc_get_cursor_pos tt 6))
        (loro_doc_get_cursor_pos_full cursors 4 5 300 400 busy)
get_cursor_pos_example =
    Laws.get_cursor_pos-Tells cursors busy 4 5 300 400 tt 6 at_document at_cursor
      (λ e. absurd (omega arith)) (λ e. absurd (omega arith)) (λ e. absurd (omega arith))

getters_example :
    Returns
      (Gives busy (typed LoroContainerType.loro_container_map a_list))
      (loro_container_get_map 8 busy)
    × Returns
        (Gives busy (typed LoroContainerType.loro_container_list a_list))
        (loro_container_get_list 8 busy)
    × Returns
        (Gives busy (typed LoroContainerType.loro_container_text a_list))
        (loro_container_get_text 8 busy)
    × Returns
        (Gives busy (typed LoroContainerType.loro_container_movable_list a_list))
        (loro_container_get_movable_list 8 busy)
    × Returns
        (Gives busy (typed LoroContainerType.loro_container_tree a_list))
        (loro_container_get_tree 8 busy)
    × Returns
        (Gives busy (typed LoroContainerType.loro_container_counter a_list))
        (loro_container_get_counter 8 busy)
getters_example = getters-Gives busy 8 a_list at_container

get_by_path_example :
    Returns
      (Resolves paths busy tt (indices busy (take 1 path)))
      (loro_doc_get_by_path paths 4 (some path) 1 busy)
get_by_path_example =
    get_by_path-Resolves paths busy 4 tt path 1 at_document (omega arith) (string_at, tt)

abbrev deltas : List (TextDelta crate)
deltas =
    TextDelta.retain_text 3 none
    ∷ TextDelta.insert_text (ascii "ab") (some ((ascii "bold", LoroValue.null) ∷ []))
    ∷ TextDelta.delete_text 2
    ∷ []

read_edits_example : read_edits (diff_to_json diffs (text_diff deltas)) ≡ some (map edit_of deltas)
read_edits_example = read_edits-diff_to_json diffs deltas

imports_example :
    (loro_doc_import_status documents 4 100 1 null_ptr busy
      ≡ loro_doc_import documents 4 100 1 busy)
    × (loro_doc_import_json_updates_status documents 4 100 1 null_ptr busy
        ≡ loro_doc_import_json_updates documents 4 100 1 busy)
    × (loro_doc_import_with_status documents 4 100 1 100 1 null_ptr busy
        ≡ loro_doc_import_with documents 4 100 1 100 1 busy)
imports_example = import_status-Agrees documents busy 4 100 1 100 1

commit_with_example :
    Returns
      (CommitsWith commits busy 4 (commits.doc_commit_with tt) (described commits busy options))
      (loro_doc_commit_with commits 4 options busy)
    × Returns
        (CommitsWith commits busy 4
          (commits.doc_set_next_commit_options tt)
          (described commits busy options))
        (loro_doc_set_next_commit_options commits 4 options busy)
commit_with_example =
    commit_with-CommitsWith commits busy 4 tt options at_document string_at no_string
