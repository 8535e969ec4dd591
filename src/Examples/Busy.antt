-- ===== src/Examples/Busy.antt =====
-- A second world, in which the handles of presence, undo, cursors, containers and commits are live,
-- with stand-ins for those parts of the crate `loro`.
pub mod Runs
use loro_c.Base.{
  ℕ, ◌≡◌, refl, ◌≢◌, ◌≤◌, Bool, true, false, Option, none, some, List, [], ◌∷◌, arith, ascii,
  Result, ok, err, if◌then◌else◌, length, ◌==◌, take,
}
use loro_c.Base.Int.{ℤ, pos}
use loro_c.World.{
  World, Ptr, null_ptr, Obj, LoroValue, ByteVec, returns, panics, UndoItemMeta, CursorWithPos, Side,
  Container, ValueOrContainer, PeerInfo, arg_err, update,
}
use loro_c.Abi.Laws.{Points, Readable}
use loro_c.Abi.WellFormed.{WellFormed}
use loro_c.Value.Args.{StringArg}
use loro_c.ValueTyped.Items.{as_value}
use loro_c.Subscribe.{as_doc}
use loro_c.Awareness.{as_awareness}
use loro_c.Awareness.Library.{Presence}
use loro_c.Awareness.Ephemeral.{as_store}
use loro_c.Undo.{as_undo_manager}
use loro_c.Undo.Library.{History}
use loro_c.Undo.Meta.{as_undo_meta}
use loro_c.Cursor.{Cursors, as_cursor, other_position_error}
use loro_c.Container.{Containers, as_container}
use loro_c.ValueOrContainer.{Paths, as_value_or_container}
use loro_c.Commit.{Commits}
use loro_c.Container.Attach.{Attaching}
use loro_c.Container.Sequence.{Sequences, as_list}
use loro_c.ImportStatus.{ImportStatus}
use loro_c.Event.Json.{Diffs}
use loro_c.Document.Library.{Documents}
use loro_c.Examples.{crate}

abbrev pub bytes_7 : ByteVec
bytes_7 = record { items = 7 ∷ []; capacity = 1 }

abbrev pub presence : Presence crate
presence = record {
  awareness_new = λ peer timeout. returns (peer ∷ []);
  awareness_peer = λ a. returns 7;
  awareness_set_local_state = λ a v. (1 ∷ a, returns tt);
  awareness_get_local_state = λ a. returns none;
  awareness_encode_all = λ a. returns bytes_7;
  awareness_encode = λ a peers. panics;
  awareness_apply = λ a bytes. (bytes, returns (bytes, []));
  awareness_remove_outdated = λ a. ([], returns a);
  awareness_get_all_states = λ a. returns [];
  store_new = λ timeout. returns tt;
  store_set = λ s k v. (tt, returns tt);
  store_get = λ s k. returns (some LoroValue.null);
  store_delete = λ s k. (tt, returns tt);
  store_encode = λ s k. returns bytes_7;
  store_encode_all = λ s. returns bytes_7;
  store_apply = λ s bytes. (tt, returns (err (ascii "bad")));
  store_remove_outdated = λ s. (tt, returns tt);
  store_keys = λ s. returns [];
  store_get_all_states = λ s. returns [];
  store_subscribe = λ s. record { outcome = returns tt; keeps = true };
  store_subscribe_local_updates = λ s. record { outcome = panics; keeps = false };
}

abbrev pub at_left : CursorWithPos crate
at_left = record { cursor = 6; pos = record { pos = 2; side = Side.left } }

abbrev pub item : UndoItemMeta crate
item = record { value = LoroValue.null; cursors = at_left ∷ [] }

abbrev pub history : History crate
history = record {
  undo_new = λ d. (tt, returns 0);
  undo_undo = λ m. (0, returns (ok true));
  undo_redo = λ m. (0, returns (ok false));
  undo_can_undo = λ m. returns true;
  undo_can_redo = λ m. returns false;
  undo_undo_count = λ m. returns m;
  undo_redo_count = λ m. returns 0;
  undo_peer = λ m. returns 7;
  undo_top_undo_value = λ m. returns none;
  undo_top_redo_value = λ m. returns none;
  undo_record_new_checkpoint = λ m. (m, returns (ok tt));
  undo_set_merge_interval = λ m interval. (m, returns tt);
  undo_set_max_undo_steps = λ m steps. (steps, returns tt);
  undo_add_exclude_origin_prefix = λ m prefix. (m, returns tt);
  undo_clear = λ m. (0, returns tt);
  undo_group_start = λ m. (m, returns (ok tt));
  undo_group_end = λ m. (m, returns tt);
  undo_pause = λ m. (m, panics);
  undo_resume = λ m. (m, returns tt);
  undo_is_paused = λ m. returns false;
  undo_set_on_push = λ m. (m, record { outcome = returns tt; keeps = true });
  undo_set_on_pop = λ m. (m, record { outcome = panics; keeps = false });
  meta_new = record { value = LoroValue.null; cursors = [] };
  meta_set_value = λ m v. (record m { value = v }, returns tt);
  meta_add_cursor = λ m c. (m, returns tt);
}

abbrev pub cursors : Cursors crate
cursors = record {
  cursor_encode = λ c. returns bytes_7;
  cursor_decode = λ bytes. returns (err (ascii "bad"));
  cursor_new = λ anchor id side origin_pos. returns origin_pos;
  text_get_cursor = λ t pos side. returns none;
  list_get_cursor = λ l pos side. returns none;
  movable_list_get_cursor = λ l pos side. returns none;
  doc_get_cursor_pos = λ d c.
      returns (ok (record { update = some 9; current = record { pos = c; side = Side.right } }));
}

abbrev pub paths : Paths crate
paths = record {
  doc_get_by_path = λ d path. returns (some (ValueOrContainer.plain_value LoroValue.null));
  doc_get_by_str_path = λ d path. returns none;
  get_deep_value = λ v. returns LoroValue.null;
}

-- Options are the texts they were given.
abbrev pub commits : Commits crate
commits = record {
  CommitOptions = List (List ℕ);
  options_new = [];
  with_immediate_renew = λ co b. co;
  with_origin = λ co s. s ∷ co;
  with_commit_msg = λ co s. s ∷ co;
  with_timestamp = λ co t. co;
  doc_commit_with = λ d co. (tt, returns tt);
  doc_set_next_commit_message = λ d s. (tt, returns tt);
  doc_set_next_commit_timestamp = λ d t. (tt, returns tt);
  doc_set_next_commit_origin = λ d s. (tt, returns tt);
  doc_set_next_commit_options = λ d co. (tt, panics);
  doc_clear_next_commit_options = λ d. (tt, returns tt);
  modifier_set_message = λ m s. (tt, returns tt);
  modifier_set_timestamp = λ m t. (tt, returns tt);
}

abbrev pub diffs : Diffs crate
diffs = record {
  get_deep_value = λ v. returns LoroValue.null;
  index_text = λ i. ascii "80";
  detach = λ sub. returns tt;
}

abbrev pub imported_some : ImportStatus
imported_some = record { success = (7, pos 0, pos 3) ∷ []; pending = none }

abbrev pub documents : Documents crate
documents = record {
  doc_new = returns tt;
  doc_fork = λ d. (tt, returns tt);
  doc_commit = λ d. (tt, returns tt);
  doc_peer_id = λ d. returns 7;
  doc_set_peer_id = λ d peer. (tt, returns (ok tt));
  doc_set_record_timestamp = λ d b. (tt, returns tt);
  doc_set_change_merge_interval = λ d i. (tt, returns tt);
  doc_decoded_value_cache_limit = λ d. returns 2048;
  doc_set_decoded_value_cache_limit = λ d n. (tt, returns tt);
  doc_get_text = λ d s. returns tt;
  doc_get_map = λ d s. returns tt;
  doc_get_list = λ d s. returns tt;
  doc_get_movable_list = λ d s. returns tt;
  doc_get_tree = λ d s. returns tt;
  doc_get_counter = λ d s. panics;
  doc_get_deep_value = λ d. returns LoroValue.null;
  doc_len_ops = λ d. returns 0;
  doc_len_changes = λ d. returns 0;
  doc_get_pending_txn_len = λ d. returns 0;
  doc_has_history_cache = λ d. returns false;
  doc_free_history_cache = λ d. (tt, returns tt);
  doc_import = λ d bytes. (tt, returns (ok imported_some));
  doc_import_with = λ d bytes s. (tt, panics);
  doc_import_with_history_mode = λ d bytes s mode. (tt, panics);
  doc_import_batch = λ d blobs. (tt, returns (ok imported_some));
  doc_import_batch_with_history_mode = λ d blobs mode. (tt, panics);
  doc_import_json_updates = λ d s. (tt, returns (ok imported_some));
  JsonSchema = Unit {0};
  JsonChanges = Unit {0};
  schema_bytes = λ x. ok bytes_7;
  changes_bytes = λ x. ok bytes_7;
  doc_export = λ d mode. (tt, returns (ok bytes_7));
  doc_export_pending_updates = λ d. (tt, returns (ok none));
  doc_export_json_updates = λ d a b. (tt, returns (ok tt));
  doc_export_json_updates_without_peer_compression = λ d a b. (tt, returns (ok tt));
  doc_export_json_in_id_span = λ d s. (tt, returns tt);
}

-- A list that refuses its children.
abbrev pub refusing : Attaching crate (Unit {0})
refusing = record {
  attach_map = λ m. (tt, returns (err (arg_err [])));
  attach_list = λ l. (tt, returns (err (arg_err [])));
  attach_text = λ t. (tt, returns (err (arg_err [])));
  attach_movable_list = λ l. (tt, returns (err (arg_err [])));
  attach_tree = λ t. (tt, returns (err (arg_err [])));
  attach_counter = λ c. (tt, returns (err (arg_err [])));
}

abbrev pub sequences : Sequences crate
sequences = record {
  methods = record {
    container_id = λ l. returns (ascii "cid:root-l:List");
    is_deleted = λ l. returns false;
    is_attached = λ l. returns true;
    get_attached = λ l. returns (some tt);
    container_doc = λ l. returns none;
  };
  voc_get_deep_value = λ v. returns LoroValue.null;
  list_insert = λ l i v. (tt, returns (ok tt));
  list_push = λ l v. (tt, returns (ok tt));
  list_get = λ l i. returns none;
  list_insert_container = λ l i. refusing;
  list_push_container = λ l. record refusing { attach_list = λ c. (tt, returns (ok tt)) };
  list_delete = λ l i n. (tt, returns (ok tt));
  list_pop = λ l. (tt, returns (ok none));
  list_get_value = λ l. returns LoroValue.null;
  list_get_deep_value = λ l. returns LoroValue.null;
  list_len = λ l. returns 0;
  list_is_empty = λ l. returns true;
  list_clear = λ l. (tt, returns (ok tt));
}

abbrev pub a_list : Container crate
a_list = Container.list_container tt

abbrev pub things : Ptr → Option (Obj crate)
things q =
    if q == 1
    then some (Obj.value LoroValue.null)
    else if q == 2
    then some (Obj.awareness (7 ∷ []))
    else if q == 3
    then some (Obj.ephemeral_store tt)
    else if q == 4
    then some (Obj.doc tt)
    else if q == 5
    then some (Obj.cursor 6)
    else if q == 6
    then some (Obj.undo_manager 3)
    else if q == 7
    then some (Obj.undo_meta item)
    else if q == 8
    then some (Obj.container a_list)
    else if q == 9
    then some (Obj.value_or_container (ValueOrContainer.live_container a_list))
    else none

-- The caller has the text "a" at 100.
abbrev pub busy : World crate
busy = record {
  heap = things;
  next = 10;
  last_error = none;
  c_data = λ q. if q == 100 then 97 ∷ [] else [];
  c_cell = λ q. none;
  trace = [];
}

pub busy-WellFormed : WellFormed busy
busy-WellFormed = record {
  free_from = λ q h. beyond q h;
  ne_null = λ e. absurd (omega arith);
  clean = tt;
}
  where
    beyond : (q : Ptr) → 10 ≤ q → things q ≡ none
    beyond q h = ground arith

pub at_null : Points (as_value crate) busy 1 LoroValue.null
at_null = record { ne_null = λ e. absurd (omega arith); obj = _; holds = refl; typed = refl }

pub at_awareness : Points (as_awareness crate) busy 2 (7 ∷ [])
at_awareness = record { ne_null = λ e. absurd (omega arith); obj = _; holds = refl; typed = refl }

pub at_store : Points (as_store crate) busy 3 tt
at_store = record { ne_null = λ e. absurd (omega arith); obj = _; holds = refl; typed = refl }

pub at_document : Points (as_doc crate) busy 4 tt
at_document = record { ne_null = λ e. absurd (omega arith); obj = _; holds = refl; typed = refl }

pub at_cursor : Points (as_cursor crate) busy 5 6
at_cursor = record { ne_null = λ e. absurd (omega arith); obj = _; holds = refl; typed = refl }

pub at_undo : Points (as_undo_manager crate) busy 6 3
at_undo = record { ne_null = λ e. absurd (omega arith); obj = _; holds = refl; typed = refl }

pub at_item : Points (as_undo_meta crate) busy 7 item
at_item = record { ne_null = λ e. absurd (omega arith); obj = _; holds = refl; typed = refl }

pub at_container : Points (as_container crate) busy 8 a_list
at_container = record { ne_null = λ e. absurd (omega arith); obj = _; holds = refl; typed = refl }

pub at_live : Points (as_value_or_container crate) busy 9 (ValueOrContainer.live_container a_list)
at_live = record { ne_null = λ e. absurd (omega arith); obj = _; holds = refl; typed = refl }

pub text_at : Readable busy 100 1
text_at = omega arith

pub string_at : StringArg busy 100 1
string_at _ = omega arith

pub no_string : StringArg busy 0 0
no_string ne = absurd (ne refl)

-- The same world with a list at 9.
abbrev pub with_list : World crate
with_list = record busy { heap = update things 9 (some (Obj.list_handle tt)) }

pub at_list : Points (as_list crate) with_list 9 tt
at_list = record { ne_null = λ e. absurd (omega arith); obj = _; holds = refl; typed = refl }

pub at_child : Points (as_container crate) with_list 8 a_list
at_child = record { ne_null = λ e. absurd (omega arith); obj = _; holds = refl; typed = refl }
