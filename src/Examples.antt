-- ===== src/Examples.antt =====
-- The theorems at concrete inputs: a small stand-in for the crate `loro`, and a world in which two
-- values, a version vector, frontiers, a document and a subscription are live.
pub mod Runs
pub mod Busy
use loro_c.Base.{
  ℕ, zero, suc, ◌≡◌, refl, ◌≢◌, ◌≤◌, ◌<◌, ◌+◌, inl, inr, Bool, true, false, Option, none, some,
  List, [], ◌∷◌, ◌++◌, arith, ascii, Result, ok, err, if◌then◌else◌, length, leb, ltb, ◌==◌,
}
use loro_c.Base.Int.{ℤ, pos, negsuc}
use Prim.Native.Nat.{Ordering, compare}
use loro_c.World.{
  Loro, World, Ptr, null_ptr, Obj, LoroValue, nil, cons, end, entry, value, import_status,
  version_vector, frontiers, doc, subscription, OpId, LoroId, CounterSpan, LoroError,
  LoroEncodeError, LoroImportStatus, returns, panics, VersionVectorDiff, ByteVec, Cell, arg_err,
}
use loro_c.World.{LoroValue}
use loro_c.World.{Values, Entries}
use loro_c.Abi.Laws.{Points, NullOrLive, Returns}
use loro_c.Value.Args.{StringArg, string_argument}
use loro_c.Value.Buffers.{Fresh}
use loro_c.ValueTyped.Items.{as_value}
use loro_c.ValueTyped.Access.Payloads.{Unspent}
use loro_c.ImportStatus.{ImportStatus, status_of, as_import_status}
use loro_c.Version.Ids.{as_version_vector, as_frontiers}
use loro_c.Subscribe.{as_doc, as_subscription}

abbrev pub parse_id : List ℕ → Option (List ℕ)
parse_id [] = none
parse_id (x ∷ t) = if x == 99 then some (x ∷ t) else none

-- Container ids are texts, a version vector is the counter of one peer, frontiers are their ids.
abbrev pub crate : Loro
crate = record {
  ContainerId = List ℕ;
  VersionVector = ℕ;
  Frontiers = List OpId;
  Doc = Unit {0};
  Subscription = Unit {0};
  LoroMap = Unit {0};
  LoroList = Unit {0};
  LoroText = Unit {0};
  LoroMovableList = Unit {0};
  LoroTree = Unit {0};
  LoroCounter = Unit {0};
  UnknownContainer = Unit {0};
  Cursor = ℕ;
  Awareness = List ℕ;
  EphemeralStore = Unit {0};
  UndoManager = ℕ;
  FractionalIndex = List ℕ;
  StyleConfigMap = List (List ℕ);
  PreCommitModifier = Unit {0};
  ChangeMeta = Unit {0};
  value_json_bytes = λ v. ok (record { items = 48 ∷ []; capacity = 1 });
  value_from_json_slice = λ bytes. ok LoroValue.null;
  value_to_json = λ v. none;
  error_text = λ e. ascii "decode" ++ 0 ∷ [];
  encode_error_text = λ e. ascii "encode";
  container_id_text = λ c. record { items = c; capacity = length c };
  container_id_parse = parse_id;
  json_bytes = λ j. ok (record { items = 91 ∷ 93 ∷ []; capacity = 2 });
  json_key_bytes = λ ks. ok (record { items = 91 ∷ 93 ∷ []; capacity = 2 });
  vv_new = 0;
  vv_encode = λ v. returns (record { items = v ∷ []; capacity = 4 });
  vv_decode = λ bytes. elim bytes [
    | [] ↦ returns (err LoroError.decode_version_vector_error)
    | x ∷ _ ↦ returns (ok x)
  ];
  vv_get_last = λ v peer. returns (if peer == 0 then some (pos v) else none);
  vv_set_last = λ v id. (v, returns tt);
  vv_includes_id = λ v id. returns true;
  vv_includes_vv = λ v u. returns (leb u v);
  vv_partial_cmp = λ v u. if v == 9 then panics else returns (some (compare v u));
  vv_get_frontiers = λ v. returns [];
  vv_merge = λ v u. (if leb v u then u else v, returns tt);
  vv_extend_to_include_vv = λ v u. (if leb v u then u else v, returns tt);
  vv_set_end = λ v id. (v, returns tt);
  vv_try_update_last = λ v id. (v, returns true);
  vv_diff = λ v u. returns (record { retreat = []; forward = [] });
  vv_get_missing_span = λ v u. returns [];
  vv_intersect_span = λ v s. returns none;
  frontiers_new = [];
  frontiers_collect = λ ids. returns ids;
  frontiers_encode = λ f. returns (record { items = []; capacity = 0 });
  frontiers_decode = λ bytes. returns (ok []);
  frontiers_ids = λ f. f;
  frontiers_len = λ f. returns (length f);
  frontiers_is_empty = λ f. returns (length f == 0);
  frontiers_contains = λ f id. returns false;
  frontiers_push = λ f id. (id ∷ f, returns tt);
  doc_subscribe = λ d id. record { outcome = returns tt; keeps = true };
  doc_subscribe_root = λ d. record { outcome = returns tt; keeps = true };
  doc_subscribe_local_update = λ d. record { outcome = panics; keeps = false };
  doc_subscribe_pre_commit = λ d. record { outcome = returns tt; keeps = true };
  doc_subscribe_first_commit_from_peer = λ d. record { outcome = panics; keeps = false };
  doc_subscribe_jsonpath =
      λ d path. record { outcome = returns (err (arg_err path)); keeps = false };
  doc_oplog_vv = λ d. returns 7;
  doc_try_state_vv = λ d. returns (err LoroError.decode_data_corruption_error);
  doc_oplog_frontiers = λ d. returns [];
  doc_state_frontiers = λ d. panics;
  doc_is_shallow = λ d. returns false;
  doc_shallow_since_vv = λ d. returns 0;
  doc_try_frontiers_to_vv = λ d f. returns (ok (if length f == 0 then some 0 else none));
  doc_try_vv_to_frontiers = λ d v. returns (ok []);
  doc_checkout = λ d f. (d, returns (ok tt));
  doc_checkout_to_latest = λ d. (d, returns tt);
  doc_is_detached = λ d. returns false;
  doc_export_updates = λ d v. (d, returns (err (LoroEncodeError.other_encode_error [])));
}

abbrev pub span_map : ImportStatus
span_map = record {
  success = (7, pos 0, pos 3) ∷ (4, pos 1, pos 2) ∷ [];
  pending = some ((9, pos 5, pos 6) ∷ []);
}

abbrev pub one_null : Values (List ℕ)
one_null = cons LoroValue.null nil

abbrev pub a_is_five : Entries (List ℕ)
a_is_five = entry (97 ∷ []) (LoroValue.i64 (pos 5)) end

abbrev pub first_id : OpId
first_id = record { peer = 0; counter = pos 6 }

abbrev pub boxes : Ptr → Option (Obj crate)
boxes q =
    if q == 1
    then some (value (LoroValue.string (97 ∷ [])))
    else if q == 2
    then some (value (LoroValue.list one_null))
    else if q == 3
    then some (value (LoroValue.map a_is_five))
    else if q == 4
    then some (import_status (status_of span_map))
    else if q == 5
    then some (version_vector 7)
    else if q == 6
    then some (frontiers (first_id ∷ []))
    else if q == 7
    then some (doc tt)
    else if q == 8
    then some (subscription tt)
    else if q == 9
    then some (value (LoroValue.i64 (negsuc 4)))
    else none

-- The caller has the texts "a" and "c" at 100 and 200.
abbrev pub world : World crate
world = record {
  heap = boxes;
  next = 10;
  last_error = none;
  c_data = λ q. if q == 100 then 97 ∷ [] else if q == 200 then 99 ∷ [] else [];
  c_cell = λ q. none;
  trace = [];
}

pub at_string : Points (as_value crate) world 1 (LoroValue.string (97 ∷ []))
at_string = record { ne_null = λ e. absurd (omega arith); obj = _; holds = refl; typed = refl }

pub at_list : Points (as_value crate) world 2 (LoroValue.list one_null)
at_list = record { ne_null = λ e. absurd (omega arith); obj = _; holds = refl; typed = refl }

pub at_map : Points (as_value crate) world 3 (LoroValue.map a_is_five)
at_map = record { ne_null = λ e. absurd (omega arith); obj = _; holds = refl; typed = refl }

pub at_status : Points (as_import_status crate) world 4 (status_of span_map)
at_status = record { ne_null = λ e. absurd (omega arith); obj = _; holds = refl; typed = refl }

pub at_vector : Points (as_version_vector crate) world 5 7
at_vector = record { ne_null = λ e. absurd (omega arith); obj = _; holds = refl; typed = refl }

pub at_frontiers : Points (as_frontiers crate) world 6 (first_id ∷ [])
at_frontiers = record { ne_null = λ e. absurd (omega arith); obj = _; holds = refl; typed = refl }

pub at_doc : Points (as_doc crate) world 7 tt
at_doc = record { ne_null = λ e. absurd (omega arith); obj = _; holds = refl; typed = refl }

pub at_subscription : Points (as_subscription crate) world 8 tt
at_subscription = record {
  ne_null = λ e. absurd (omega arith);
  obj = _;
  holds = refl;
  typed = refl;
}

pub at_integer : Points (as_value crate) world 9 (LoroValue.i64 (negsuc 4))
at_integer = record { ne_null = λ e. absurd (omega arith); obj = _; holds = refl; typed = refl }

pub unspent : Unspent world
unspent = record { free_from = λ q h. beyond q h; ne_null = λ e. absurd (omega arith) }
  where
    beyond : (q : Ptr) → 10 ≤ q → boxes q ≡ none
    beyond q h = ground arith

pub fresh : Fresh world
fresh = record { unused = refl; ne_null = λ e. absurd (omega arith) }

pub text_a : StringArg world 100 1
text_a _ = omega arith

pub text_c : StringArg world 200 1
text_c _ = omega arith

abbrev pub out : Ptr
out = 300

pub out_ne : out ≢ null_ptr
out_ne e = absurd (omega arith)
