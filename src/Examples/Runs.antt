-- ===== src/Examples/Runs.antt =====
-- Each theorem applied to the world of the examples.
use loro_c.Base.{
  subst, some_eq, arith, ap, ℕ, ◌≡◌, refl, ◌≢◌, inl, inr, true, false, none, some, List, [], ◌∷◌,
  length, get_elem?,
}
use loro_c.Base.Int.{pos, negsuc}
use mathlib.Core.List.{Permᴰ, Memᴰ, Pairwise}
use mathlib.Core.Logic.{∥∥₁_elim}
use mathlib.Core.HLevel.{⊥_prop}
use loro_c.World.{CounterSpan, LoroError, LoroEncodeError}
use loro_c.World.{LoroValue}
use loro_c.Error.{
  loro_ok, discriminant, replace_nul, has_nul, record_loro_error, record_encode_error,
  set_last_error, loro_last_error_message,
}
use loro_c.Error.Laws.{message-set_last_error, errors_reported}
use loro_c.Abi.Laws.{Returns}
use loro_c.Abi.Contract.{Contract, Writes}
use loro_c.Value.Utf8.{from_utf8, accepts, advance}
use loro_c.Value.Args.{string_argument}
use loro_c.ValueTyped.Items.{loro_value_bool, loro_value_double, loro_value_i64}
use loro_c.ValueTyped.Construct.{loro_value_free, loro_value_new_string}
use loro_c.ValueTyped.Access.{
  loro_value_as_bool, loro_value_as_double, loro_value_as_i64, loro_value_as_string,
  loro_value_as_binary, loro_value_as_container,
}
use loro_c.ValueTyped.Access.Contract.{accessors-Contract}
use loro_c.ValueTyped.Access.Payloads.{HandsOut, payloads-HandsOut, as_string-new_string}
use loro_c.ValueTyped.Access.Scalars.{Answers, BoolOf, DoubleOf, IntegerOf, scalars-Answers}
use loro_c.ValueTyped.Compound.{loro_value_list_push, loro_value_map_insert, loro_value_map_keys}
use loro_c.ValueTyped.Compound.Contract.{compounds-Contract}
use loro_c.ValueTyped.Compound.Lists.{ShowsPushed, list_get-push}
use loro_c.ValueTyped.Compound.Maps
use loro_c.ValueTyped.Compound.Maps.{map_get-insert}
use loro_c.ValueTyped.Visit.{LoroValueMapVisitor, loro_value_map_for_each}
use loro_c.ValueTyped.Visit.Laws.{Toured, callback, map_for_each-Toured}
use loro_c.ImportStatus.{
  loro_import_status_success_len, loro_import_status_success_at, loro_import_status_pending_len,
  loro_import_status_pending_at, loro_import_status_free,
}
use loro_c.ImportStatus.Laws.{Reads, pending_range, import_status-Reads}
use loro_c.Version.Vector.{
  loro_version_vector_encode, loro_version_vector_get_last, loro_version_vector_compare,
  loro_version_vector_free,
}
use loro_c.Version.Vector.Laws.{Tells, compare-Tells, queries-Contract}
use loro_c.Version.Spans.{sort_by_peer, spans_to_json_array}
use loro_c.Version.Spans.Sorted.{
  DistinctPeers, IsSorted, spans_to_json_array-Perm, sort_by_peer-IsSorted,
}
use loro_c.Version.Frontiers.{loro_frontiers_get, loro_frontiers_free}
use loro_c.Version.Frontiers.Laws.{ReadsId, frontiers_get-ReadsId}
use loro_c.Subscribe.{
  Subscriber, loro_doc_subscribe, loro_doc_subscribe_root, loro_doc_subscribe_local_update,
  loro_subscription_free,
}
use loro_c.Subscribe.Ownership.{LeftOrTaken, Refused, plain_structs-LeftOrTaken, subscribe-Refused}
use loro_c.Version.Ids.{as_version_vector, as_frontiers}
use loro_c.Version.Travel.{
  loro_doc_oplog_vv, loro_doc_state_vv, loro_doc_oplog_frontiers, loro_doc_frontiers_to_vv,
  loro_doc_vv_to_frontiers,
}
use loro_c.Version.Travel.Laws.{NewOrNull, versions-NewOrNull}
use loro_c.World.{LoroId, version_vector, frontiers}
use loro_c.Version.Ids.{to_loro}
use loro_c.Version.Vector.{loro_version_vector_set_last}
use loro_c.Version.Frontiers.{loro_frontiers_push}
use loro_c.Version.Algebra.{
  loro_version_vector_merge, loro_version_vector_extend_to_include_vv, loro_version_vector_set_end,
}
use loro_c.Abi.Replaced.{Replaced}
use loro_c.Version.Algebra.Laws.{mutations-Replaced}
use loro_c.Handles.{FreesOnce, destructors-FreesOnce}
use loro_c.Examples.{
  crate, span_map, one_null, a_is_five, first_id, world, at_string, at_list, at_map, at_status,
  at_vector, at_frontiers, at_doc, at_subscription, at_integer, unspent, fresh, text_a, text_c,
  out_ne,
}

abbrev subscriber : Subscriber
subscriber = record { user_data = 41; free_user_data = true }

abbrev visitor : LoroValueMapVisitor (List ℕ)
visitor = record { invoke = λ k v. true; user_data = 42; free_user_data = true }

abbrev span : CounterSpan
span = record { start = pos 0; end = pos 3 }

plain_structs_example :
    Returns (LeftOrTaken world subscriber) (loro_doc_subscribe_root 7 subscriber world)
    × Returns (LeftOrTaken world subscriber) (loro_doc_subscribe_local_update 7 subscriber world)
    × Returns (LeftOrTaken world subscriber) (loro_doc_subscribe 7 200 1 subscriber world)
plain_structs_example = plain_structs-LeftOrTaken world subscriber 7 (inr (_, at_doc)) 200 1 text_c

abbrev minus_five : LoroValue (List ℕ)
minus_five = LoroValue.i64 (negsuc 4)

is_a : string_argument world 100 1 ≡ some (97 ∷ [])
unfolding from_utf8 accepts advance
is_a = refl

refused : (t : List ℕ) → string_argument world 100 1 ≡ some t → crate.container_id_parse t ≡ none
refused t e = subst (λ x. crate.container_id_parse x ≡ none) (some_eq is_a e) refl

subscribe-Refused_example : Returns (Refused world) (loro_doc_subscribe 7 100 1 subscriber world)
subscribe-Refused_example =
    subscribe-Refused world subscriber 7 (inr (_, at_doc)) 100 1 text_a (λ e. absurd (omega arith))
      refused

map_for_each_example :
    Returns (Toured world 3 (callback visitor)) (loro_value_map_for_each 3 visitor world)
map_for_each_example = map_for_each-Toured world 3 visitor (inr (_, at_map))

payloads_example :
    Returns (HandsOut world 300 (some (97 ∷ []))) (loro_value_as_string 1 300 world)
    × Returns (HandsOut world 300 none) (loro_value_as_binary 1 300 world)
payloads_example = payloads-HandsOut world 1 300 (LoroValue.string (97 ∷ [])) fresh at_string out_ne

new_string_example :
    Returns
      (λ v w'. Returns (HandsOut w' 300 (some (97 ∷ []))) (loro_value_as_string v 300 w'))
      (loro_value_new_string 100 1 world)
new_string_example = as_string-new_string world 100 300 1 (97 ∷ []) unspent text_a is_a out_ne

list_push_example :
    Returns
      (λ status w'. (status ≡ loro_ok) × ShowsPushed w' 2 one_null minus_five)
      (loro_value_list_push 2 9 world)
list_push_example = list_get-push world 2 9 one_null minus_five at_list at_integer

map_insert_example :
    Returns
      (λ status w'.
        (status ≡ loro_ok) × Maps.Answers w' 100 1 3 a_is_five (97 ∷ []) (97 ∷ []) minus_five)
      (loro_value_map_insert 3 100 1 9 world)
map_insert_example =
    map_get-insert world 3 9 a_is_five minus_five 100 1 (97 ∷ []) 100 1 (97 ∷ []) at_map at_integer
      text_a is_a text_a is_a

destructors_example :
    FreesOnce world 1 loro_value_free
    × FreesOnce world 4 loro_import_status_free
    × FreesOnce world 5 loro_version_vector_free
    × FreesOnce world 6 loro_frontiers_free
    × FreesOnce world 8 loro_subscription_free
destructors_example =
    destructors-FreesOnce world 1 4 5 6 8 _ _ _ _ _ at_string at_status at_vector at_frontiers
      at_subscription

scalars_example :
    Returns
      (Answers world 300 minus_five loro_value_bool (BoolOf minus_five))
      (loro_value_as_bool 9 300 world)
    × Returns
        (Answers world 300 minus_five loro_value_double (DoubleOf minus_five))
        (loro_value_as_double 9 300 world)
    × Returns
        (Answers world 300 minus_five loro_value_i64 (IntegerOf minus_five))
        (loro_value_as_i64 9 300 world)
scalars_example = scalars-Answers world 9 300 minus_five at_integer out_ne

accessors_example :
    Returns (Writes world 300) (loro_value_as_string 9 300 world)
    × Returns (Writes world 300) (loro_value_as_binary 9 300 world)
    × Returns (Writes world 300) (loro_value_as_container 9 300 world)
accessors_example = accessors-Contract world 9 300 (inr (_, at_integer))

compounds_example :
    Returns (Contract world) (loro_value_list_push 3 9 world)
    × Returns (Contract world) (loro_value_map_insert 3 100 1 9 world)
    × Returns (Writes world 300) (loro_value_map_keys 3 300 world)
compounds_example =
    compounds-Contract world 3 9 100 300 1 (inr (_, at_map)) (inr (_, at_integer)) text_a

set_last_error_example :
    (loro_last_error_message (set_last_error (97 ∷ 0 ∷ []) world)
      ≡ some (replace_nul (97 ∷ 0 ∷ [])))
    × (has_nul (replace_nul (97 ∷ 0 ∷ [])) ≡ false)
    × (length (replace_nul (97 ∷ 0 ∷ [])) ≡ 2)
set_last_error_example = message-set_last_error (97 ∷ 0 ∷ []) world

errors_example :
    ((discriminant (record_loro_error LoroError.decode_data_corruption_error world).0 ≢ 0)
      × (loro_last_error_message (record_loro_error LoroError.decode_data_corruption_error world).1
          ≡ some (replace_nul (crate.error_text LoroError.decode_data_corruption_error))))
    × (discriminant (record_encode_error (LoroEncodeError.other_encode_error []) world).0 ≢ 0)
    × (loro_last_error_message (record_encode_error (LoroEncodeError.other_encode_error []) world).1
        ≡ some (replace_nul (crate.encode_error_text (LoroEncodeError.other_encode_error []))))
errors_example =
    errors_reported LoroError.decode_data_corruption_error (LoroEncodeError.other_encode_error [])
      world

import_status_example :
    Returns (λ n w'. (n ≡ 2) × (w' ≡ world)) (loro_import_status_success_len 4 world)
    × ((index : ℕ)
        → Returns
            (Reads world 300 (get_elem? span_map.success index))
            (loro_import_status_success_at 4 index 300 world))
    × Returns (λ n w'. (n ≡ 1) × (w' ≡ world)) (loro_import_status_pending_len 4 world)
    × ((index : ℕ)
        → Returns
            (Reads world 300 (get_elem? (pending_range span_map) index))
            (loro_import_status_pending_at 4 index 300 world))
import_status_example = import_status-Reads world 4 300 span_map at_status out_ne

compare_example :
    Returns (Tells world 300 (crate.vv_partial_cmp 7 7)) (loro_version_vector_compare 5 5 300 world)
compare_example = compare-Tells world 5 5 300 7 7 at_vector at_vector out_ne

queries_example :
    Returns (Writes world 300) (loro_version_vector_encode 5 300 world)
    × Returns (Writes world 300) (loro_version_vector_get_last 5 1 300 world)
    × Returns (Writes world 300) (loro_version_vector_compare 5 0 300 world)
queries_example = queries-Contract world 5 300 (inr (_, at_vector)) 0 (inl refl) 1

apart : (a : ℕ × CounterSpan) → Memᴰ a ((1, span) ∷ []) → 2 ≢ a.0
apart a (Memᴰ.head e) f = absurd (omega (arith, ap (λ x. x.0) e, f))
apart a (Memᴰ.tail d) f = elim d [ ]

distinct_2_1 : DistinctPeers ((2, span) ∷ (1, span) ∷ [])
distinct_2_1 =
    Pairwise.cons (λ a m e. ∥∥₁_elim m ⊥_prop (λ d. apart a d e))
      (Pairwise.cons (λ a m. absurd (∥∥₁_elim m ⊥_prop (λ d. elim d [ ]))) Pairwise.nil)

spans_example :
    spans_to_json_array ((2, span) ∷ (1, span) ∷ [])
    ≡ spans_to_json_array ((1, span) ∷ (2, span) ∷ [])
spans_example =
    spans_to_json_array-Perm ((2, span) ∷ (1, span) ∷ []) ((1, span) ∷ (2, span) ∷ [])
      (Permᴰ.swap refl refl) distinct_2_1

sort_example :
    Permᴰ ((2, span) ∷ (1, span) ∷ []) (sort_by_peer ((2, span) ∷ (1, span) ∷ []))
    × IsSorted (sort_by_peer ((2, span) ∷ (1, span) ∷ []))
sort_example = sort_by_peer-IsSorted ((2, span) ∷ (1, span) ∷ [])

frontiers_get_example :
    Returns (ReadsId world 300 (some first_id)) (loro_frontiers_get 6 0 300 world)
frontiers_get_example = frontiers_get-ReadsId world 6 300 (first_id ∷ []) 0 at_frontiers out_ne

versions_example :
    Returns (NewOrNull (as_version_vector crate) world) (loro_doc_oplog_vv 7 world)
    × Returns (NewOrNull (as_version_vector crate) world) (loro_doc_state_vv 7 world)
    × Returns (NewOrNull (as_frontiers crate) world) (loro_doc_oplog_frontiers 7 world)
    × Returns (NewOrNull (as_version_vector crate) world) (loro_doc_frontiers_to_vv 7 6 world)
    × Returns (NewOrNull (as_frontiers crate) world) (loro_doc_vv_to_frontiers 7 5 world)
versions_example =
    versions-NewOrNull world 7 6 5 (inr (_, at_doc)) (inr (_, at_frontiers)) (inr (_, at_vector))

abbrev new_id : LoroId
new_id = record { peer = 3; counter = pos 8 }

mutations_example :
    Returns
      (Replaced world 5 (version_vector (crate.vv_merge 7 7).0) (crate.vv_merge 7 7).1)
      (loro_version_vector_merge 5 5 world)
    × Returns
        (Replaced world 5
          (version_vector (crate.vv_extend_to_include_vv 7 7).0)
          (crate.vv_extend_to_include_vv 7 7).1)
        (loro_version_vector_extend_to_include_vv 5 5 world)
    × Returns
        (Replaced world 5
          (version_vector (crate.vv_set_end 7 (to_loro new_id)).0)
          (crate.vv_set_end 7 (to_loro new_id)).1)
        (loro_version_vector_set_end 5 new_id world)
    × Returns
        (Replaced world 5
          (version_vector (crate.vv_set_last 7 (to_loro new_id)).0)
          (crate.vv_set_last 7 (to_loro new_id)).1)
        (loro_version_vector_set_last 5 new_id world)
    × Returns
        (Replaced world 6
          (frontiers (crate.frontiers_push (first_id ∷ []) (to_loro new_id)).0)
          (crate.frontiers_push (first_id ∷ []) (to_loro new_id)).1)
        (loro_frontiers_push 6 new_id world)
mutations_example =
    mutations-Replaced world 5 5 6 7 7 (first_id ∷ []) new_id at_vector at_vector at_frontiers
