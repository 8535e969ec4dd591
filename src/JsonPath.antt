-- ===== src/JsonPath.antt =====
-- loro-c-api/src/jsonpath.rs: a query over a document, and the list of its results. Its subscription
-- is in Subscribe.
use loro_c.Base.{ℕ, Option, none, some, List, ascii, ◌++◌, length, get_elem?, Result, ok, err}
use loro_c.World.{
  Loro, Ptr, null_ptr, Obj, jsonpath_results, container, value_or_container, LoroValue,
  ValueOrContainer, plain_value, live_container, Call, bool_cell,
}
use loro_c.Error.{LoroStatus, loro_ok, loro_err_invalid_arg, loro_err_not_found, loro_err_panic}
use loro_c.Abi.{
  Body, Entry, ◌>>=◌, ◌>>◌, ffi_guard, pure, fail, call, deref_or, require_out, write_out, into_raw,
  free_box,
}
use loro_c.Value.Json.{string_or_return, write_serialized}
use loro_c.Subscribe.{as_doc}
use loro_c.ValueOrContainer.{is_container}

-- The query of loro::LoroDoc, with the text of its error, and `ValueOrContainer::get_deep_value`.
pub record Queries (loro : Loro) : Type 0 where
  pub doc_jsonpath : loro.Doc → List ℕ → Call (Result (List (ValueOrContainer loro)) (List ℕ))
  pub get_deep_value : ValueOrContainer loro → Call (LoroValue loro.ContainerId)

abbrev as_results : (loro : Loro) → Obj loro → Option (List (ValueOrContainer loro))
as_results loro (jsonpath_results rs) = some rs
as_results loro _ = none

abbrev result_out_of_range : List ℕ
result_out_of_range = ascii "jsonpath result index out of range"

abbrev result_is_a_value : List ℕ
result_is_a_value = ascii "jsonpath result is a value, not a container"

abbrev result_not_serialized : List ℕ → List ℕ
result_not_serialized e = ascii "failed to serialize jsonpath result: " ++ e

module _ {loro : Loro} where
  unfoldable box_results : Result (List (ValueOrContainer loro)) (List ℕ) → Body loro Ptr Ptr
  box_results (ok results) = into_raw (jsonpath_results results)
  box_results (err e) = fail e null_ptr

  unfoldable write_kind : Option (ValueOrContainer loro) → Ptr → Body loro LoroStatus LoroStatus
  write_kind none out = fail result_out_of_range loro_err_not_found
  write_kind (some v) out = do write_out out (bool_cell (is_container v)); pure loro_ok

  unfoldable box_result : Option (ValueOrContainer loro) → Body loro Ptr Ptr
  box_result none = fail result_out_of_range null_ptr
  box_result (some v) = into_raw (value_or_container v)

  unfoldable box_live : Option (ValueOrContainer loro) → Body loro Ptr Ptr
  box_live none = fail result_out_of_range null_ptr
  box_live (some (plain_value _)) = fail result_is_a_value null_ptr
  box_live (some (live_container c)) = into_raw (container c)

  unfoldable loro_jsonpath_results_free : Ptr → Entry loro (Unit {0})
  loro_jsonpath_results_free p = ffi_guard tt (free_box (as_results loro) p)

  unfoldable loro_jsonpath_results_len : Ptr → Entry loro ℕ
  loro_jsonpath_results_len p =
      ffi_guard 0 do results ← deref_or (as_results loro) p 0; pure (length results)

  unfoldable loro_jsonpath_results_is_container : Ptr → ℕ → Ptr → Entry loro LoroStatus
  loro_jsonpath_results_is_container p index out = ffi_guard loro_err_panic do
    results ← deref_or (as_results loro) p loro_err_invalid_arg
    require_out out loro_err_invalid_arg
    write_kind (get_elem? results index) out

  unfoldable loro_jsonpath_results_get_value_or_container : Ptr → ℕ → Entry loro Ptr
  loro_jsonpath_results_get_value_or_container p index =
      ffi_guard null_ptr
        do results ← deref_or (as_results loro) p null_ptr; box_result (get_elem? results index)

  unfoldable loro_jsonpath_results_get_container : Ptr → ℕ → Entry loro Ptr
  loro_jsonpath_results_get_container p index =
      ffi_guard null_ptr
        do results ← deref_or (as_results loro) p null_ptr; box_live (get_elem? results index)

  module _ (crate : Queries loro) where
    unfoldable write_result : Option (ValueOrContainer loro) → Ptr → Body loro LoroStatus LoroStatus
    write_result none out = fail result_out_of_range loro_err_not_found
    write_result (some v) out = do
      deep ← call (crate.get_deep_value v)
      write_serialized (loro.value_json_bytes deep) result_not_serialized out

    unfoldable loro_doc_jsonpath : Ptr → Ptr → ℕ → Entry loro Ptr
    loro_doc_jsonpath p path path_len = ffi_guard null_ptr do
      d ← deref_or (as_doc loro) p null_ptr
      s ← string_or_return path path_len null_ptr
      found ← call (crate.doc_jsonpath d s)
      box_results found

    unfoldable loro_jsonpath_results_get_value_json : Ptr → ℕ → Ptr → Entry loro LoroStatus
    loro_jsonpath_results_get_value_json p index out = ffi_guard loro_err_panic do
      results ← deref_or (as_results loro) p loro_err_invalid_arg
      require_out out loro_err_invalid_arg
      write_result (get_elem? results index) out
