-- ===== src/Version/Spans.antt =====
-- Differences of version vectors as JSON, in loro-c-api/src/version.rs. The maps of a difference
-- are hash maps: their entries come in an order of no meaning, which the sort by peer removes.
pub mod Sorted
use loro_c.Base.{ℕ, leb, if◌then◌else◌, List, [], ◌∷◌, ◌++◌, map, ascii, Result, ok, err}
use loro_c.Base.Int.{ℤ, pos}
use loro_c.World.{
  Loro, Ptr, CounterSpan, IdSpan, JsonValue, JsonItems, JsonFields, number, array, object, nil_json,
  cons_json, end_json, field_json,
}
use loro_c.Error.{LoroStatus, loro_ok, loro_err_invalid_arg, loro_err_encode, loro_err_panic}
use loro_c.Abi.{Entry, Body, ◌>>=◌, ◌>>◌, ffi_guard, pure, fail, call, deref_or, require_out}
use loro_c.Value.{write_bytes}
use loro_c.Version.Ids.{as_version_vector}

pub span_to_json : ℕ → ℤ → ℤ → JsonValue
span_to_json peer counter_start counter_end = object (
    field_json (ascii "peer") (number (pos peer)) (
      field_json (ascii "counter_start") (number counter_start)
        (field_json (ascii "counter_end") (number counter_end) end_json)))

pub json_items : List JsonValue → JsonItems
json_items [] = nil_json
json_items (x ∷ xs) = cons_json x (json_items xs)

-- `entries.sort_by_key(|(peer, _)| **peer)`: the stable sort of the standard library.
pub insert_by_peer : ℕ × CounterSpan → List (ℕ × CounterSpan) → List (ℕ × CounterSpan)
insert_by_peer e [] = e ∷ []
insert_by_peer e (f ∷ es) = if leb e.0 f.0 then e ∷ f ∷ es else f ∷ insert_by_peer e es

pub sort_by_peer : List (ℕ × CounterSpan) → List (ℕ × CounterSpan)
unfolding insert_by_peer
sort_by_peer [] = []
sort_by_peer (e ∷ es) = insert_by_peer e (sort_by_peer es)

pub spans_to_json_array : List (ℕ × CounterSpan) → JsonValue
unfolding json_items sort_by_peer span_to_json
spans_to_json_array entries =
    array (json_items (map (λ e. span_to_json e.0 e.1.start e.1.end) (sort_by_peer entries)))

unfoldable diff_not_serialized : List ℕ → List ℕ
diff_not_serialized e = ascii "failed to serialize version vector diff: " ++ e

unfoldable missing_not_serialized : List ℕ → List ℕ
missing_not_serialized e = ascii "failed to serialize missing span: " ++ e

module _ {loro : Loro} where
  unfoldable write_json_or : (List ℕ → List ℕ) → JsonValue → Ptr → Body loro LoroStatus LoroStatus
  write_json_or message json out = elim (loro.json_bytes json) [
    | ok bytes ↦ do write_bytes out bytes; pure loro_ok
    | err e ↦ fail (message e) loro_err_encode
  ]

  unfoldable loro_version_vector_diff : Ptr → Ptr → Ptr → Entry loro LoroStatus
  loro_version_vector_diff p other out = ffi_guard loro_err_panic do
    vv ← deref_or (as_version_vector loro) p loro_err_invalid_arg
    o ← deref_or (as_version_vector loro) other loro_err_invalid_arg
    require_out out loro_err_invalid_arg
    diff ← call (loro.vv_diff vv o)
    write_json_or diff_not_serialized
        (object (
          field_json (ascii "retreat") (spans_to_json_array diff.retreat)
            (field_json (ascii "forward") (spans_to_json_array diff.forward) end_json)))
        out

  unfoldable loro_version_vector_get_missing_span : Ptr → Ptr → Ptr → Entry loro LoroStatus
  loro_version_vector_get_missing_span p target out = ffi_guard loro_err_panic do
    vv ← deref_or (as_version_vector loro) p loro_err_invalid_arg
    t ← deref_or (as_version_vector loro) target loro_err_invalid_arg
    require_out out loro_err_invalid_arg
    spans ← call (loro.vv_get_missing_span vv t)
    write_json_or missing_not_serialized
        (array (json_items (map (λ s. span_to_json s.peer s.counter.start s.counter.end) spans)))
        out
