-- ===== src/Document/Query/Sorted.antt =====
-- loro-c-api/src/doc.rs: the lists that are sorted before they are written as JSON.
use loro_c.Base.{ℕ, ltb, ◌==◌, if◌then◌else◌, Bool, true, false, List, [], ◌∷◌, ascii}
use loro_c.World.{CounterSpan, JsonValue, JsonFields, number, object, end_json, field_json}
use loro_c.Version.Spans.{sort_by_peer}
use loro_c.Awareness.PeerIds.{decimal}

-- The order of strings, byte by byte, and `Vec<String>::sort`.
unfoldable pub at_most : List ℕ → List ℕ → Bool
at_most [] t = true
at_most (a ∷ s) [] = false
at_most (a ∷ s) (b ∷ t) =
    let rest = at_most s t in if ltb a b then true else if a == b then rest else false

unfoldable pub insert_sorted : List ℕ → List (List ℕ) → List (List ℕ)
insert_sorted s [] = s ∷ []
insert_sorted s (t ∷ ts) =
    let rest = insert_sorted s ts in if at_most s t then s ∷ t ∷ ts else t ∷ rest

unfoldable pub sort_texts : List (List ℕ) → List (List ℕ)
sort_texts [] = []
sort_texts (s ∷ ss) = insert_sorted s (sort_texts ss)

unfoldable pub span_fields : List (ℕ × CounterSpan) → JsonFields
span_fields [] = end_json
span_fields ((peer, cs) ∷ spans) =
    field_json (decimal peer)
      (object (
        field_json (ascii "start") (number cs.start)
          (field_json (ascii "end") (number cs.end) end_json)))
      (span_fields spans)

unfoldable pub id_spans_to_json : List (ℕ × CounterSpan) → JsonValue
id_spans_to_json m = object (span_fields (sort_by_peer m))
