-- ===== src/World/Library.antt =====
-- The code outside the repository: the crates `loro` and `serde_json`, as a parameter. A method of
-- `loro` may panic; one that takes `&mut self` gives back the object beside its result.
use Prim.Native.Nat.{Ordering}
use loro_c.Base.{ℕ, Bool, Option, List, Result}
use loro_c.Base.Int.{ℤ}
use loro_c.World.Types.{
  LoroValue, ByteVec, OpId, CounterSpan, IdSpan, LoroError, LoroEncodeError, JsonValue,
}

pub data Call (A : Type 0) : Type 0 where
  returns : A → Call A
  panics : Call A

-- A call that a closure moves into: its answer, and whether the crate still has the closure when the
-- call ends; one that it does not keep is dropped by then.
pub record Handed (A : Type 0) : Type 0 where
  pub outcome : Call A
  pub keeps : Bool

-- loro::VersionVectorDiff.
pub record VersionVectorDiff : Type 0 where
  pub retreat : List (ℕ × CounterSpan)
  pub forward : List (ℕ × CounterSpan)

pub record Loro : Type 1 where
  pub ContainerId : Type 0
  pub VersionVector : Type 0
  pub Frontiers : Type 0
  pub Doc : Type 0
  pub Subscription : Type 0
  pub LoroMap : Type 0
  pub LoroList : Type 0
  pub LoroText : Type 0
  pub LoroMovableList : Type 0
  pub LoroTree : Type 0
  pub LoroCounter : Type 0
  pub UnknownContainer : Type 0
  pub Cursor : Type 0
  pub Awareness : Type 0
  pub EphemeralStore : Type 0
  pub UndoManager : Type 0
  pub FractionalIndex : Type 0
  pub StyleConfigMap : Type 0
  pub PreCommitModifier : Type 0
  pub ChangeMeta : Type 0
  -- serde_json on values: `to_vec` and `from_slice`, with the text of the error, and `to_value`.
  pub value_json_bytes : LoroValue ContainerId → Result ByteVec (List ℕ)
  pub value_from_json_slice : List ℕ → Result (LoroValue ContainerId) (List ℕ)
  pub value_to_json : LoroValue ContainerId → Option JsonValue
  -- Display of errors and container ids, and serde_json::to_vec.
  pub error_text : LoroError → List ℕ
  pub encode_error_text : LoroEncodeError → List ℕ
  pub container_id_text : ContainerId → ByteVec
  pub container_id_parse : List ℕ → Option ContainerId
  pub json_bytes : JsonValue → Result ByteVec (List ℕ)
  pub json_key_bytes : List (List ℕ) → Result ByteVec (List ℕ)
  -- loro::VersionVector.
  pub vv_new : VersionVector
  pub vv_encode : VersionVector → Call ByteVec
  pub vv_decode : List ℕ → Call (Result VersionVector LoroError)
  pub vv_get_last : VersionVector → ℕ → Call (Option ℤ)
  pub vv_set_last : VersionVector → OpId → VersionVector × Call (Unit {0})
  pub vv_includes_id : VersionVector → OpId → Call Bool
  pub vv_includes_vv : VersionVector → VersionVector → Call Bool
  pub vv_partial_cmp : VersionVector → VersionVector → Call (Option Ordering)
  pub vv_get_frontiers : VersionVector → Call Frontiers
  pub vv_merge : VersionVector → VersionVector → VersionVector × Call (Unit {0})
  pub vv_extend_to_include_vv : VersionVector → VersionVector → VersionVector × Call (Unit {0})
  pub vv_set_end : VersionVector → OpId → VersionVector × Call (Unit {0})
  pub vv_try_update_last : VersionVector → OpId → VersionVector × Call Bool
  pub vv_diff : VersionVector → VersionVector → Call VersionVectorDiff
  pub vv_get_missing_span : VersionVector → VersionVector → Call (List IdSpan)
  pub vv_intersect_span : VersionVector → IdSpan → Call (Option CounterSpan)
  -- loro::Frontiers; `frontiers_ids` is the order of its iterator.
  pub frontiers_new : Frontiers
  pub frontiers_collect : List OpId → Call Frontiers
  pub frontiers_encode : Frontiers → Call ByteVec
  pub frontiers_decode : List ℕ → Call (Result Frontiers LoroError)
  pub frontiers_ids : Frontiers → List OpId
  pub frontiers_len : Frontiers → Call ℕ
  pub frontiers_is_empty : Frontiers → Call Bool
  pub frontiers_contains : Frontiers → OpId → Call Bool
  pub frontiers_push : Frontiers → OpId → Frontiers × Call (Unit {0})
  -- Subscriptions of loro::LoroDoc: the closure that owns the C callback moves into the call.
  pub doc_subscribe : Doc → ContainerId → Handed Subscription
  pub doc_subscribe_root : Doc → Handed Subscription
  pub doc_subscribe_local_update : Doc → Handed Subscription
  pub doc_subscribe_pre_commit : Doc → Handed Subscription
  pub doc_subscribe_first_commit_from_peer : Doc → Handed Subscription
  pub doc_subscribe_jsonpath : Doc → List ℕ → Handed (Result Subscription LoroError)
  -- Versions and time travel of loro::LoroDoc; a method that changes the document gives it back.
  pub doc_oplog_vv : Doc → Call VersionVector
  pub doc_try_state_vv : Doc → Call (Result VersionVector LoroError)
  pub doc_oplog_frontiers : Doc → Call Frontiers
  pub doc_state_frontiers : Doc → Call Frontiers
  pub doc_is_shallow : Doc → Call Bool
  pub doc_shallow_since_vv : Doc → Call VersionVector
  pub doc_try_frontiers_to_vv : Doc → Frontiers → Call (Result (Option VersionVector) LoroError)
  pub doc_try_vv_to_frontiers : Doc → VersionVector → Call (Result Frontiers LoroError)
  pub doc_checkout : Doc → Frontiers → Doc × Call (Result (Unit {0}) LoroError)
  pub doc_checkout_to_latest : Doc → Doc × Call (Unit {0})
  pub doc_is_detached : Doc → Call Bool
  pub doc_export_updates : Doc → VersionVector → Doc × Call (Result ByteVec LoroEncodeError)
