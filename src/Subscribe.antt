-- ===== src/Subscribe.antt =====
-- The subscriptions of loro-c-api/src/event.rs, commit.rs and jsonpath.rs: who owns the C callback's
-- `user_data` on each way out. A `LoroSubscriber` and a `LoroLocalUpdateCallback` have no destructor,
-- so they are released only through the `CCallback` that is made of them; the callback structs of
-- commit.rs and jsonpath.rs implement `Drop` themselves.
pub mod Ownership
use loro_c.Base.{ℕ, if◌then◌else◌, Bool, Option, none, some, List, ◌++◌, ascii, Result, ok, err}
use loro_c.World.{
  Loro, Ptr, null_ptr, Obj, doc, subscription, Handed, LoroError, freed, handed_over,
}
use loro_c.Abi.{
  Step, go, exit, unwinds, undefined, Entry, Body, and_then, ◌>>=◌, ◌>>◌, ffi_guard, pure, fail,
  call, deref_or, into_raw, free_box, emit, loro_error,
}
use loro_c.Value.{str_from_raw, or_return}

-- The triple of a callback struct, less the function pointer, which nothing here calls.
pub record Subscriber : Type 0 where
  pub user_data : ℕ
  pub free_user_data : Bool

abbrev pub as_doc : (loro : Loro) → Obj loro → Option loro.Doc
as_doc loro (doc d) = some d
as_doc loro _ = none

abbrev pub as_subscription : (loro : Loro) → Obj loro → Option loro.Subscription
as_subscription loro (subscription s) = some s
as_subscription loro _ = none

unfoldable pub invalid_container_id : List ℕ → List ℕ
invalid_container_id cid = ascii "invalid container id: " ++ cid

module _ {loro : Loro} where
  drop_subscriber : {R : Type 0} → Subscriber → Body loro R (Unit {0})
  drop_subscriber cb = if cb.free_user_data then emit (freed cb.user_data) else pure tt

  -- The closure that owns the callback moves into the call; where the crate does not keep it, it is
  -- dropped there, and with it the callback.
  pub hand_over : {R A : Type 0} → Subscriber → Handed A → Body loro R A
  hand_over cb h = do
    emit (handed_over cb.user_data)
    if h.keeps then pure tt else drop_subscriber cb
    call h.outcome

  pub release_after : {R A : Type 0} → Subscriber → Step loro R A → Step loro R A
  release_after cb (go a w) = go a w
  release_after cb (exit r w) = and_then (drop_subscriber cb w) (λ _ w'. exit r w')
  release_after cb (unwinds w) = and_then (drop_subscriber cb w) (λ _ w'. unwinds w')
  release_after cb undefined = undefined

  -- A callback struct with `Drop`, held by a part of the body: released if the part is left early.
  unfoldable pub held_during : {R A : Type 0} → Subscriber → Body loro R A → Body loro R A
  held_during cb body w = release_after cb (body w)

  unfoldable pub container_id_or_fail : List ℕ → Body loro Ptr loro.ContainerId
  container_id_or_fail cid = elim (loro.container_id_parse cid) [
    | none ↦ fail (invalid_container_id cid) null_ptr
    | some id ↦ pure id
  ]

  pub loro_doc_subscribe : Ptr → Ptr → ℕ → Subscriber → Entry loro Ptr
  loro_doc_subscribe p cid cid_len callback = ffi_guard null_ptr do
    d ← deref_or (as_doc loro) p null_ptr
    found ← str_from_raw cid cid_len
    s ← or_return found null_ptr
    id ← container_id_or_fail s
    sub ← hand_over callback (loro.doc_subscribe d id)
    into_raw (subscription sub)

  pub loro_doc_subscribe_root : Ptr → Subscriber → Entry loro Ptr
  loro_doc_subscribe_root p callback = ffi_guard null_ptr do
    d ← deref_or (as_doc loro) p null_ptr
    sub ← hand_over callback (loro.doc_subscribe_root d)
    into_raw (subscription sub)

  pub loro_doc_subscribe_local_update : Ptr → Subscriber → Entry loro Ptr
  loro_doc_subscribe_local_update p callback = ffi_guard null_ptr do
    d ← deref_or (as_doc loro) p null_ptr
    sub ← hand_over callback (loro.doc_subscribe_local_update d)
    into_raw (subscription sub)

  pub loro_doc_subscribe_pre_commit : Ptr → Subscriber → Entry loro Ptr
  loro_doc_subscribe_pre_commit p callback = ffi_guard null_ptr do
    d ← held_during callback (deref_or (as_doc loro) p null_ptr)
    sub ← hand_over callback (loro.doc_subscribe_pre_commit d)
    into_raw (subscription sub)

  pub loro_doc_subscribe_first_commit_from_peer : Ptr → Subscriber → Entry loro Ptr
  loro_doc_subscribe_first_commit_from_peer p callback = ffi_guard null_ptr do
    d ← held_during callback (deref_or (as_doc loro) p null_ptr)
    sub ← hand_over callback (loro.doc_subscribe_first_commit_from_peer d)
    into_raw (subscription sub)

  doc_and_path : Ptr → Ptr → ℕ → Body loro Ptr (loro.Doc × List ℕ)
  doc_and_path p path path_len = do
    d ← deref_or (as_doc loro) p null_ptr
    found ← str_from_raw path path_len
    s ← or_return found null_ptr
    pure (d, s)

  box_subscribed : Result loro.Subscription LoroError → Body loro Ptr Ptr
  box_subscribed (ok sub) = into_raw (subscription sub)
  box_subscribed (err e) = do status ← loro_error e; pure null_ptr

  pub loro_doc_subscribe_jsonpath : Ptr → Ptr → ℕ → Subscriber → Entry loro Ptr
  loro_doc_subscribe_jsonpath p path path_len callback = ffi_guard null_ptr do
    (d, s) ← held_during callback (doc_and_path p path path_len)
    subscribed ← hand_over callback (loro.doc_subscribe_jsonpath d s)
    box_subscribed subscribed

  unfoldable pub loro_subscription_free : Ptr → Entry loro (Unit {0})
  loro_subscription_free p = ffi_guard tt (free_box (as_subscription loro) p)
