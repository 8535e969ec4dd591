-- ===== src/Version/Travel/Laws.antt =====
-- The versions of a document as handles: a new box, or the null pointer with a message.
use loro_c.Base.{◌≡◌, refl, ◌⊎◌, inl, inr, Option, none, some, Result, ok, err}
use loro_c.World.{Loro, World, Ptr, null_ptr, Obj, LoroError, update}
use loro_c.Abi.Laws.{Returns, NullOrLive, Ends, bind, guarded}
use loro_c.Abi.Steps.{deref, call_any, fail_any, alloc_any}
use loro_c.Abi.Contract.{Failed, failed}
use loro_c.Version.Ids.{as_version_vector, as_frontiers}
use loro_c.Subscribe.{as_doc}
use loro_c.Version.Travel.{
  loro_doc_oplog_vv, loro_doc_state_vv, loro_doc_oplog_frontiers, loro_doc_frontiers_to_vv,
  loro_doc_vv_to_frontiers, box_vv, box_vv_or, box_found_vv, box_frontiers_or,
}

module _ {loro : Loro} {T : Type 0} (unwrap : Obj loro → Option T) where
  -- A handle on one new box of that type, with no message recorded; or null, with a message, and no
  -- box and no variable of the caller changed.
  abbrev pub NewOrNull : World loro → Ptr → World loro → Type 0
  NewOrNull w q w' =
      ((q ≡ null_ptr) × Failed w w')
      ⊎ ((q ≡ w.next)
          × (o : Obj loro) × (t : T) × (unwrap o ≡ some t)
          × (w'.heap ≡ update w.heap w.next (some o))
          × (w'.last_error ≡ w.last_error))

module _ {loro : Loro} {U : World loro → Type 0} (w : World loro) where
  vv_any :
      (r : Result loro.VersionVector LoroError)
      → Ends ⊥
          (NewOrNull (as_version_vector loro) w)
          U
          (NewOrNull (as_version_vector loro) w)
          (box_vv_or r w)
  unfolding box_vv_or box_vv
  vv_any (ok vv) = alloc_any w _ (inr (refl, _, _, refl, refl, refl))
  vv_any (err e) = fail_any w _ _ (inl (refl, failed w _))

  found_vv_any :
      (r : Result (Option loro.VersionVector) LoroError)
      → Ends ⊥
          (NewOrNull (as_version_vector loro) w)
          U
          (NewOrNull (as_version_vector loro) w)
          (box_found_vv r w)
  unfolding box_found_vv box_vv
  found_vv_any (ok (some vv)) = alloc_any w _ (inr (refl, _, _, refl, refl, refl))
  found_vv_any (ok none) = fail_any w _ _ (inl (refl, failed w _))
  found_vv_any (err e) = fail_any w _ _ (inl (refl, failed w _))

  frontiers_any :
      (r : Result loro.Frontiers LoroError)
      → Ends ⊥
          (NewOrNull (as_frontiers loro) w)
          U
          (NewOrNull (as_frontiers loro) w)
          (box_frontiers_or r w)
  unfolding box_frontiers_or
  frontiers_any (ok f) = alloc_any w _ (inr (refl, _, _, refl, refl, refl))
  frontiers_any (err e) = fail_any w _ _ (inl (refl, failed w _))

-- The versions of a document (of its log as a vector and as frontiers, of its state as a vector) and
-- the conversions between the two, on handles that are null or live and whatever the crate `loro` does,
-- a panic included: each call returns either a handle on one new box of the right type, with no
-- message recorded, or null, with a message, and then no box and no variable of the caller changed.
pub versions-NewOrNull :
    {loro : Loro} (w : World loro) (p f v : Ptr)
    → NullOrLive (as_doc loro) w p
    → NullOrLive (as_frontiers loro) w f
    → NullOrLive (as_version_vector loro) w v
    → Returns (NewOrNull (as_version_vector loro) w) (loro_doc_oplog_vv p w)
      × Returns (NewOrNull (as_version_vector loro) w) (loro_doc_state_vv p w)
      × Returns (NewOrNull (as_frontiers loro) w) (loro_doc_oplog_frontiers p w)
      × Returns (NewOrNull (as_version_vector loro) w) (loro_doc_frontiers_to_vv p f w)
      × Returns (NewOrNull (as_frontiers loro) w) (loro_doc_vv_to_frontiers p v w)
unfolding loro_doc_oplog_vv loro_doc_state_vv loro_doc_oplog_frontiers loro_doc_frontiers_to_vv
    loro_doc_vv_to_frontiers box_vv
versions-NewOrNull {loro} w p f v live live_f live_v = (
  guarded _ (
      bind (
        deref w (as_doc loro) p _ live (λ _. inl (refl, failed w _))
          λ d _. bind (
            call_any w _ (inl (refl, failed w _))
              λ vv. alloc_any w _ (inr (refl, _, _, refl, refl, refl))))),
  guarded _ (
      bind (
        deref w (as_doc loro) p _ live (λ _. inl (refl, failed w _))
          λ d _. bind (call_any w _ (inl (refl, failed w _)) (vv_any w)))),
  guarded _ (
      bind (
        deref w (as_doc loro) p _ live (λ _. inl (refl, failed w _))
          λ d _. bind (
            call_any w _ (inl (refl, failed w _))
              λ vv. alloc_any w _ (inr (refl, _, _, refl, refl, refl))))),
  guarded _ (
      bind (
        deref w (as_doc loro) p _ live (λ _. inl (refl, failed w _))
          λ d _. bind (
            deref w (as_frontiers loro) f _ live_f (λ _. inl (refl, failed w _))
              λ ids _. bind (call_any w _ (inl (refl, failed w _)) (found_vv_any w))))),
  guarded _ (
      bind (
        deref w (as_doc loro) p _ live (λ _. inl (refl, failed w _))
          λ d _. bind (
            deref w (as_version_vector loro) v _ live_v (λ _. inl (refl, failed w _))
              λ vv _. bind (call_any w _ (inl (refl, failed w _)) (frontiers_any w))))),
)
