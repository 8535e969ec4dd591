-- ===== src/Version/Algebra/Laws.antt =====
-- The operations that change a version vector or frontiers behind their handle.
use loro_c.Base.{refl}
use loro_c.World.{Loro, World, Ptr, LoroId, Call, returns, panics, version_vector, frontiers}
use loro_c.Error.{loro_ok, loro_err_panic, set_last_error}
use loro_c.Abi.{and_then, call, pure}
use loro_c.Abi.Laws.{Returns, Points, AfterPanic, Ends, bind, guarded, goes, unwinding}
use loro_c.Abi.Replaced.{Replaced}
use loro_c.Abi.Steps.{deref_at, store_any}
use loro_c.Version.Ids.{as_version_vector, as_frontiers, to_loro, mutate_vv, mutate_frontiers}
use loro_c.Version.Vector.{loro_version_vector_set_last}
use loro_c.Version.Frontiers.{loro_frontiers_push}
use loro_c.Version.Algebra.{
  loro_version_vector_merge, loro_version_vector_extend_to_include_vv, loro_version_vector_set_end,
}

module _ {loro : Loro} (w : World loro) (p : Ptr) where
  vv_mutated :
      (m : loro.VersionVector × Call (Unit {0}))
      → Ends ⊥
          (Replaced w p (version_vector m.0) m.1)
          (AfterPanic (Replaced w p (version_vector m.0) m.1) loro_err_panic)
          (Replaced w p (version_vector m.0) m.1)
          (and_then (mutate_vv p m w) (λ _. pure loro_ok))
  unfolding mutate_vv call set_last_error
  vv_mutated (vv, returns a) = bind (bind (store_any w p _ (goes (goes (refl, refl)))))
  vv_mutated (vv, panics) = bind (bind (store_any w p _ (unwinding (refl, refl))))

  frontiers_mutated :
      (m : loro.Frontiers × Call (Unit {0}))
      → Ends ⊥
          (Replaced w p (frontiers m.0) m.1)
          (AfterPanic (Replaced w p (frontiers m.0) m.1) loro_err_panic)
          (Replaced w p (frontiers m.0) m.1)
          (and_then (mutate_frontiers p m w) (λ _. pure loro_ok))
  unfolding mutate_frontiers call set_last_error
  frontiers_mutated (f, returns a) = bind (bind (store_any w p _ (goes (goes (refl, refl)))))
  frontiers_mutated (f, panics) = bind (bind (store_any w p _ (unwinding (refl, refl))))

-- Merging or extending a live version vector by another, setting a peer's end or last counter in it,
-- and pushing an id onto live frontiers: each call returns, the box holds just what the crate's
-- method made of the object and the ids, also where the method panicked, the status is
-- success unless it panicked, and nothing else of the world changed but, after a panic, the last error.
pub mutations-Replaced :
    {loro : Loro} (w : World loro) (p other q : Ptr) (a b : loro.VersionVector) (f : loro.Frontiers)
    (id : LoroId)
    → Points (as_version_vector loro) w p a
    → Points (as_version_vector loro) w other b
    → Points (as_frontiers loro) w q f
    → Returns
        (Replaced w p (version_vector (loro.vv_merge a b).0) (loro.vv_merge a b).1)
        (loro_version_vector_merge p other w)
      × Returns
          (Replaced w p
            (version_vector (loro.vv_extend_to_include_vv a b).0)
            (loro.vv_extend_to_include_vv a b).1)
          (loro_version_vector_extend_to_include_vv p other w)
      × Returns
          (Replaced w p
            (version_vector (loro.vv_set_end a (to_loro id)).0)
            (loro.vv_set_end a (to_loro id)).1)
          (loro_version_vector_set_end p id w)
      × Returns
          (Replaced w p
            (version_vector (loro.vv_set_last a (to_loro id)).0)
            (loro.vv_set_last a (to_loro id)).1)
          (loro_version_vector_set_last p id w)
      × Returns
          (Replaced w q
            (frontiers (loro.frontiers_push f (to_loro id)).0)
            (loro.frontiers_push f (to_loro id)).1)
          (loro_frontiers_push q id w)
unfolding loro_version_vector_merge loro_version_vector_extend_to_include_vv
    loro_version_vector_set_end loro_version_vector_set_last loro_frontiers_push
mutations-Replaced {loro} w p other q a b f id at_p at_other at_q = (
  guarded _ (
      bind (
        deref_at w (as_version_vector loro) p _ at_p
          (bind (deref_at w (as_version_vector loro) other _ at_other (vv_mutated w p _))))),
  guarded _ (
      bind (
        deref_at w (as_version_vector loro) p _ at_p
          (bind (deref_at w (as_version_vector loro) other _ at_other (vv_mutated w p _))))),
  guarded _ (bind (deref_at w (as_version_vector loro) p _ at_p (vv_mutated w p _))),
  guarded _ (bind (deref_at w (as_version_vector loro) p _ at_p (vv_mutated w p _))),
  guarded _ (bind (deref_at w (as_frontiers loro) q _ at_q (frontiers_mutated w q _))),
)
