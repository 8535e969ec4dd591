-- ===== src/Undo/Laws.antt =====
-- The undo manager: its listeners, and what its operations do to it.
use loro_c.Base.{ℕ, ◌≡◌, ◌⊎◌, refl, inl, inr, ◌++◌}
use loro_c.Base.Int.{ℤ}
use loro_c.World.{Loro, World, Ptr, undo_manager, Handed}
use loro_c.Error.{LoroStatus, loro_ok, loro_err_panic, loro_err_invalid_arg, set_last_error}
use loro_c.Abi.{pure}
use loro_c.Abi.Laws.{Returns, Points, NullOrLive, AfterPanic, Ends, bind, goes, guarded}
use loro_c.Abi.Replaced.{Replaced}
use loro_c.Abi.Steps.{deref, deref_at, store_any}
use loro_c.Subscribe.{Subscriber, held_during}
use loro_c.Subscribe.Ownership.{Taken, hand_over_any, release, release_rule}
use loro_c.Value.Json.Steps.{mutated}
use loro_c.Undo.{
  as_undo_manager, um_mut, changed, install, loro_undo_manager_set_on_push,
  loro_undo_manager_set_on_pop, loro_undo_manager_set_merge_interval,
  loro_undo_manager_set_max_undo_steps, loro_undo_manager_clear, loro_undo_manager_group_end,
  loro_undo_manager_pause, loro_undo_manager_resume,
}
use loro_c.Undo.Library.{History}

module _ {loro : Loro} (crate : History loro) (w : World loro) (p : Ptr) where
  -- The listener was released, with a failure for the status, or it went to the crate `loro`.
  abbrev pub Installed : Subscriber → LoroStatus → World loro → Type 0
  Installed cb status w' =
      ((status ≡ loro_err_invalid_arg) × (w'.trace ≡ w.trace ++ release cb)) ⊎ Taken w cb w'

  put_any :
      (cb : Subscriber) (m : loro.UndoManager × Handed (Unit {0}))
      → Ends ⊥
          (Installed cb)
          (AfterPanic (Installed cb) loro_err_panic)
          (λ _ w'.
            Ends ⊥
              (Installed cb)
              (AfterPanic (Installed cb) loro_err_panic)
              (Installed cb)
              (pure loro_ok w'))
          (install p cb m w)
  unfolding install set_last_error
  put_any cb (m, h) =
      bind (store_any w p _ (hand_over_any _ cb h (λ _. inr (_, refl)) λ _ _. goes (inr (_, refl))))

  -- Installing a listener for pushes or for pops, on a handle that is null or live: the call
  -- returns, also where the crate panics, and the C struct is never left to the caller. Either the
  -- call failed for its arguments and the destructor of `user_data`, if there is one, has run
  -- exactly once, or the crate `loro` was handed the listener: then it has it still and the destructor
  -- has not run, or it has dropped it and the destructor has run exactly once.
  pub listeners-Installed :
      (cb : Subscriber)
      → NullOrLive (as_undo_manager loro) w p
      → Returns (Installed cb) (loro_undo_manager_set_on_push crate p cb w)
        × Returns (Installed cb) (loro_undo_manager_set_on_pop crate p cb w)
  unfolding loro_undo_manager_set_on_push loro_undo_manager_set_on_pop held_during um_mut
      set_last_error
  listeners-Installed cb live = (
    guarded _ (
        bind (
          release_rule cb (
            deref _ (as_undo_manager loro) p _ live (λ _. inl (refl, refl))
              λ m l. bind (put_any cb (crate.undo_set_on_push m))))),
    guarded _ (
        bind (
          release_rule cb (
            deref _ (as_undo_manager loro) p _ live (λ _. inl (refl, refl))
              λ m l. bind (put_any cb (crate.undo_set_on_pop m))))),
  )

  -- The settings of a live manager (merge interval, number of steps) and the operations that answer
  -- nothing (clear, end of a group, pause, resume): each returns, the box holds just what the crate
  -- made of the manager, also where it panicked, the status is success unless it panicked, and
  -- nothing else of the world changed but, after a panic, the last error.
  pub settings-Replaced :
      (m : loro.UndoManager) (interval : ℤ) (steps : ℕ)
      → Points (as_undo_manager loro) w p m
      → Returns
          (Replaced w p
            (undo_manager (crate.undo_set_merge_interval m interval).0)
            (crate.undo_set_merge_interval m interval).1)
          (loro_undo_manager_set_merge_interval crate p interval w)
        × Returns
            (Replaced w p
              (undo_manager (crate.undo_set_max_undo_steps m steps).0)
              (crate.undo_set_max_undo_steps m steps).1)
            (loro_undo_manager_set_max_undo_steps crate p steps w)
        × Returns
            (Replaced w p (undo_manager (crate.undo_clear m).0) (crate.undo_clear m).1)
            (loro_undo_manager_clear crate p w)
        × Returns
            (Replaced w p (undo_manager (crate.undo_group_end m).0) (crate.undo_group_end m).1)
            (loro_undo_manager_group_end crate p w)
        × Returns
            (Replaced w p (undo_manager (crate.undo_pause m).0) (crate.undo_pause m).1)
            (loro_undo_manager_pause crate p w)
        × Returns
            (Replaced w p (undo_manager (crate.undo_resume m).0) (crate.undo_resume m).1)
            (loro_undo_manager_resume crate p w)
  unfolding loro_undo_manager_set_merge_interval loro_undo_manager_set_max_undo_steps
      loro_undo_manager_clear loro_undo_manager_group_end loro_undo_manager_pause
      loro_undo_manager_resume changed um_mut
  settings-Replaced m interval steps at_p = (
    guarded _ (search (bind, deref_at, mutated) depth 8),
    guarded _ (search (bind, deref_at, mutated) depth 8),
    guarded _ (search (bind, deref_at, mutated) depth 8),
    guarded _ (search (bind, deref_at, mutated) depth 8),
    guarded _ (search (bind, deref_at, mutated) depth 8),
    guarded _ (search (bind, deref_at, mutated) depth 8),
  )
