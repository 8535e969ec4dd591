-- ===== src/Awareness/Subscribers.antt =====
-- Who owns the callback of a subscription to an ephemeral store.
use loro_c.Base.{refl, inl, inr}
use loro_c.World.{Loro, World, Ptr}
use loro_c.Error.{set_last_error}
use loro_c.Abi.Laws.{Returns, NullOrLive, bind, guarded}
use loro_c.Abi.Steps.{deref, alloc_any}
use loro_c.Subscribe.{Subscriber, held_during}
use loro_c.Subscribe.Ownership.{Consumed, LeftOrTaken, release_rule, hand_over_any}
use loro_c.Awareness.Library.{Presence}
use loro_c.Awareness.Ephemeral.{
  as_store, loro_ephemeral_store_subscribe, loro_ephemeral_store_subscribe_local_updates,
}

-- Both subscriptions to an ephemeral store, on a handle that is null or live, return, also where the
-- crate panics. The subscriber to events, which has a destructor, is never left to the caller: it
-- was released exactly once, with a null result, or the crate `loro` was handed it. The callback for
-- local updates, whose C struct has none, is left alone with a null result, its `free_user_data` not
-- called, or the crate `loro` was handed it. Where the crate was handed it, the crate has it still, or
-- has dropped it, with its destructor, if there is one, run exactly once.
pub subscriptions-Owned :
    {loro : Loro} (crate : Presence loro) (w : World loro) (p : Ptr) (cb : Subscriber)
    → NullOrLive (as_store loro) w p
    → Returns (Consumed w cb) (loro_ephemeral_store_subscribe crate p cb w)
      × Returns (LeftOrTaken w cb) (loro_ephemeral_store_subscribe_local_updates crate p cb w)
unfolding loro_ephemeral_store_subscribe loro_ephemeral_store_subscribe_local_updates held_during
    set_last_error
subscriptions-Owned {loro} crate w p cb live = (
  guarded _ (
      bind (
        release_rule cb (
          deref _ (as_store loro) p _ live (λ _. inl (refl, refl))
            λ s l.
              bind (
                hand_over_any _ cb _ (λ _. inr (_, refl))
                  λ sub _. alloc_any _ _ (inr (_, refl)))))),
  guarded _ (
      bind (
        deref _ (as_store loro) p _ live (λ _. inl (refl, refl))
          λ s l.
            bind
              (hand_over_any _ cb _ (λ _. inr (_, refl)) λ sub _. alloc_any _ _ (inr (_, refl))))),
)
