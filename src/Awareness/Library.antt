-- ===== src/Awareness/Library.antt =====
-- loro::awareness, outside the repository: `Awareness` and `EphemeralStore`. What a method reads of
-- the system's clock counts as part of the object; one that changes the object gives it back.
use loro_c.Base.{ℕ, Option, List, Result}
use loro_c.Base.Int.{ℤ}
use loro_c.World.{Loro, LoroValue, ByteVec, Call, Handed, PeerInfo}

pub record Presence (loro : Loro) : Type 0 where
  pub awareness_new : ℕ → ℤ → Call loro.Awareness
  pub awareness_peer : loro.Awareness → Call ℕ
  pub awareness_set_local_state :
      loro.Awareness → LoroValue loro.ContainerId → loro.Awareness × Call (Unit {0})
  pub awareness_get_local_state : loro.Awareness → Call (Option (LoroValue loro.ContainerId))
  pub awareness_encode_all : loro.Awareness → Call ByteVec
  pub awareness_encode : loro.Awareness → List ℕ → Call ByteVec
  -- The peers that were updated and those that were added.
  pub awareness_apply : loro.Awareness → List ℕ → loro.Awareness × Call (List ℕ × List ℕ)
  pub awareness_remove_outdated : loro.Awareness → loro.Awareness × Call (List ℕ)
  -- The map of peers, in the order of its iterator.
  pub awareness_get_all_states : loro.Awareness → Call (List (ℕ × PeerInfo loro))
  pub store_new : ℤ → Call loro.EphemeralStore
  pub store_set :
      loro.EphemeralStore
      → List ℕ
      → LoroValue loro.ContainerId
      → loro.EphemeralStore × Call (Unit {0})
  pub store_get : loro.EphemeralStore → List ℕ → Call (Option (LoroValue loro.ContainerId))
  pub store_delete : loro.EphemeralStore → List ℕ → loro.EphemeralStore × Call (Unit {0})
  pub store_encode : loro.EphemeralStore → List ℕ → Call ByteVec
  pub store_encode_all : loro.EphemeralStore → Call ByteVec
  -- An error is its text.
  pub store_apply :
      loro.EphemeralStore → List ℕ → loro.EphemeralStore × Call (Result (Unit {0}) (List ℕ))
  pub store_remove_outdated : loro.EphemeralStore → loro.EphemeralStore × Call (Unit {0})
  pub store_keys : loro.EphemeralStore → Call (List (List ℕ))
  pub store_get_all_states : loro.EphemeralStore → Call (List (List ℕ × LoroValue loro.ContainerId))
  pub store_subscribe : loro.EphemeralStore → Handed loro.Subscription
  pub store_subscribe_local_updates : loro.EphemeralStore → Handed loro.Subscription
