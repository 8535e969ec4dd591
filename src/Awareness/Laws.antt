-- ===== src/Awareness/Laws.antt =====
-- The queries of an `Awareness` and of an `EphemeralStore`: how they answer and how they fail.
use loro_c.Base.{
  ℕ, ◌≡◌, ◌≢◌, ◌≤◌, length, leb, ◌==◌, true, Bool-cases, inl, inr, Option, none, some, List, arith,
}
use loro_c.World.{Loro, World, Ptr, null_ptr, LoroValue}
use loro_c.Abi.Laws.{Returns, NullOrLive, Ends, guarded, goes}
use loro_c.Abi.Steps.{fail_any}
use loro_c.Abi.Contract.{Writes, failed}
use loro_c.Value.Args.{StringArg}
use loro_c.Value.Json.Steps.{contract_rules, value_json_any}
use loro_c.Awareness.{
  as_awareness, write_local_state, read_peers, loro_awareness_get_local_state,
  loro_awareness_encode_all, loro_awareness_encode, loro_awareness_get_all_states,
}
use loro_c.Awareness.Library.{Presence}
use loro_c.Awareness.Typed.{loro_awareness_peer_ids}
use loro_c.Awareness.Ephemeral.{
  as_store, write_found, loro_ephemeral_store_get, loro_ephemeral_store_encode,
  loro_ephemeral_store_encode_all, loro_ephemeral_store_keys, loro_ephemeral_store_get_all_states,
}

-- The caller has the `count` peer ids that it announces.
abbrev pub PeersArg : Option (List ℕ) → ℕ → Type 0
PeersArg none count = Unit
PeersArg (some peers) count = count ≤ length peers

module _ {loro : Loro} (w : World loro) where
  local_any :
      {U : World loro → Type 0} (s : Option (LoroValue loro.ContainerId)) (out : Ptr)
      → out ≢ null_ptr
      → Ends ⊥ (Writes w out) U (Writes w out) (write_local_state s out w)
  unfolding write_local_state
  local_any none out ne = fail_any w _ _ (inr (failed w _))
  local_any (some v) out ne = value_json_any w out v ne

  found_any :
      {U : World loro → Type 0} (s : Option (LoroValue loro.ContainerId)) (out : Ptr)
      → out ≢ null_ptr
      → Ends ⊥ (Writes w out) U (Writes w out) (write_found s out w)
  unfolding write_found
  found_any none out ne = fail_any w _ _ (inr (failed w _))
  found_any (some v) out ne = value_json_any w out v ne

  peers_any :
      {U : World loro → Type 0} {Q : List ℕ → World loro → Type 0} (out : Ptr)
      (peers : Option (List ℕ)) (count : ℕ)
      → PeersArg peers count
      → ((s : List ℕ) → Q s w)
      → Ends ⊥ (Writes w out) U Q (read_peers peers count w)
  unfolding read_peers
  peers_any out none count h q = elim (Bool-cases (count == 0)) [
    | inl e ↦ rw e (goes (q _))
    | inr e ↦ rw e (fail_any w _ _ (inr (failed w _)))
  ]
  peers_any out (some peers) count h q = rw (fits count (length peers) h) (goes (q _))
    where
      fits : (a b : ℕ) → a ≤ b → leb a b ≡ true
      fits a b h = ground arith

  module _ (crate : Presence loro) (p out : Ptr) where
    -- Every query of an awareness that answers with a status (its local state, its encodings, all
    -- its states as JSON, its peer ids), on a handle that is null or live and whatever the crates
    -- `loro` and `serde_json` do, a panic included, and whether or not `out` is null: each returns,
    -- with no undefined behaviour. It has succeeded and written to `*out`, which is not null, or it
    -- has recorded a message and left every box and every variable of the caller as it was.
    pub awareness-Contract :
        (peers : Option (List ℕ)) (count : ℕ)
        → NullOrLive (as_awareness loro) w p
        → PeersArg peers count
        → Returns (Writes w out) (loro_awareness_get_local_state crate p out w)
          × Returns (Writes w out) (loro_awareness_encode_all crate p out w)
          × Returns (Writes w out) (loro_awareness_encode crate p peers count out w)
          × Returns (Writes w out) (loro_awareness_get_all_states crate p out w)
          × Returns (Writes w out) (loro_awareness_peer_ids crate p out w)
    unfolding loro_awareness_get_local_state loro_awareness_encode_all loro_awareness_encode
        loro_awareness_get_all_states loro_awareness_peer_ids
    awareness-Contract peers count live arg = (
      guarded _ (search (contract_rules, local_any) depth 16),
      guarded _ (search contract_rules depth 16),
      guarded _ (search (contract_rules, peers_any) depth 16),
      guarded _ (search contract_rules depth 16),
      guarded _ (search contract_rules depth 16),
    )

    -- The same for an ephemeral store (the value of a key as JSON, its encoding, the encoding of
    -- the whole store, its keys and its states as JSON), with a key as the C API asks for it.
    pub store-Contract :
        (key : Ptr) (key_len : ℕ)
        → NullOrLive (as_store loro) w p
        → StringArg w key key_len
        → Returns (Writes w out) (loro_ephemeral_store_get crate p key key_len out w)
          × Returns (Writes w out) (loro_ephemeral_store_encode crate p key key_len out w)
          × Returns (Writes w out) (loro_ephemeral_store_encode_all crate p out w)
          × Returns (Writes w out) (loro_ephemeral_store_keys crate p out w)
          × Returns (Writes w out) (loro_ephemeral_store_get_all_states crate p out w)
    unfolding loro_ephemeral_store_get loro_ephemeral_store_encode loro_ephemeral_store_encode_all
        loro_ephemeral_store_keys loro_ephemeral_store_get_all_states
    store-Contract key key_len live arg = (
      guarded _ (search (contract_rules, found_any) depth 16),
      guarded _ (search contract_rules depth 16),
      guarded _ (search contract_rules depth 16),
      guarded _ (search contract_rules depth 16),
      guarded _ (search contract_rules depth 16),
    )
