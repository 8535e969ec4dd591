-- ===== src/ValueTyped/Compound/Contract.antt =====
-- The status functions of typed values keep the error contract.
use loro_c.Base.{ℕ, ◌≡◌, ◌≢◌, refl, inl, inr, List, Result, ok, err}
use loro_c.World.{Loro, World, Ptr, null_ptr, Values, Entries, ByteVec}
use loro_c.World.{LoroValue}
use loro_c.Error.{set_last_error}
use loro_c.Abi.Laws.{Returns, NullOrLive, Ends, bind, guarded, goes}
use loro_c.Abi.Steps.{deref, out_any, fail_any, store_any}
use loro_c.Abi.Contract.{Contract, Writes, failed, writes}
use loro_c.Value.Args.{StringArg, string_then, write_bytes_any}
use loro_c.ValueTyped.Items.{as_value}
use loro_c.ValueTyped.Compound.{
  loro_value_list_push, loro_value_map_insert, loro_value_map_keys, list_of, map_of, write_keys,
  not_a_list, not_a_map,
}

module _ {loro : Loro} {R V : Type 0} {E : R → World loro → Type 0} {U : World loro → Type 0}
    (w : World loro) where
  pub list_any :
      {Q : Values loro.ContainerId → World loro → Type 0} (v : LoroValue loro.ContainerId) (r : R)
      → E r (set_last_error not_a_list w)
      → ((xs : Values loro.ContainerId) → v ≡ LoroValue.list xs → Q xs w)
      → Ends V E U Q (list_of v r w)
  unfolding list_of
  list_any (LoroValue.list xs) r e q = goes (q xs refl)
  list_any _ r e q = fail_any w _ _ e

  pub map_any :
      {Q : Entries loro.ContainerId → World loro → Type 0} (v : LoroValue loro.ContainerId) (r : R)
      → E r (set_last_error not_a_map w)
      → ((m : Entries loro.ContainerId) → v ≡ LoroValue.map m → Q m w)
      → Ends V E U Q (map_of v r w)
  unfolding map_of
  map_any (LoroValue.map m) r e q = goes (q m refl)
  map_any _ r e q = fail_any w _ _ e

keys_written :
    {loro : Loro} {U : World loro → Type 0} (w : World loro) (out : Ptr) (ne : out ≢ null_ptr)
    (ks : List (List ℕ)) (r : Result ByteVec (List ℕ))
    → loro.json_key_bytes ks ≡ r
    → Ends ⊥ (Writes w out) U (Writes w out) (write_keys ks out w)
unfolding write_keys
keys_written w out ne ks (ok b) e =
    rw (e, write_keys) (bind (write_bytes_any w out b ne λ _ _ x. goes (writes ne x)))
keys_written w out ne ks (err m) e = rw (e, write_keys) (fail_any w _ _ (inr (failed w _)))

module _ {loro : Loro} (w : World loro) (p : Ptr) (live : NullOrLive (as_value loro) w p) where
  pub list_push-Contract :
      (child : Ptr)
      → NullOrLive (as_value loro) w child
      → Returns (Contract w) (loro_value_list_push p child w)
  unfolding loro_value_list_push
  list_push-Contract child live' = guarded _ (
      bind (
        deref w (as_value loro) p _ live (λ _. inr (failed w _))
          λ v _. bind (
            deref w (as_value loro) child _ live' (λ _. inr (failed w _))
              λ c _. bind (
                list_any w v _ (inr (failed w _))
                  λ xs _. bind (store_any w p _ (goes (inl refl)))))))

  pub map_insert-Contract :
      (key : Ptr) (key_len : ℕ) (child : Ptr)
      → StringArg w key key_len
      → NullOrLive (as_value loro) w child
      → Returns (Contract w) (loro_value_map_insert p key key_len child w)
  unfolding loro_value_map_insert
  map_insert-Contract key key_len child arg live' = guarded _ (
      bind (
        deref w (as_value loro) p _ live (λ _. inr (failed w _))
          λ v _.
            string_then w key key_len _ _ arg (λ _. inr (failed w _))
              λ k _. bind (
                deref w (as_value loro) child _ live' (λ _. inr (failed w _))
                  λ c _. bind (
                    map_any w v _ (inr (failed w _))
                      λ m _. bind (store_any w p _ (goes (inl refl)))))))

  pub map_keys-Contract : (out : Ptr) → Returns (Writes w out) (loro_value_map_keys p out w)
  unfolding loro_value_map_keys
  map_keys-Contract out = guarded _ (
      bind (
        deref w (as_value loro) p _ live (λ _. inr (failed w _))
          λ v _. bind (
            out_any w out _ (λ _. inr (failed w _))
              λ ne. bind (map_any w v _ (inr (failed w _)) λ m _. keys_written w out ne _ _ refl))))

-- Pushing to a list, inserting into a map and reading a map's keys, on handles that are null or live
-- and a key argument as the C API asks for it, and whether or not `out` is null: each call returns,
-- with no undefined behaviour. It has succeeded (the keys are then written to `*out`, which is not
-- null), or it has recorded a message and left every box and every variable of the caller as it was.
pub compounds-Contract :
    {loro : Loro} (w : World loro) (p child key out : Ptr) (key_len : ℕ)
    → NullOrLive (as_value loro) w p
    → NullOrLive (as_value loro) w child
    → StringArg w key key_len
    → Returns (Contract w) (loro_value_list_push p child w)
      × Returns (Contract w) (loro_value_map_insert p key key_len child w)
      × Returns (Writes w out) (loro_value_map_keys p out w)
compounds-Contract w p child key out key_len live live' arg = (
  list_push-Contract w p live child live',
  map_insert-Contract w p live key key_len child arg live',
  map_keys-Contract w p live out,
)
