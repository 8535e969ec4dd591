-- ===== src/ValueTyped/Access/Contract.antt =====
-- The accessors that answer with a status keep the error contract, and each answers for its kind.
use loro_c.Base.{◌≢◌, inr}
use loro_c.World.{Loro, World, Ptr, null_ptr, LoroValue}
use loro_c.World.{LoroValue}
use loro_c.Abi.Laws.{Returns, NullOrLive, Ends, bind, guarded, goes}
use loro_c.Abi.Steps.{deref, out_any, fail_any}
use loro_c.Abi.Contract.{Writes, failed, writes}
use loro_c.Value.Args.{write_bytes_any}
use loro_c.ValueTyped.Items.{as_value}
use loro_c.ValueTyped.Access.{
  loro_value_as_string, loro_value_as_binary, loro_value_as_container, write_string, write_binary,
  write_container,
}

module _ {loro : Loro} {U : World loro → Type 0} (w : World loro) (out : Ptr)
    (ne : out ≢ null_ptr) where
  string_written :
      (v : LoroValue loro.ContainerId)
      → Ends ⊥ (Writes w out) U (Writes w out) (write_string v out w)
  unfolding write_string
  string_written (LoroValue.string s) =
      bind (write_bytes_any w out _ ne λ _ _ e. goes (writes ne e))
  string_written _ = fail_any w _ _ (inr (failed w _))

  binary_written :
      (v : LoroValue loro.ContainerId)
      → Ends ⊥ (Writes w out) U (Writes w out) (write_binary v out w)
  unfolding write_binary
  binary_written (LoroValue.binary b) =
      bind (write_bytes_any w out _ ne λ _ _ e. goes (writes ne e))
  binary_written _ = fail_any w _ _ (inr (failed w _))

  container_written :
      (v : LoroValue loro.ContainerId)
      → Ends ⊥ (Writes w out) U (Writes w out) (write_container v out w)
  unfolding write_container
  container_written (LoroValue.container c) =
      bind (write_bytes_any w out _ ne λ _ _ e. goes (writes ne e))
  container_written _ = fail_any w _ _ (inr (failed w _))

module _ {loro : Loro} (w : World loro) (p out : Ptr) (live : NullOrLive (as_value loro) w p) where
  pub as_string-Contract : Returns (Writes w out) (loro_value_as_string p out w)
  unfolding loro_value_as_string
  as_string-Contract = guarded _ (
      bind (
        deref w (as_value loro) p _ live (λ _. inr (failed w _))
          λ v _. bind (out_any w out _ (λ _. inr (failed w _)) λ ne. string_written w out ne v)))

  pub as_binary-Contract : Returns (Writes w out) (loro_value_as_binary p out w)
  unfolding loro_value_as_binary
  as_binary-Contract = guarded _ (
      bind (
        deref w (as_value loro) p _ live (λ _. inr (failed w _))
          λ v _. bind (out_any w out _ (λ _. inr (failed w _)) λ ne. binary_written w out ne v)))

  pub as_container-Contract : Returns (Writes w out) (loro_value_as_container p out w)
  unfolding loro_value_as_container
  as_container-Contract = guarded _ (
      bind (
        deref w (as_value loro) p _ live (λ _. inr (failed w _))
          λ v _. bind (out_any w out _ (λ _. inr (failed w _)) λ ne. container_written w out ne v)))

  -- The accessors that answer with a status (string, binary, container), on a handle that is null or
  -- live, and whether or not `out` is null: each returns, with no undefined behaviour. It has
  -- succeeded and written to `*out`, which is not null, or it has recorded a message and left every
  -- box and every variable of the caller as it was.
  pub accessors-Contract :
      Returns (Writes w out) (loro_value_as_string p out w)
      × Returns (Writes w out) (loro_value_as_binary p out w)
      × Returns (Writes w out) (loro_value_as_container p out w)
  accessors-Contract = (as_string-Contract, as_binary-Contract, as_container-Contract)
