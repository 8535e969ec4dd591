-- ===== src/Version/Vector/Laws.antt =====
-- The queries of a version vector: what they answer, and how they report failure.
use loro_c.Base.{ℕ, ◌≡◌, refl, ◌≢◌, inr, Option, none, some}
use Prim.Native.Nat.{Ordering}
use loro_c.Base.Int.{ℤ}
use loro_c.World.{Loro, World, Ptr, null_ptr, Call, returns, panics, update, integer_cell}
use loro_c.Error.{LoroStatus, loro_ok, loro_err_not_found, loro_err_panic, set_last_error}
use loro_c.Abi.Laws.{Returns, Points, NullOrLive, AfterPanic, Ends, bind, guarded, goes, unwinding}
use loro_c.Abi.{and_then, call}
use loro_c.Abi.Steps.{deref, deref_at, out_any, out_at, call_any, fail_any, write_any}
use loro_c.Abi.Contract.{Writes, failed, writes}
use loro_c.Abi.Memory.{update-same}
use loro_c.Value.Args.{write_bytes_any}
use loro_c.Version.Ids.{as_version_vector}
use loro_c.Version.Vector.{
  loro_version_vector_encode, loro_version_vector_get_last, loro_version_vector_compare,
  write_counter, write_ordering, ordering_code,
}

module _ {loro : Loro} {U : World loro → Type 0} (w : World loro) (out : Ptr)
    (ne : out ≢ null_ptr) where
  counter_written : (o : Option ℤ) → Ends ⊥ (Writes w out) U (Writes w out) (write_counter o out w)
  unfolding write_counter
  counter_written none = fail_any w _ _ (inr (failed w _))
  counter_written (some c) =
      bind (write_any w out _ ne (goes (writes ne (update-same w.c_cell out _))))

  ordering_written :
      (o : Option Ordering) → Ends ⊥ (Writes w out) U (Writes w out) (write_ordering o out w)
  unfolding write_ordering
  ordering_written none = fail_any w _ _ (inr (failed w _))
  ordering_written (some c) =
      bind (write_any w out _ ne (goes (writes ne (update-same w.c_cell out _))))

module _ {loro : Loro} (w : World loro) (p out : Ptr)
    (live : NullOrLive (as_version_vector loro) w p) where
  encode-Contract : Returns (Writes w out) (loro_version_vector_encode p out w)
  unfolding loro_version_vector_encode
  encode-Contract = guarded _ (
      bind (
        deref w (as_version_vector loro) p _ live (λ _. inr (failed w _))
          λ vv _. bind (
            out_any w out _ (λ _. inr (failed w _))
              λ ne. bind (
                call_any w _ (inr (failed w _))
                  λ b. bind (write_bytes_any w out _ ne λ _ _ e. goes (writes ne e))))))

  get_last-Contract :
      (peer : ℕ) → Returns (Writes w out) (loro_version_vector_get_last p peer out w)
  unfolding loro_version_vector_get_last
  get_last-Contract peer = guarded _ (
      bind (
        deref w (as_version_vector loro) p _ live (λ _. inr (failed w _))
          λ vv _. bind (
            out_any w out _ (λ _. inr (failed w _))
              λ ne. bind (call_any w _ (inr (failed w _)) λ o. counter_written w out ne o))))

  module _ (other : Ptr) (live' : NullOrLive (as_version_vector loro) w other) where
    compare-Contract : Returns (Writes w out) (loro_version_vector_compare p other out w)
    unfolding loro_version_vector_compare
    compare-Contract = guarded _ (
        bind (
          deref w (as_version_vector loro) p _ live (λ _. inr (failed w _))
            λ a _. bind (
              deref w (as_version_vector loro) other _ live' (λ _. inr (failed w _))
                λ b _. bind (
                  out_any w out _ (λ _. inr (failed w _))
                    λ ne.
                      bind (call_any w _ (inr (failed w _)) λ o. ordering_written w out ne o)))))

    -- The queries of a version vector that answer with a status (encode, last counter of a peer,
    -- comparison), on handles that are null or live and whatever the crate `loro` does, a panic
    -- included, and whether or not `out` is null: each returns, with no undefined behaviour. It has
    -- succeeded and written to `*out`, which is not null, or it has recorded a message and left
    -- every box and every variable of the caller as it was.
    pub queries-Contract :
        (peer : ℕ)
        → Returns (Writes w out) (loro_version_vector_encode p out w)
          × Returns (Writes w out) (loro_version_vector_get_last p peer out w)
          × Returns (Writes w out) (loro_version_vector_compare p other out w)
    queries-Contract peer = (encode-Contract, get_last-Contract peer, compare-Contract)

module _ {loro : Loro} (w : World loro) (out : Ptr) where
  -- What the comparison tells the caller for each answer of the crate.
  abbrev pub Tells : Call (Option Ordering) → LoroStatus → World loro → Type 0
  Tells (returns (some o)) status w' =
      (status ≡ loro_ok)
      × (w' ≡ record w { c_cell = update w.c_cell out (some (integer_cell (ordering_code o))) })
  Tells (returns none) status w' = (status ≡ loro_err_not_found) × (w'.c_cell ≡ w.c_cell)
  Tells panics status w' = (status ≡ loro_err_panic) × (w'.c_cell ≡ w.c_cell)

  told :
      (ne : out ≢ null_ptr) (c : Call (Option Ordering))
      → Ends ⊥
          (Tells c)
          (AfterPanic (Tells c) loro_err_panic)
          (Tells c)
          (and_then (call c w) (λ o. write_ordering o out))
  unfolding call write_ordering set_last_error
  told ne (returns (some o)) = bind (goes (bind (write_any w out _ ne (goes (refl, refl)))))
  told ne (returns none) = bind (goes (fail_any w _ _ (refl, refl)))
  told ne panics = bind (unwinding (refl, refl))

-- A comparison of two live version vectors writes -1, 0 or 1 to `out` exactly when the crate `loro`
-- orders them; concurrent vectors are told apart from equal ones by the status "not found", a panic
-- by its own status, and in both cases `out` is left alone.
pub compare-Tells :
    {loro : Loro} (w : World loro) (p other out : Ptr) (a b : loro.VersionVector)
    → Points (as_version_vector loro) w p a
    → Points (as_version_vector loro) w other b
    → out ≢ null_ptr
    → Returns (Tells w out (loro.vv_partial_cmp a b)) (loro_version_vector_compare p other out w)
unfolding loro_version_vector_compare
compare-Tells {loro} w p other out a b at_p at_other out_ne = guarded _ (
    bind (
      deref_at w (as_version_vector loro) p _ at_p (
        bind (
          deref_at w (as_version_vector loro) other _ at_other
            (bind (out_at w out _ out_ne (told w out out_ne (loro.vv_partial_cmp a b))))))))
