-- ===== src/Abi/Contract.antt =====
-- The contract of a call that answers with a status: `*out` is written only on success, and a
-- failure is recorded.
use loro_c.Base.{ℕ, ◌≡◌, ◌≢◌, refl, ◌⊎◌, inl, inr, List, some}
use loro_c.World.{Loro, World, Ptr, null_ptr, Cell}
use loro_c.Error.{LoroStatus, loro_ok, set_last_error}

module _ {loro : Loro} where
  -- A message was recorded, and neither a box nor a variable of the caller changed.
  pub record Failed (w w' : World loro) : Type 0 where
    pub message : List ℕ
    pub recorded : w'.last_error ≡ some message
    pub same_heap : w'.heap ≡ w.heap
    pub same_cells : w'.c_cell ≡ w.c_cell

  abbrev pub Contract : World loro → LoroStatus → World loro → Type 0
  Contract w status w' = (status ≡ loro_ok) ⊎ Failed w w'

  -- The same for a call that has something to write: success is also that it is in `*out`, which is
  -- then no null pointer.
  abbrev pub Writes : World loro → Ptr → LoroStatus → World loro → Type 0
  Writes w out status w' =
      ((status ≡ loro_ok) × (out ≢ null_ptr) × (c : Cell) × (w'.c_cell out ≡ some c)) ⊎ Failed w w'

  pub writes :
      {w w' : World loro} {out : Ptr} {c : Cell}
      → out ≢ null_ptr
      → w'.c_cell out ≡ some c
      → Writes w out loro_ok w'
  writes ne e = inl (refl, ne, _, e)

  pub unwritten :
      {w w' : World loro} {out : Ptr} {status : LoroStatus} → Failed w w' → Writes w out status w'
  unwritten f = inr f

  pub failed : (w : World loro) (msg : List ℕ) → Failed w (set_last_error msg w)
  unfolding set_last_error
  failed w msg = record { message = _; recorded = refl; same_heap = refl; same_cells = refl }
