-- ===== src/Abi/WellFormed.antt =====
-- What holds of the library's state between calls, and that each way to change the state keeps it.
use loro_c.Base.{ℕ, suc, ◌≤◌, ◌≡◌, ◌≢◌, ◌∙◌, false, Option, none, some, List, arith}
use loro_c.World.{Loro, World, Ptr, null_ptr, Obj, update}
use loro_c.Error.{has_nul}
use loro_c.Abi.Memory.{update-other}

-- A last error is a C string.
abbrev pub Clean : Option (List ℕ) → Type 0
Clean none = Unit
Clean (some message) = has_nul message ≡ false

-- The addresses that were never given out are free, the next one is not null, and the last error is
-- a C string.
pub record WellFormed {loro : Loro} (w : World loro) : Type 0 where
  pub free_from : (q : Ptr) → w.next ≤ q → w.heap q ≡ none
  pub ne_null : w.next ≢ null_ptr
  pub clean : Clean w.last_error

module _ {loro : Loro} (w : World loro) where
  pub wf_alloc :
      (o : Obj loro)
      → WellFormed w
      → WellFormed (record w { heap = update w.heap w.next (some o); next = suc w.next })
  wf_alloc o h = record {
    free_from =
        λ q le. update-other w.heap w.next q (some o) (above q le) ∙ h.free_from q (omega arith);
    ne_null = λ e. absurd (omega arith);
    clean = h.clean;
  }
    where
      above : (q : Ptr) → suc w.next ≤ q → q ≢ w.next
      above q le e = absurd (omega arith)
