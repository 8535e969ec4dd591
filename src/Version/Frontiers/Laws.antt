-- ===== src/Version/Frontiers/Laws.antt =====
-- Frontiers as their handle shows them: the ids by index, and the ids as they went in.
use loro_c.Base.{ℕ, ◌≡◌, refl, ◌≢◌, Option, none, some, get_elem?}
use loro_c.World.{Loro, World, Ptr, null_ptr, OpId, LoroId, update, id_cell}
use loro_c.Error.{LoroStatus, loro_ok, loro_err_not_found, set_last_error}
use loro_c.Abi.Laws.{Returns, Points, Ends, bind, guarded, goes}
use loro_c.Abi.Steps.{deref_at, out_at, fail_any, write_any}
use loro_c.Version.Ids.{as_frontiers, to_loro, from_loro}
use loro_c.Version.Frontiers.{loro_frontiers_get, write_id}

module _ {loro : Loro} (w : World loro) (out : Ptr) where
  -- The id is written to `out` and nothing else changes; or there is none, which is the status "not
  -- found", and neither a variable of the caller nor a box changes.
  abbrev pub ReadsId : Option OpId → LoroStatus → World loro → Type 0
  ReadsId none status w' =
      (status ≡ loro_err_not_found) × (w'.c_cell ≡ w.c_cell) × (w'.heap ≡ w.heap)
  ReadsId (some id) status w' =
      (status ≡ loro_ok)
      × (c : LoroId) × (to_loro c ≡ id)
      × (w' ≡ record w { c_cell = update w.c_cell out (some (id_cell c)) })

  reads_id :
      {U : World loro → Type 0} (ne : out ≢ null_ptr) (o : Option OpId)
      → Ends ⊥ (ReadsId o) U (ReadsId o) (write_id o out w)
  unfolding write_id set_last_error to_loro from_loro
  reads_id ne none = fail_any w _ _ (refl, refl, refl)
  reads_id ne (some id) = bind (write_any w out _ ne (goes (refl, _, refl, refl)))

-- On live frontiers and a variable to write to, `loro_frontiers_get` enumerates the ids of the
-- crate's iterator by index: in range it writes the C mirror of that id and nothing else changes, and
-- out of range it says "not found" and writes nothing.
pub frontiers_get-ReadsId :
    {loro : Loro} (w : World loro) (p out : Ptr) (f : loro.Frontiers) (index : ℕ)
    → Points (as_frontiers loro) w p f
    → out ≢ null_ptr
    → Returns
        (ReadsId w out (get_elem? (loro.frontiers_ids f) index))
        (loro_frontiers_get p index out w)
unfolding loro_frontiers_get
frontiers_get-ReadsId {loro} w p out f index at_p out_ne = guarded _ (
    bind (
      deref_at w (as_frontiers loro) p _ at_p (
        bind (
          out_at w out _ out_ne (reads_id w out out_ne (get_elem? (loro.frontiers_ids f) index))))))
