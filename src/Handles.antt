-- ===== src/Handles.antt =====
-- The handles of the library as a caller owns them: each has one destructor, `loro_value_free`,
-- `loro_import_status_free`, `loro_version_vector_free`, `loro_frontiers_free` and
-- `loro_subscription_free`.
use loro_c.Base.{◌≡◌, refl, ◌≢◌, Option, none, sym, subst}
use loro_c.World.{Loro, World, Ptr, null_ptr, Obj, LoroValue, LoroImportStatus, update}
use loro_c.Abi.{
  Entry, ffi_guard, finish, free_box, returned, undefined_behaviour, undefined, load, and_then,
}
use loro_c.Abi.Laws.{Returns, Points, ensures}
use loro_c.Abi.Memory.{update-same}
use loro_c.Abi.Steps.{load-live, not_null}
use loro_c.ValueTyped.Items.{as_value}
use loro_c.ValueTyped.Construct.{loro_value_free}
use loro_c.ImportStatus.{as_import_status, loro_import_status_free}
use loro_c.Version.Ids.{as_version_vector, as_frontiers}
use loro_c.Version.Vector.{loro_version_vector_free}
use loro_c.Version.Frontiers.{loro_frontiers_free}
use loro_c.Subscribe.{as_subscription, loro_subscription_free}

module _ {loro : Loro} where
  -- After the call the box at `p` is gone and nothing else changed; a second call is undefined.
  abbrev pub FreesOnce : World loro → Ptr → (Ptr → Entry loro (Unit {0})) → Type 0
  FreesOnce w p free =
      (free null_ptr w ≡ returned tt w)
      × Returns
          (λ _ w'.
            (free p w' ≡ undefined_behaviour)
            × (w'.heap ≡ update w.heap p none)
            × (w'.c_cell ≡ w.c_cell)
            × (w'.last_error ≡ w.last_error))
          (free p w)

  load-none :
      {R T : Type 0} (unwrap : Obj loro → Option T) (w : World loro) (p : Ptr)
      → w.heap p ≡ none
      → load {R = R} unwrap p w ≡ undefined
  unfolding load
  load-none unwrap w p e = rw (e, load) refl

  -- The world without the box at `p`.
  abbrev without : World loro → Ptr → World loro
  without w p = record w { heap = update w.heap p none }

  freed :
      {T : Type 0} (unwrap : Obj loro → Option T) (w : World loro) (p : Ptr) (t : T)
      → Points unwrap w p t
      → ffi_guard tt (free_box unwrap p) w ≡ returned tt (without w p)
  unfolding finish free_box and_then
  freed unwrap w p t at_p = rw (not_null p at_p.ne_null) (rw (load-live unwrap w p at_p) refl)

  gone :
      {T : Type 0} (unwrap : Obj loro → Option T) (w : World loro) (p : Ptr)
      → p ≢ null_ptr
      → w.heap p ≡ none
      → ffi_guard tt (free_box unwrap p) w ≡ undefined_behaviour
  unfolding finish free_box and_then
  gone unwrap w p ne e = rw (not_null p ne) (rw (load-none unwrap w p e) refl)

  free_box-FreesOnce :
      {T : Type 0} (unwrap : Obj loro → Option T) (w : World loro) (p : Ptr) (t : T)
      → Points unwrap w p t
      → FreesOnce w p (λ q. ffi_guard tt (free_box unwrap q))
  unfolding finish free_box
  free_box-FreesOnce {T} unwrap w p t at_p = (
    refl,
    subst (Returns _) (sym (freed unwrap w p t at_p)) (
        ensures
          (gone unwrap (without w p) p at_p.ne_null (update-same w.heap p none), refl, refl, refl)),
  )

-- Each destructor (of a value, an import status, a version vector, frontiers, a subscription)
-- ignores the null pointer. On a live handle of its type it returns, the box is gone, every other
-- box, the caller's variables and the last error are as before, and a second call on the same handle
-- has no defined meaning.
pub destructors-FreesOnce :
    {loro : Loro} (w : World loro) (value status vector frontier sub : Ptr)
    (v : LoroValue loro.ContainerId) (s : LoroImportStatus) (vv : loro.VersionVector)
    (f : loro.Frontiers) (u : loro.Subscription)
    → Points (as_value loro) w value v
    → Points (as_import_status loro) w status s
    → Points (as_version_vector loro) w vector vv
    → Points (as_frontiers loro) w frontier f
    → Points (as_subscription loro) w sub u
    → FreesOnce w value loro_value_free
      × FreesOnce w status loro_import_status_free
      × FreesOnce w vector loro_version_vector_free
      × FreesOnce w frontier loro_frontiers_free
      × FreesOnce w sub loro_subscription_free
unfolding loro_value_free loro_import_status_free loro_version_vector_free loro_frontiers_free
    loro_subscription_free
destructors-FreesOnce w value status vector frontier sub v s vv f u at_v at_s at_vv at_f at_u = (
  free_box-FreesOnce _ w value v at_v,
  free_box-FreesOnce _ w status s at_s,
  free_box-FreesOnce _ w vector vv at_vv,
  free_box-FreesOnce _ w frontier f at_f,
  free_box-FreesOnce _ w sub u at_u,
)
