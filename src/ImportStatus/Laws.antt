-- ===== src/ImportStatus/Laws.antt =====
-- The accessors of an import status against the span maps that it was made of.
use loro_c.Base.{
  ℕ, zero, suc, [], ◌∷◌, ◌≡◌, refl, ◌≢◌, Bool, true, false, Option, none, some, List, length,
  get_elem?, length-map,
}
use loro_c.World.{Loro, World, Ptr, null_ptr, peer_span_cell, update, LoroPeerCounterSpan}
use loro_c.Base.Int.{ℤ}
use loro_c.Error.{set_last_error}
use loro_c.Abi.Laws.{Returns, Points, Ends, bind, guarded, goes}
use loro_c.Abi.Steps.{deref_at, out_at, write_any, fail_any}
use loro_c.ImportStatus.{
  ImportStatus, map_option, get_of, len_or_zero, VersionRange, as_import_status, range_to_vec,
  status_of, write_entry, loro_import_status_success_len, loro_import_status_success_at,
  loro_import_status_pending_len, loro_import_status_pending_at,
}

-- The pending map, or the empty one where the import left nothing pending.
abbrev pub pending_range : ImportStatus → VersionRange
pending_range s = elim s.pending [ none ↦ [] | some r ↦ r ]

abbrev pub span_of : ℕ × ℤ × ℤ → LoroPeerCounterSpan
span_of e = record { peer = e.0; start = e.1; end = e.2 }

module _ {loro : Loro} (w : World loro) (out : Ptr) where
  -- The entry is written to `out` and nothing else changes; or there is none, and neither a variable
  -- of the caller nor a box changes.
  abbrev pub Reads : Option (ℕ × ℤ × ℤ) → Bool → World loro → Type 0
  Reads none b w' = (b ≡ false) × (w'.c_cell ≡ w.c_cell) × (w'.heap ≡ w.heap)
  Reads (some e) b w' =
      (b ≡ true)
      × (w' ≡ record w { c_cell = update w.c_cell out (some (peer_span_cell (span_of e))) })

  reads :
      (ne : out ≢ null_ptr) {U : World loro → Type 0} (r : VersionRange) (index : ℕ) (msg : List ℕ)
      → Ends ⊥
          (Reads (get_elem? r index))
          U
          (Reads (get_elem? r index))
          (write_entry (get_elem? (range_to_vec r) index) msg out w)
  unfolding write_entry range_to_vec set_last_error
  reads ne [] index msg = fail_any w _ _ (refl, refl, refl)
  reads ne (e ∷ r) zero msg = bind (write_any w out _ ne (goes (refl, refl)))
  reads ne (e ∷ r) (suc index) msg = reads ne r index msg

module _ {loro : Loro} (w : World loro) (p out : Ptr) (s : ImportStatus)
    (at_p : Points (as_import_status loro) w p (status_of s)) (out_ne : out ≢ null_ptr) where
  success_at-Reads :
      (index : ℕ)
      → Returns
          (Reads w out (get_elem? s.success index))
          (loro_import_status_success_at p index out w)
  unfolding loro_import_status_success_at
  success_at-Reads index = guarded _ (
      bind (
        deref_at w (as_import_status loro) p _ at_p
          (bind (out_at w out _ out_ne (reads w out out_ne s.success index _)))))

  success_len-length :
      Returns (λ n w'. (n ≡ length s.success) × (w' ≡ w)) (loro_import_status_success_len p w)
  unfolding loro_import_status_success_len range_to_vec
  success_len-length =
      guarded _
        (bind (deref_at w (as_import_status loro) p _ at_p (goes (length-map _ s.success, refl))))

pending_any :
    {loro : Loro} {U : World loro → Type 0} (w : World loro) (out : Ptr) (ne : out ≢ null_ptr)
    (pending : Option VersionRange) (index : ℕ) (msg : List ℕ)
    → let r : VersionRange = elim pending [ none ↦ [] | some r ↦ r ] in
      Ends ⊥
        (Reads w out (get_elem? r index))
        U
        (Reads w out (get_elem? r index))
        (write_entry (get_of (map_option pending) index) msg out w)
unfolding write_entry set_last_error
pending_any w out ne none index msg = fail_any w _ _ (refl, refl, refl)
pending_any w out ne (some r) index msg = reads w out ne r index msg

pending_length :
    (pending : Option VersionRange)
    → len_or_zero (map_option pending) ≡ length (elim pending [ none ↦ [] | some r ↦ r ])
unfolding range_to_vec
pending_length none = refl
pending_length (some r) = length-map _ r

module _ {loro : Loro} (w : World loro) (p out : Ptr) (s : ImportStatus)
    (at_p : Points (as_import_status loro) w p (status_of s)) (out_ne : out ≢ null_ptr) where
  pending_at-Reads :
      (index : ℕ)
      → Returns
          (Reads w out (get_elem? (pending_range s) index))
          (loro_import_status_pending_at p index out w)
  unfolding loro_import_status_pending_at
  pending_at-Reads index = guarded _ (
      bind (
        deref_at w (as_import_status loro) p _ at_p
          (bind (out_at w out _ out_ne (pending_any w out out_ne s.pending index _)))))

  pending_len-length :
      Returns
        (λ n w'. (n ≡ length (pending_range s)) × (w' ≡ w))
        (loro_import_status_pending_len p w)
  unfolding loro_import_status_pending_len
  pending_len-length =
      guarded _
        (bind (deref_at w (as_import_status loro) p _ at_p (goes (pending_length s.pending, refl))))

  -- The handle of an import status gives back both span maps whole: each length is the number of
  -- entries of its map, and each index reads the entry of that index, or fails without writing when
  -- it is out of range. An import that left nothing pending reads as an empty pending map.
  pub import_status-Reads :
      Returns (λ n w'. (n ≡ length s.success) × (w' ≡ w)) (loro_import_status_success_len p w)
      × ((index : ℕ)
          → Returns
              (Reads w out (get_elem? s.success index))
              (loro_import_status_success_at p index out w))
      × Returns
          (λ n w'. (n ≡ length (pending_range s)) × (w' ≡ w))
          (loro_import_status_pending_len p w)
      × ((index : ℕ)
          → Returns
              (Reads w out (get_elem? (pending_range s) index))
              (loro_import_status_pending_at p index out w))
  import_status-Reads = (
    success_len-length w p out s at_p out_ne,
    success_at-Reads w p out s at_p out_ne,
    pending_len-length,
    pending_at-Reads,
  )
