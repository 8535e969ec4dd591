-- ===== src/Value/Buffers.antt =====
-- The life of a byte buffer: what an out-parameter receives, and what `loro_bytes_free` gives back.
use loro_c.Base.{
  ℕ, suc, ◌≡◌, refl, ◌≢◌, ◌≤◌, ◌⊎◌, inl, inr, ◌==◌, ◌&&◌, leb, true, false, Option, none, some,
  List, [], ◌∷◌, length, arith,
}
use loro_c.World.{Loro, World, Ptr, null_ptr, ByteVec, LoroBytes, Obj, buffer, update, bytes_cell}
use loro_c.Abi.Laws.{Returns, Ends, bind, guarded, goes}
use loro_c.Abi.Steps.{alloc_any, write_any}
use loro_c.Abi.Memory.{update-same, update-undo}
use loro_c.Value.{from_vec, drop_vec, loro_bytes_free, write_bytes, to_vec}

module _ {loro : Loro} where
  -- The next address of the heap is free and not null.
  pub record Fresh (w : World loro) : Type 0 where
    pub unused : w.heap w.next ≡ none
    pub ne_null : w.next ≢ null_ptr

  -- The caller has a buffer of these bytes, and freeing it gives back the heap `h`.
  pub record Lends (h : Ptr → Option (Obj loro)) (items : List ℕ) (b : LoroBytes) (w : World loro)
      : Type 0 where
    pub data_ne_null : b.data_ptr ≢ null_ptr
    pub len_eq : b.len ≡ length items
    pub contents :
        (items ≡ []) ⊎ ((v : ByteVec) × (w.heap b.data_ptr ≡ some (buffer v)) × (v.items ≡ items))
    pub frees : Returns (λ _ w'. w'.heap ≡ h) (loro_bytes_free b w)

module _ {loro : Loro} {h : Ptr → Option (Obj loro)} (w : World loro) where
  -- Freeing a buffer at a live allocation of the same capacity.
  free_live :
      (b : LoroBytes) (v : ByteVec)
      → b.data_ptr ≢ null_ptr
      → b.cap ≢ 0
      → w.heap b.data_ptr ≡ some (buffer v)
      → v.capacity ≡ b.cap
      → b.len ≤ b.cap
      → update w.heap b.data_ptr none ≡ h
      → Returns (λ _ w'. w'.heap ≡ h) (loro_bytes_free b w)
  unfolding loro_bytes_free drop_vec
  free_live b v ne cap_ne at same_cap le back =
      guarded _ (
        rw (nonzero _ ne)
          (rw (nonzero _ cap_ne) (rw (at, same_cap) (rw (fits _ _ le) (goes back)))))
    where
      nonzero : (n : ℕ) → n ≢ 0 → (n == 0) ≡ false
      nonzero n ne = ground arith

      fits : (a c : ℕ) → a ≤ c → ((c == c) && leb a c) ≡ true
      fits a c le = ground arith

-- An allocation of the heap, at its next address.
abbrev pub after_alloc : {loro : Loro} → World loro → Obj loro → World loro
after_alloc w o = record w { heap = update w.heap w.next (some o); next = suc w.next }

module _ {loro : Loro} {R V : Type 0} {E : R → World loro → Type 0} {U : World loro → Type 0}
    (w : World loro) (fresh : Fresh w) where
  -- A copy of `items` as a buffer, into the caller's variable.
  pub lends :
      {Q : Unit {0} → World loro → Type 0} (out : Ptr) (items : List ℕ)
      → out ≢ null_ptr
      → ((b : LoroBytes) (w' : World loro)
          → w'.c_cell out ≡ some (bytes_cell b)
          → Lends w.heap items b w'
          → Q tt w')
      → Ends V E U Q (write_bytes out (to_vec items) w)
  unfolding write_bytes from_vec loro_bytes_free drop_vec
  lends out [] ne q = bind (
      goes (
        write_any w out _ ne (
          q _ _ (update-same w.c_cell out _) (record {
            data_ne_null = λ e. absurd (omega arith);
            len_eq = refl;
            contents = inl refl;
            frees = guarded _ (goes refl);
          }))))
  lends out (x ∷ items) ne q = rw (nonzero (length items)) (
      bind (
        bind (
          alloc_any w _ (
            goes (
              write_any _ out _ ne (
                q _ _ (update-same w.c_cell out _) (record {
                  data_ne_null = fresh.ne_null;
                  len_eq = refl;
                  contents = inr (_, update-same w.heap w.next _, refl);
                  frees =
                      free_live _ _ _ fresh.ne_null (λ e. absurd (omega arith))
                        (update-same w.heap w.next _) refl (omega arith)
                        (update-undo w.heap w.next _ fresh.unused);
                })))))))
    where
      nonzero : (n : ℕ) → (suc n == 0) ≡ false
      nonzero n = ground arith
