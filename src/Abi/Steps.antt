-- ===== src/Abi/Steps.antt =====
-- A rule for each step of a body. Those named `_any` hold for whatever the caller passes, and let
-- undefined behaviour pass; the others want the caller's promise and give a defined step.
use loro_c.Base.{
  ℕ, suc, ◌≤◌, ◌≡◌, ◌≢◌, inl, inr, ◌==◌, true, false, Option, none, some, List, ◌∷◌, [], ◌++◌,
  arith, take, Bool-cases, Option-cases, leb,
}
use loro_c.World.{Loro, World, Ptr, null_ptr, Obj, Cell, Event, Call, returns, panics, update}
use loro_c.Error.{set_last_error}
use loro_c.Abi.{
  go, fail, call, load, store, deref_or, require_out, free_box, write_out, emit,
  slice_from_raw_parts, null_pointer, null_out_pointer, into_raw, record_error,
}
use loro_c.Abi.Laws.{Points, NullOrLive, Readable, Ends, goes, exits, unwinding, faults, bind}

pub is_null : (p : Ptr) → p ≡ null_ptr → (p == null_ptr) ≡ true
is_null p h = ground arith

pub not_null : (p : Ptr) → p ≢ null_ptr → (p == null_ptr) ≡ false
not_null p h = ground arith

pub ne_null : (p : Ptr) → (p == null_ptr) ≡ false → p ≢ null_ptr
ne_null p h = ground arith

module _ {loro : Loro} {R T : Type 0} (unwrap : Obj loro → Option T) (w : World loro)
    (p : Ptr) where
  pub load-live : {t : T} → Points unwrap w p t → load {R = R} unwrap p w ≡ go t w
  unfolding load
  load-live l = rw (l.holds, load) (rw l.typed)

module _ {loro : Loro} {R V : Type 0} {E : R → World loro → Type 0} {U : World loro → Type 0}
    (w : World loro) where
  module _ {T : Type 0} {Q : T → World loro → Type 0} (unwrap : Obj loro → Option T) (p : Ptr) where
    pub load_any :
        V
        → ((t : T) (o : Obj loro) → w.heap p ≡ some o → unwrap o ≡ some t → Q t w)
        → Ends {R = R} V E U Q (load unwrap p w)
    unfolding load
    load_any v live = elim (Option-cases (w.heap p)) [
      | inl e ↦ rw (e, load) (faults v)
      | inr (o, e) ↦ elim (Option-cases (unwrap o)) [
        | inl f ↦ rw (e, load) (rw f (faults v))
        | inr (t, f) ↦ rw (e, load) (rw f (goes (live t o e f)))
      ]
    ]

    pub deref_any :
        (r : R)
        → V
        → (p ≡ null_ptr → E r (set_last_error null_pointer w))
        → ((t : T) → Points unwrap w p t → Q t w)
        → Ends V E U Q (deref_or unwrap p r w)
    unfolding deref_or fail
    deref_any r v null live = elim (Bool-cases (p == null_ptr)) [
      | inl e ↦ rw e (exits (null (ground arith)))
      | inr e ↦ rw e (
          load_any v
            (λ t o h u. live t (record { ne_null = ne_null p e; obj = o; holds = h; typed = u })))
    ]

    pub deref :
        (r : R)
        → NullOrLive unwrap w p
        → (p ≡ null_ptr → E r (set_last_error null_pointer w))
        → ((t : T) → Points unwrap w p t → Q t w)
        → Ends V E U Q (deref_or unwrap p r w)
    unfolding deref_or fail
    deref r (inl e) null live = rw (is_null p e) (exits (null e))
    deref r (inr (t, l)) null live =
        rw (not_null p l.ne_null) (rw (load-live unwrap w p l) (goes (live t l)))

    -- At a box that is known.
    pub deref_at :
        (r : R) {t : T} → Points unwrap w p t → Q t w → Ends V E U Q (deref_or unwrap p r w)
    unfolding deref_or
    deref_at r l q = rw (not_null p l.ne_null) (rw (load-live unwrap w p l) (goes q))

  pub out_at :
      {Q : Unit {0} → World loro → Type 0} (out : Ptr) (r : R)
      → out ≢ null_ptr
      → Q tt w
      → Ends V E U Q (require_out out r w)
  unfolding require_out
  out_at out r ne q = rw (not_null out ne) (goes q)

  pub out_any :
      {Q : Unit {0} → World loro → Type 0} (out : Ptr) (r : R)
      → (out ≡ null_ptr → E r (set_last_error null_out_pointer w))
      → (out ≢ null_ptr → Q tt w)
      → Ends V E U Q (require_out out r w)
  unfolding require_out fail
  out_any out r null live = elim (Bool-cases (out == null_ptr)) [
    | inl e ↦ rw e (exits (null (ground arith)))
    | inr e ↦ rw e (goes (live (ne_null out e)))
  ]

  module _ {A : Type 0} {Q : A → World loro → Type 0} where
    pub fail_any : (msg : List ℕ) (r : R) → E r (set_last_error msg w) → Ends V E U Q (fail msg r w)
    unfolding fail
    fail_any msg r h = exits h

    pub call_any : (c : Call A) → U w → ((a : A) → Q a w) → Ends V E U Q (call c w)
    unfolding call
    call_any (returns a) u h = goes (h a)
    call_any panics u h = unwinding u

  module _ {Q : Unit {0} → World loro → Type 0} where
    pub store_any :
        (p : Ptr) (o : Obj loro)
        → Q tt (record w { heap = update w.heap p (some o) })
        → Ends {R = R} V E U Q (store p o w)
    unfolding store
    store_any p o q = goes q

    pub write_any :
        (out : Ptr) (c : Cell)
        → out ≢ null_ptr
        → Q tt (record w { c_cell = update w.c_cell out (some c) })
        → Ends {R = R} V E U Q (write_out out c w)
    unfolding write_out
    write_any out c ne q = rw (not_null out ne) (goes q)

    pub record_any :
        (msg : List ℕ) → Q tt (set_last_error msg w) → Ends {R = R} V E U Q (record_error msg w)
    unfolding record_error
    record_any msg q = goes q

    pub emit_any :
        (e : Event)
        → Q tt (record w { trace = w.trace ++ e ∷ [] })
        → Ends {R = R} V E U Q (emit e w)
    unfolding emit
    emit_any e q = goes q

    pub free_any :
        {T : Type 0} (unwrap : Obj loro → Option T) (p : Ptr)
        → V
        → Q tt w
        → ((t : T) → Points unwrap w p t → Q tt (record w { heap = update w.heap p none }))
        → Ends {R = R} V E U Q (free_box unwrap p w)
    unfolding free_box
    free_any unwrap p v null live = elim (Bool-cases (p == null_ptr)) [
      | inl e ↦ rw e (goes null)
      | inr e ↦ rw e (
          bind (
            load_any unwrap p v (λ t o h u.
              goes (live t (record { ne_null = ne_null p e; obj = o; holds = h; typed = u })))))
    ]

  pub alloc_any :
      {Q : Ptr → World loro → Type 0} (o : Obj loro)
      → Q w.next (record w { heap = update w.heap w.next (some o); next = suc w.next })
      → Ends {R = R} V E U Q (into_raw o w)
  unfolding into_raw
  alloc_any o q = goes q

  pub slice :
      {Q : List ℕ → World loro → Type 0} (p : Ptr) (len : ℕ)
      → Readable w p len
      → Q (take len (w.c_data p)) w
      → Ends {R = R} V E U Q (slice_from_raw_parts p len w)
  unfolding slice_from_raw_parts
  slice p len h q = rw (readable _ _ h) (goes q)
    where
      readable : (a b : ℕ) → a ≤ b → leb a b ≡ true
      readable a b h = ground arith
