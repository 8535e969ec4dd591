-- ===== src/ValueTyped/Visit/Laws.antt =====
-- What the visitor of a map is called with, and when its data is released.
use loro_c.Base.{
  ℕ, ◌≡◌, refl, sym, subst, ◌⊎◌, inl, inr, if◌then◌else◌, Bool, true, false, Bool-cases, List, [],
  ◌∷◌, ◌++◌, map, some, some_eq, ◌≢◌,
}
use mathlib.Core.List.{append-nil, append_assoc}
use loro_c.World.{Loro, World, Ptr, Entries, end, entry, LoroValue, Event, invoked, freed}
use loro_c.World.{LoroValue}
use loro_c.Error.{LoroStatus, loro_ok, loro_err_invalid_arg, set_last_error}
use loro_c.Abi.{Step}
use loro_c.Abi.Laws.{
  Returns, NullOrLive, Points, Ends, bind, guarded, goes, exits, unwinding, faults,
}
use loro_c.Abi.Steps.{deref, emit_any, fail_any}
use loro_c.ValueTyped.Items.{as_value}
use loro_c.ValueTyped.Compound.{map_of, not_a_map}
use loro_c.ValueTyped.Visit.{
  CCallback, LoroValueMapVisitor, drop_callback, drop_after, drop_at_exit, visit,
  loro_value_map_for_each,
}

-- The keys in the order of the entries, up to and with the first that the visitor refuses.
pub visited : {C : Type 0} → (List ℕ → LoroValue C → Bool) → Entries C → List (List ℕ)
visited f end = []
visited f (entry k v m) = k ∷ (if f k v then visited f m else [])

abbrev pub Visitor : Type 0 → Type 0
Visitor C = CCallback (List ℕ → LoroValue C → Bool)

pub calls : {C : Type 0} → Visitor C → Entries C → List Event
calls cb m = map (λ k. invoked k cb.user_data) (visited cb.invoke m)

pub release : {C : Type 0} → Visitor C → List Event
release cb = if cb.free_user_data then freed cb.user_data ∷ [] else []

-- The callback struct that the entry point makes of the visitor.
abbrev pub callback : {C : Type 0} → LoroValueMapVisitor C → Visitor C
callback visitor = record {
  invoke = visitor.invoke;
  user_data = visitor.user_data;
  free_user_data = visitor.free_user_data;
}

module _ {C : Type 0} (cb : Visitor C) where
  calls_on :
      (t : List Event) (k : List ℕ) (v : LoroValue C) (m : Entries C)
      → cb.invoke k v ≡ true
      → t ++ calls cb (entry k v m) ≡ (t ++ invoked k cb.user_data ∷ []) ++ calls cb m
  unfolding calls visited
  calls_on t k v m e = rw e (sym (append_assoc t (invoked k cb.user_data ∷ []) (calls cb m)))

  calls_off :
      (t : List Event) (k : List ℕ) (v : LoroValue C) (m : Entries C)
      → cb.invoke k v ≡ false
      → t ++ calls cb (entry k v m) ≡ t ++ invoked k cb.user_data ∷ []
  unfolding calls visited
  calls_off t k v m e = rw e refl

module _ {loro : Loro} {R V : Type 0} {E : R → World loro → Type 0} {U : World loro → Type 0}
    (cb : Visitor loro.ContainerId) where
  drop_any :
      {Q : Unit {0} → World loro → Type 0} (w : World loro)
      → Q tt (record w { trace = w.trace ++ release cb })
      → Ends {R = R} V E U Q (drop_callback cb w)
  unfolding drop_callback release
  drop_any {Q} w q = elim (Bool-cases cb.free_user_data) [
    | inl e ↦ rw e (emit_any w _ (rw e at q))
    | inr e ↦ rw e (goes (rw (e, append-nil) at q))
  ]

  visit_any :
      {Q : Unit {0} → World loro → Type 0} (m : Entries loro.ContainerId) (w : World loro)
      → Q tt (record w { trace = w.trace ++ calls cb m })
      → Ends {R = R} V E U Q (visit cb m w)
  unfolding visit calls visited
  visit_any end w q = goes (rw append-nil at q)
  visit_any {Q} (entry k v m) w q = elim (Bool-cases (cb.invoke k v)) [
    | inl e ↦ rw e (
        bind (
          emit_any w _ (
            visit_any m _
              (subst (λ t. Q tt (record w { trace = t })) (calls_on cb w.trace k v m e) q))))
    | inr e ↦ rw e (
        bind (
          emit_any w _
            (goes (subst (λ t. Q tt (record w { trace = t })) (calls_off cb w.trace k v m e) q))))
  ]

  drop_rule :
      {A : Type 0} {Q : A → World loro → Type 0} {s : Step loro R A}
      → Ends V
          (λ r w. E r (record w { trace = w.trace ++ release cb }))
          (λ w. U (record w { trace = w.trace ++ release cb }))
          (λ a w. Q a (record w { trace = w.trace ++ release cb }))
          s
      → Ends V E U Q (drop_after cb s)
  unfolding drop_after
  drop_rule (goes {w} h) = bind (drop_any w (goes h))
  drop_rule (exits {w} h) = bind (drop_any w (exits h))
  drop_rule (unwinding {w} h) = bind (drop_any w (unwinding h))
  drop_rule (faults v) = faults v

module _ {loro : Loro} where
  -- A pointer stands for one value.
  Points-unique :
      {w : World loro} {p : Ptr} {v v' : LoroValue loro.ContainerId}
      → Points (as_value loro) w p v
      → Points (as_value loro) w p v'
      → v ≡ v'
  Points-unique {v'} l l' =
      some_eq l.typed
        (subst (λ o. as_value loro o ≡ some v') (sym (some_eq l.holds l'.holds)) l'.typed)

  -- A value that is a map, or one that is none.
  map_or :
      {R V : Type 0} {E : R → World loro → Type 0} {U : World loro → Type 0}
      {Q : Entries loro.ContainerId → World loro → Type 0} (w : World loro)
      (v : LoroValue loro.ContainerId) (r : R)
      → (((m : Entries loro.ContainerId) → v ≢ LoroValue.map m) → E r (set_last_error not_a_map w))
      → ((m : Entries loro.ContainerId) → v ≡ LoroValue.map m → Q m w)
      → Ends V E U Q (map_of v r w)
  unfolding map_of
  map_or w (LoroValue.map m) r bad good = goes (good m refl)
  map_or w _ r bad good = fail_any w _ _ (bad (λ m e. cc))

  -- The visitor was called on the entries up to the first that it refuses, and then released; or
  -- there is no map at the pointer, and it was only released.
  abbrev pub Toured : World loro → Ptr → Visitor loro.ContainerId → LoroStatus → World loro → Type 0
  Toured w p cb status w' =
      ((m : Entries loro.ContainerId) × Points (as_value loro) w p (LoroValue.map m)
        × (status ≡ loro_ok)
        × (w'.trace ≡ (w.trace ++ calls cb m) ++ release cb)
        × (w'.heap ≡ w.heap))
      ⊎ (((m : Entries loro.ContainerId) → ¬ Points (as_value loro) w p (LoroValue.map m))
          × (status ≡ loro_err_invalid_arg)
          × (w'.trace ≡ w.trace ++ release cb)
          × (w'.heap ≡ w.heap))

-- With a pointer that is null or live, `loro_value_map_for_each` returns. On a map it calls the
-- visitor on the entries in their order, stopping after the first call that returns false; on
-- anything else it calls it on nothing and says that the argument is invalid. Either way the
-- visitor's destructor, if there is one, runs exactly once and last, and no box changes.
pub map_for_each-Toured :
    {loro : Loro} (w : World loro) (p : Ptr) (visitor : LoroValueMapVisitor loro.ContainerId)
    → NullOrLive (as_value loro) w p
    → Returns (Toured w p (callback visitor)) (loro_value_map_for_each p visitor w)
unfolding loro_value_map_for_each drop_at_exit set_last_error
map_for_each-Toured {loro} w p visitor live = guarded _ (
    drop_rule (callback visitor) (
      bind (
        deref w (as_value loro) p _ live (λ e. inr ((λ m l. l.ne_null e), refl, refl, refl))
          λ v at_p. bind (
            map_or w v _ (λ none. inr ((λ m l. none m (Points-unique at_p l)), refl, refl, refl))
              λ m e. bind (
                visit_any (callback visitor) m w
                  (goes (inl (m, subst (Points (as_value loro) w p) e at_p, refl, refl, refl))))))))
