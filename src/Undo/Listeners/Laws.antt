-- ===== src/Undo/Listeners/Laws.antt =====
-- What a listener for pushes leaves with an undo item.
use loro_c.Base.{suc, ◌≡◌, ◌≢◌, refl, subst, ◌∙◌, ap, Option, none, some, arith, none_not_some}
use loro_c.World.{
  Loro, World, Ptr, Obj, update, LoroValue, CounterSpan, DiffEvent, diff_event, undo_meta,
  UndoItemMeta, returns,
}
use loro_c.Error.{loro_ok}
use loro_c.Abi.{
  Body, Entry, Outcome, returned, undefined_behaviour, and_then, into_raw, load, ◌>>=◌,
}
use loro_c.Abi.Laws.{Points, Ends, bind, goes}
use loro_c.Abi.Memory.{update-again, update-other, update-same, update-undo}
use loro_c.Abi.Steps.{alloc_any, load-live}
use loro_c.Abi.WellFormed.{WellFormed, wf_alloc}
use loro_c.ValueTyped.Items.{as_value}
use loro_c.Undo.Library.{History}
use loro_c.Undo.Meta.{as_undo_meta, loro_undo_meta_set_value}
use loro_c.Undo.Meta.Laws.{set_value-returned}
use loro_c.Undo.Listeners.{
  OnPush, UndoOrRedo, end_event, end_scope, entered, event_pointer, invoke, on_push,
}

-- A C function that calls the library and does not look at the result.
abbrev pub ignoring : {loro : Loro} {A : Type 0} → Outcome loro A → Outcome loro (Unit {0})
ignoring (returned r w) = returned tt w
ignoring undefined_behaviour = undefined_behaviour

-- The listener that remembers the value of a handle with every item.
abbrev pub remembers : {loro : Loro} → History loro → Ptr → OnPush loro
remembers crate v kind span event meta w = ignoring (loro_undo_meta_set_value crate meta v w)

-- A world with one box more, and with that box rewritten.
abbrev with_box : {loro : Loro} → World loro → Obj loro → World loro
with_box w o = record w { heap = update w.heap w.next (some o); next = suc w.next }

abbrev rewritten : {loro : Loro} → World loro → Obj loro → Obj loro → World loro
rewritten w o o' = record (with_box w o) {
  heap = update (update w.heap w.next (some o)) w.next (some o');
}

-- A live handle stays live when a box is allocated.
live-alloc :
    {loro : Loro} {T : Type 0} (unwrap : Obj loro → Option T) (w : World loro) (p : Ptr) (t : T)
    (o : Obj loro)
    → WellFormed w
    → Points unwrap w p t
    → Points unwrap (record w { heap = update w.heap w.next (some o); next = suc w.next }) p t
live-alloc unwrap w p t o h l = record {
  ne_null = l.ne_null;
  obj = l.obj;
  holds = update-other w.heap w.next p (some o) apart ∙ l.holds;
  typed = l.typed;
}
  where
    apart : p ≢ w.next
    apart e = absurd (
        none_not_some (h.free_from w.next (omega arith))
          (subst (λ q. w.heap q ≡ some l.obj) e l.holds))

module _ {loro : Loro} {R B : Type 0} {E : R → World loro → Type 0} {U : World loro → Type 0}
    (crate : History loro) (v : Ptr) (x : LoroValue loro.ContainerId)
    (sets : (m : UndoItemMeta loro) (y : LoroValue loro.ContainerId)
      → crate.meta_set_value m y ≡ (record m { value = y }, returns tt)) where
  -- The frame of the metadata: it is given the value, and nothing of it stays.
  framed :
      {Q : B → World loro → Type 0} (w : World loro) (call : Ptr → Entry loro (Unit {0}))
      (k : UndoItemMeta loro → Body loro R B)
      → ((meta : Ptr) (w' : World loro)
          → call meta w' ≡ ignoring (loro_undo_meta_set_value crate meta v w'))
      → WellFormed w
      → Points (as_value loro) w v x
      → ((m : UndoItemMeta loro) (w' : World loro)
          → m.value ≡ x
          → w'.heap ≡ w.heap
          → Ends ⊥ E U Q (k m w'))
      → Ends ⊥ E U Q (
          and_then (into_raw (undo_meta crate.meta_new) w) (λ meta. invoke (call meta) >>= λ _.
          load (as_undo_meta loro) meta >>= λ m. end_scope meta >>= λ _. k m))
  unfolding invoke entered end_scope
  framed w call k same h at_v q = bind (
      alloc_any w _ (
        rw (same w.next _ ∙ ap ignoring called) (
          bind (
            goes (
              bind (
                rw (load-live (as_undo_meta loro) _ w.next at_result)
                  (goes (bind (goes (q _ _ refl emptied))))))))))
    where
      at_meta :
          Points (as_undo_meta loro) (with_box w (undo_meta crate.meta_new)) w.next crate.meta_new
      at_meta = record {
        ne_null = h.ne_null;
        obj = undo_meta crate.meta_new;
        holds = update-same w.heap w.next _;
        typed = refl;
      }

      called :
          loro_undo_meta_set_value crate w.next v (with_box w (undo_meta crate.meta_new))
          ≡ returned loro_ok (
              rewritten w
                (undo_meta crate.meta_new)
                (undo_meta (record crate.meta_new { value = x })))
      called =
          set_value-returned crate (with_box w (undo_meta crate.meta_new)) w.next v crate.meta_new _
            x at_meta (live-alloc (as_value loro) w v x (undo_meta crate.meta_new) h at_v)
            (sets _ _)

      at_result :
          Points
            (as_undo_meta loro)
            (rewritten w
              (undo_meta crate.meta_new)
              (undo_meta (record crate.meta_new { value = x })))
            w.next
            (record crate.meta_new { value = x })
      at_result = record {
        ne_null = h.ne_null;
        obj = undo_meta (record crate.meta_new { value = x });
        holds = update-same (update w.heap w.next (some (undo_meta crate.meta_new))) w.next _;
        typed = refl;
      }

      emptied :
          update
            (update
              (update w.heap w.next (some (undo_meta crate.meta_new)))
              w.next
              (some (undo_meta (record crate.meta_new { value = x }))))
            w.next
            none
          ≡ w.heap
      emptied =
          update-again (update w.heap w.next (some (undo_meta crate.meta_new))) w.next _ _
          ∙ update-undo w.heap w.next _ (h.free_from w.next (omega arith))

-- A listener for pushes that remembers the value of a live handle, installed by the library and run
-- by the crate for any kind, span and event, in a well-formed world, where the crate's `set_value`
-- does what it says: the closure comes to its end, with no panic and no undefined behaviour, the item
-- that it gives back carries that value, and of the event and the metadata that the C function saw
-- nothing is left on the heap.
pub on_push-Carries :
    {loro : Loro} (crate : History loro) (w : World loro) (v : Ptr) (x : LoroValue loro.ContainerId)
    (kind : UndoOrRedo) (span : CounterSpan) (ev : Option (DiffEvent loro))
    → ((m : UndoItemMeta loro) (y : LoroValue loro.ContainerId)
        → crate.meta_set_value m y ≡ (record m { value = y }, returns tt))
    → WellFormed w
    → Points (as_value loro) w v x
    → Ends {R = Unit {0}} ⊥
        (λ r w'. ⊥)
        (λ w'. ⊥)
        (λ m w'. (m.value ≡ x) × (w'.heap ≡ w.heap))
        (on_push crate (remembers crate v) kind span ev w)
unfolding on_push event_pointer end_event end_scope
on_push-Carries crate w v x kind span none sets h at_v = bind (
    goes
      (framed crate v x sets w _ _ (λ meta w'. refl) h at_v λ m w' e f. bind (goes (goes (e, f)))))
on_push-Carries {loro} crate w v x kind span (some ev) sets h at_v = bind (
    alloc_any w _ (
      framed crate v x sets _ _ _ (λ meta w'. refl) (wf_alloc w _ h)
        (live-alloc (as_value loro) w v x (diff_event ev) h at_v)
        λ m w' e f. bind (
          goes (
            goes (
              e,
              ap (λ heap. update heap w.next none) f
                  ∙ update-undo w.heap w.next _ (h.free_from w.next (omega arith)),
            )))))
