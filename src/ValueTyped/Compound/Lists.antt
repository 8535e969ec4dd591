-- ===== src/ValueTyped/Compound/Lists.antt =====
-- A list value as its handle shows it: what is pushed is what is read.
use loro_c.Base.{
  ℕ, zero, suc, ◌≡◌, refl, ◌==◌, if◌then◌else◌, Option, none, some, arith, ap, List, subst,
}
use loro_c.World.{Loro, World, Ptr, null_ptr, LoroValue, Values, nil, cons, value, update}
use loro_c.World.{LoroValue}
use loro_c.Error.{loro_ok, set_last_error}
use loro_c.Abi.Laws.{Returns, Points, Ends, bind, guarded, goes}
use loro_c.Abi.Memory.{update-same}
use loro_c.Abi.Steps.{deref_at, store_any, alloc_any, fail_any}
use loro_c.ValueTyped.Items.{as_value, push, len, get}
use loro_c.ValueTyped.Construct.{box_value}
use loro_c.ValueTyped.Compound.{
  loro_value_list_push, loro_value_list_get, loro_value_list_len, list_of, box_or_fail,
  length_of_list,
}

get-push :
    {C : Type 0} (xs : Values C) (v : LoroValue C) (i : ℕ)
    → get (push xs v) i ≡ (if i == len xs then some v else get xs i)
unfolding get push len
get-push nil v zero = refl
get-push nil v (suc i) = ground arith
get-push (cons x xs) v zero = ground arith
get-push (cons x xs) v (suc i) = ground (arith, get-push xs v i)

len-push : {C : Type 0} (xs : Values C) (v : LoroValue C) → len (push xs v) ≡ suc (len xs)
unfolding len push
len-push nil v = refl
len-push (cons x xs) v = ap suc (len-push xs v)

module _ {loro : Loro} where
  -- A new box that holds a clone.
  abbrev pub Boxed : World loro → LoroValue loro.ContainerId → Ptr → World loro → Type 0
  Boxed w v q w' =
      (q ≡ w.next)
      × (w' ≡ record w { heap = update w.heap w.next (some (value v)); next = suc w.next })

  -- What a getter answers for an element that may be missing.
  abbrev pub Found : World loro → Option (LoroValue loro.ContainerId) → Ptr → World loro → Type 0
  Found w none q w' = (q ≡ null_ptr) × (w'.heap ≡ w.heap)
  Found w (some v) q w' = Boxed w v q w'

  pub found :
      {U : World loro → Type 0} (w : World loro) (o : Option (LoroValue loro.ContainerId))
      (msg : List ℕ)
      → Ends ⊥ (Found w o) U (Found w o) (box_or_fail o msg w)
  unfolding box_or_fail box_value set_last_error
  found w none msg = fail_any w _ _ (refl, refl)
  found w (some v) msg = alloc_any w _ (refl, refl)

-- A box after a store into it.
pub stored :
    {loro : Loro} {w : World loro} {p : Ptr} {v : LoroValue loro.ContainerId}
    → Points (as_value loro) w p v
    → (v' : LoroValue loro.ContainerId)
    → Points (as_value loro) (record w { heap = update w.heap p (some (value v')) }) p v'
stored {w} {p} at_p v' = record {
  ne_null = at_p.ne_null;
  obj = value v';
  holds = update-same w.heap p _;
  typed = refl;
}

module _ {loro : Loro} (w : World loro) (p : Ptr) (xs : Values loro.ContainerId)
    (at_p : Points (as_value loro) w p (LoroValue.list xs)) where
  list_get-Found : (i : ℕ) → Returns (Found w (get xs i)) (loro_value_list_get p i w)
  unfolding loro_value_list_get list_of
  list_get-Found i =
      guarded _ (bind (deref_at w (as_value loro) p _ at_p (bind (goes (found w (get xs i) _)))))

module _ {loro : Loro} where
  -- What the handle `p` shows in a world: the length and every element.
  abbrev pub ShowsPushed :
      World loro → Ptr → Values loro.ContainerId → LoroValue loro.ContainerId → Type 0
  ShowsPushed w p xs c =
      Returns (λ n _. n ≡ suc (len xs)) (loro_value_list_len p w)
      × ((i : ℕ)
          → Returns (Found w (if i == len xs then some c else get xs i))
              (loro_value_list_get p i w))

  shows_pushed :
      (w : World loro) (p : Ptr) (xs : Values loro.ContainerId) (c : LoroValue loro.ContainerId)
      → Points (as_value loro) w p (LoroValue.list (push xs c))
      → ShowsPushed w p xs c
  unfolding loro_value_list_len length_of_list
  shows_pushed w p xs c at_p = (
    guarded _ (bind (deref_at w (as_value loro) p _ at_p (goes (len-push xs c)))),
    λ i.
        subst (λ o. Returns (Found w o) (loro_value_list_get p i w)) (get-push xs c i)
          (list_get-Found w p (push xs c) at_p i),
  )

-- A push of a live value onto a live list succeeds. After it the length is one more, index `len` reads a clone of
-- what was pushed in a new box, and every other index, in range or not, reads what it did before.
pub list_get-push :
    {loro : Loro} (w : World loro) (p child : Ptr) (xs : Values loro.ContainerId)
    (c : LoroValue loro.ContainerId)
    → Points (as_value loro) w p (LoroValue.list xs)
    → Points (as_value loro) w child c
    → Returns
        (λ status w'. (status ≡ loro_ok) × ShowsPushed w' p xs c)
        (loro_value_list_push p child w)
unfolding loro_value_list_push list_of
list_get-push {loro} w p child xs c at_p at_child = guarded _ (
    bind (
      deref_at w (as_value loro) p _ at_p (
        bind (
          deref_at w (as_value loro) child _ at_child (
            bind (
              goes
                (bind (store_any w p _ (goes (refl, shows_pushed _ p xs c (stored at_p _)))))))))))
