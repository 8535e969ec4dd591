-- ===== src/ValueTyped/Compound/Maps.antt =====
-- A map value as its handle shows it: what is inserted is what is looked up.
use loro_c.Base.{
  ℕ, ◌≡◌, refl, if◌then◌else◌, Option, some, arith, true, false, ap, subst, List, same, same_refl,
  same-eq, none_not_some, some_eq, sym, ◌∙◌, Bool, Bool-cases, inl, inr,
}
use loro_c.World.{Loro, World, Ptr, LoroValue, Entries, end, entry}
use loro_c.World.{LoroValue}
use loro_c.Error.{loro_ok}
use loro_c.Abi.Laws.{Returns, Points, Ends, bind, guarded, goes}
use loro_c.Abi.Steps.{deref_at, store_any}
use loro_c.Value.Args.{StringArg, string_argument, string_then}
use loro_c.ValueTyped.Items.{as_value, insert, lookup}
use loro_c.ValueTyped.Compound.{loro_value_map_insert, loro_value_map_get, map_of, box_or_fail}
use loro_c.ValueTyped.Compound.Lists.{Found, found, stored}

clash : {b : Bool} → b ≡ true → b ≡ false → ⊥
clash e f = ground arith

lookup-insert :
    {C : Type 0} (m : Entries C) (k j : List ℕ) (v : LoroValue C)
    → lookup (insert m k v) j ≡ (if same k j then some v else lookup m j)
unfolding lookup insert
lookup-insert end k j v = refl
lookup-insert (entry i u m) k j v = elim (Bool-cases (same i k)) [
  | inl e ↦ rw (e, lookup) (rw (sym (same-eq i k e)) (overwritten _ _ _ (same i j)))
  | inr e ↦ rw (e, lookup) (rw (lookup-insert m k j v) (passed _ _ _ _ _ (apart e)))
]
  where
    overwritten :
        {A : Type 0} (a b c : A) (t : Bool)
        → (if t then a else b) ≡ (if t then a else if t then c else b)
    overwritten a b c true = refl
    overwritten a b c false = refl

    passed :
        {A : Type 0} (a b c : A) (s t : Bool)
        → ¬ ((s ≡ true) × (t ≡ true))
        → (if s then c else if t then a else b) ≡ (if t then a else if s then c else b)
    passed a b c true true h = absurd (h (refl, refl))
    passed a b c true false h = refl
    passed a b c false t h = refl

    reach : i ≡ j → k ≡ j → same i k ≡ true
    reach f g =
        subst (λ x. same i x ≡ true) (sym g) (subst (λ x. same x j ≡ true) (sym f) (same_refl j))

    apart : same i k ≡ false → ¬ ((same i j ≡ true) × (same k j ≡ true))
    apart e (f, g) = clash (reach (same-eq i j f) (same-eq k j g)) e

module _ {loro : Loro} where
  found_at :
      {U : World loro → Type 0} (w : World loro) (o o' : Option (LoroValue loro.ContainerId))
      (msg : List ℕ)
      → o' ≡ o
      → Ends ⊥ (Found w o) U (Found w o) (box_or_fail o' msg w)
  found_at {U} w o o' msg e =
      subst (λ x. Ends ⊥ (Found w o) U (Found w o) (box_or_fail x msg w)) (sym e) (found w o msg)

  map_get-Found :
      (w : World loro) (p : Ptr) (m : Entries loro.ContainerId)
      → Points (as_value loro) w p (LoroValue.map m)
      → (key : Ptr) (key_len : ℕ) (j : List ℕ) → StringArg w key key_len
      → string_argument w key key_len ≡ some j
      → Returns (Found w (lookup m j)) (loro_value_map_get p key key_len w)
  unfolding loro_value_map_get map_of
  map_get-Found w p m at_p key key_len j arg is = guarded _ (
      bind (
        deref_at w (as_value loro) p _ at_p (
          string_then w key key_len _ _ arg (λ e. absurd (none_not_some e is))
            λ t e.
              bind (goes (found_at w (lookup m j) (lookup m t) _ (ap (lookup m) (some_eq e is)))))))

  -- What a lookup of `j` answers in a world, once `c` is inserted under `k`.
  abbrev pub Answers :
      World loro
      → Ptr
      → ℕ
      → Ptr
      → Entries loro.ContainerId
      → List ℕ
      → List ℕ
      → LoroValue loro.ContainerId
      → Type 0
  Answers w key key_len p m k j c =
      Returns (Found w (if same k j then some c else lookup m j))
        (loro_value_map_get p key key_len w)

  answers :
      (w : World loro) (p : Ptr) (m : Entries loro.ContainerId) (t k j : List ℕ)
      (c : LoroValue loro.ContainerId)
      → t ≡ k
      → Points (as_value loro) w p (LoroValue.map (insert m t c))
      → (key : Ptr) (key_len : ℕ) → StringArg w key key_len
      → string_argument w key key_len ≡ some j
      → Answers w key key_len p m k j c
  answers w p m t k j c e at_p key key_len arg is =
      subst (λ o. Returns (Found w o) (loro_value_map_get p key key_len w))
        (lookup-insert m t j c ∙ ap (λ x. if same x j then some c else lookup m j) e)
        (map_get-Found w p (insert m t c) at_p key key_len j arg is)

-- An insertion of a live value under a UTF-8 key into a live map succeeds. After it a lookup of the
-- key's bytes reads a clone of the value in a new box, also where the key was there before, and a
-- lookup of another key reads what it did before.
pub map_get-insert :
    {loro : Loro} (w : World loro) (p child : Ptr) (m : Entries loro.ContainerId)
    (c : LoroValue loro.ContainerId) (key : Ptr) (key_len : ℕ) (k : List ℕ) (asked : Ptr)
    (asked_len : ℕ) (j : List ℕ)
    → Points (as_value loro) w p (LoroValue.map m)
    → Points (as_value loro) w child c
    → StringArg w key key_len
    → string_argument w key key_len ≡ some k
    → StringArg w asked asked_len
    → string_argument w asked asked_len ≡ some j
    → Returns
        (λ status w'. (status ≡ loro_ok) × Answers w' asked asked_len p m k j c)
        (loro_value_map_insert p key key_len child w)
unfolding loro_value_map_insert map_of
map_get-insert {loro} w p child m c key key_len k asked asked_len j at_p at_child arg is arg' is' =
    guarded _ (
      bind (
        deref_at w (as_value loro) p _ at_p (
          string_then w key key_len _ _ arg (λ e. absurd (none_not_some e is))
            λ t e. bind (
              deref_at w (as_value loro) child _ at_child (
                bind (
                  goes (
                    bind (
                      store_any w p _ (
                        goes (
                          refl,
                          answers _ p m t k j c (some_eq e is) (stored at_p _) asked asked_len arg'
                              is',
                        ))))))))))
