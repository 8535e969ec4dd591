-- ===== src/ValueTyped/Access/Scalars.antt =====
-- The accessors of booleans, doubles and integers against the kind of the value.
use loro_c.Base.{ℕ, ◌≡◌, ◌≢◌, refl, inl, inr, Bool, true, false, some, ◌⊎◌}
use loro_c.Base.Int.{ℤ}
use loro_c.World.{
  Loro, World, Ptr, null_ptr, LoroValue, Cell, bool_cell, double_cell, integer_cell, update,
}
use loro_c.World.{LoroValue}
use loro_c.Abi.Laws.{Returns, Points, Ends, bind, guarded, goes}
use loro_c.Abi.Steps.{deref_at, out_at, write_any}
use loro_c.ValueTyped.Items.{
  as_value, kind, LoroValueType, loro_value_bool, loro_value_double, loro_value_i64,
}
use loro_c.ValueTyped.Access.{
  loro_value_as_bool, loro_value_as_double, loro_value_as_i64, write_bool, write_double, write_i64,
}

-- The payload of a value of one kind, as it is written into a variable of the caller.
module _ {C : Type 0} where
  abbrev pub BoolOf : LoroValue C → Cell → Type 0
  BoolOf v c = (b : Bool) × (v ≡ LoroValue.bool b) × (c ≡ bool_cell b)

  abbrev pub DoubleOf : LoroValue C → Cell → Type 0
  DoubleOf v c = (d : ℕ) × (v ≡ LoroValue.double d) × (c ≡ double_cell d)

  abbrev pub IntegerOf : LoroValue C → Cell → Type 0
  IntegerOf v c = (i : ℤ) × (v ≡ LoroValue.i64 i) × (c ≡ integer_cell i)

module _ {loro : Loro} where
  -- The answer is true exactly for the kind `k`; then a payload is written to `out` and nothing else
  -- changes, and otherwise nothing changes at all.
  abbrev pub Answers :
      World loro
      → Ptr
      → LoroValue loro.ContainerId
      → LoroValueType
      → (Cell → Type 0)
      → Bool
      → World loro
      → Type 0
  Answers w out v k Payload b w' =
      ((b ≡ true)
        × (kind v ≡ k)
        × (c : Cell) × Payload c
        × (w' ≡ record w { c_cell = update w.c_cell out (some c) }))
      ⊎ ((b ≡ false) × (kind v ≢ k) × (w' ≡ w))

module _ {loro : Loro} {E : Bool → World loro → Type 0} {U : World loro → Type 0} (w : World loro)
    (out : Ptr) (ne : out ≢ null_ptr) where
  bool_written :
      (v : LoroValue loro.ContainerId)
      → Ends ⊥ E U (Answers w out v loro_value_bool (BoolOf v)) (write_bool v out w)
  unfolding write_bool kind
  bool_written (LoroValue.bool b) =
      bind (write_any w out _ ne (goes (inl (refl, refl, _, (b, refl, refl), refl))))
  bool_written _ = goes (inr (refl, (λ e. cc), refl))

  double_written :
      (v : LoroValue loro.ContainerId)
      → Ends ⊥ E U (Answers w out v loro_value_double (DoubleOf v)) (write_double v out w)
  unfolding write_double kind
  double_written (LoroValue.double b) =
      bind (write_any w out _ ne (goes (inl (refl, refl, _, (b, refl, refl), refl))))
  double_written _ = goes (inr (refl, (λ e. cc), refl))

  i64_written :
      (v : LoroValue loro.ContainerId)
      → Ends ⊥ E U (Answers w out v loro_value_i64 (IntegerOf v)) (write_i64 v out w)
  unfolding write_i64 kind
  i64_written (LoroValue.i64 b) =
      bind (write_any w out _ ne (goes (inl (refl, refl, _, (b, refl, refl), refl))))
  i64_written _ = goes (inr (refl, (λ e. cc), refl))

module _ {loro : Loro} (w : World loro) (p out : Ptr) (v : LoroValue loro.ContainerId)
    (at_p : Points (as_value loro) w p v) (out_ne : out ≢ null_ptr) where
  bool-Answers : Returns (Answers w out v loro_value_bool (BoolOf v)) (loro_value_as_bool p out w)
  unfolding loro_value_as_bool
  bool-Answers = guarded _ (
      bind (
        deref_at w (as_value loro) p _ at_p
          (bind (out_at w out _ out_ne (bool_written w out out_ne v)))))

  double-Answers :
      Returns (Answers w out v loro_value_double (DoubleOf v)) (loro_value_as_double p out w)
  unfolding loro_value_as_double
  double-Answers = guarded _ (
      bind (
        deref_at w (as_value loro) p _ at_p
          (bind (out_at w out _ out_ne (double_written w out out_ne v)))))

  i64-Answers : Returns (Answers w out v loro_value_i64 (IntegerOf v)) (loro_value_as_i64 p out w)
  unfolding loro_value_as_i64
  i64-Answers = guarded _ (
      bind (
        deref_at w (as_value loro) p _ at_p
          (bind (out_at w out _ out_ne (i64_written w out out_ne v)))))

  -- On a live value and a variable to write to, each scalar accessor (boolean, double, integer)
  -- returns true exactly when the value is of its own kind, with no conversion between kinds: then
  -- it writes the payload there and changes nothing else, and otherwise it changes nothing, not even
  -- the last error.
  pub scalars-Answers :
      Returns (Answers w out v loro_value_bool (BoolOf v)) (loro_value_as_bool p out w)
      × Returns (Answers w out v loro_value_double (DoubleOf v)) (loro_value_as_double p out w)
      × Returns (Answers w out v loro_value_i64 (IntegerOf v)) (loro_value_as_i64 p out w)
  scalars-Answers = (bool-Answers, double-Answers, i64-Answers)
