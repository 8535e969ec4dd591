-- ===== src/ValueTyped/Access/Payloads.antt =====
-- The bytes that the string and binary accessors hand out, and their way round a constructor.
use loro_c.Base.{
  ℕ, suc, ◌≡◌, refl, ◌≢◌, ◌≤◌, Option, none, some, List, arith, false, ◌==◌, subst, none_not_some,
  some_eq,
}
use loro_c.World.{Loro, World, Ptr, null_ptr, LoroValue, LoroBytes, Obj, bytes_cell, value}
use loro_c.World.{LoroValue}
use loro_c.Error.{LoroStatus, loro_ok, loro_err_invalid_arg, set_last_error}
use loro_c.Abi.Laws.{Returns, Points, Ends, bind, guarded, goes}
use loro_c.Abi.Memory.{update-same}
use loro_c.Abi.Steps.{deref_at, out_at, fail_any, alloc_any}
use loro_c.Value.Args.{StringArg, string_argument, string_then}
use loro_c.Value.Buffers.{Fresh, Lends, lends, after_alloc}
use loro_c.ValueTyped.Items.{as_value}
use loro_c.ValueTyped.Construct.{loro_value_new_string, box_value}
use loro_c.ValueTyped.Access.{
  loro_value_as_string, loro_value_as_binary, write_string, write_binary,
}

module _ {C : Type 0} where
  abbrev pub string_of : LoroValue C → Option (List ℕ)
  string_of (LoroValue.string s) = some s
  string_of _ = none

  abbrev pub binary_of : LoroValue C → Option (List ℕ)
  binary_of (LoroValue.binary b) = some b
  binary_of _ = none

module _ {loro : Loro} (w : World loro) (out : Ptr) where
  -- A payload is lent to the caller through `out`; where there is none, nothing is written.
  abbrev pub HandsOut : Option (List ℕ) → LoroStatus → World loro → Type 0
  HandsOut none status w' =
      (status ≡ loro_err_invalid_arg) × (w'.c_cell ≡ w.c_cell) × (w'.heap ≡ w.heap)
  HandsOut (some items) status w' =
      (status ≡ loro_ok)
      × (b : LoroBytes) × (w'.c_cell out ≡ some (bytes_cell b))
      × Lends w.heap items b w'

  module _ (fresh : Fresh w) (ne : out ≢ null_ptr) where
    string_out :
        {U : World loro → Type 0} (v : LoroValue loro.ContainerId)
        → Ends ⊥ (HandsOut (string_of v)) U (HandsOut (string_of v)) (write_string v out w)
    unfolding write_string set_last_error
    string_out (LoroValue.string s) = bind (lends w fresh out s ne λ b w' c l. goes (refl, b, c, l))
    string_out _ = fail_any w _ _ (refl, refl, refl)

    binary_out :
        {U : World loro → Type 0} (v : LoroValue loro.ContainerId)
        → Ends ⊥ (HandsOut (binary_of v)) U (HandsOut (binary_of v)) (write_binary v out w)
    unfolding write_binary set_last_error
    binary_out (LoroValue.binary s) = bind (lends w fresh out s ne λ b w' c l. goes (refl, b, c, l))
    binary_out _ = fail_any w _ _ (refl, refl, refl)

-- On a live value and a variable to write to, and in a heap whose next address is free, the string
-- accessor and the binary accessor succeed exactly on a value of their kind. They then give the
-- caller a buffer that holds the payload, in an allocation of its own unless it is empty, and
-- freeing that buffer with `loro_bytes_free` is defined and restores the heap. On another kind they
-- say that the argument is invalid and write nothing.
pub payloads-HandsOut :
    {loro : Loro} (w : World loro) (p out : Ptr) (v : LoroValue loro.ContainerId)
    → Fresh w
    → Points (as_value loro) w p v
    → out ≢ null_ptr
    → Returns (HandsOut w out (string_of v)) (loro_value_as_string p out w)
      × Returns (HandsOut w out (binary_of v)) (loro_value_as_binary p out w)
unfolding loro_value_as_string loro_value_as_binary
payloads-HandsOut {loro} w p out v fresh at_p out_ne = (
  guarded _ (
      bind (
        deref_at w (as_value loro) p _ at_p
          (bind (out_at w out _ out_ne (string_out w out fresh out_ne v))))),
  guarded _ (
      bind (
        deref_at w (as_value loro) p _ at_p
          (bind (out_at w out _ out_ne (binary_out w out fresh out_ne v))))),
)

-- The addresses of the heap that were never given out are free.
pub record Unspent {loro : Loro} (w : World loro) : Type 0 where
  pub free_from : (q : Ptr) → w.next ≤ q → w.heap q ≡ none
  pub ne_null : w.next ≢ null_ptr

Unspent-Fresh : {loro : Loro} (w : World loro) (o : Obj loro) → Unspent w → Fresh (after_alloc w o)
Unspent-Fresh w o u = record {
  unused = rw (apart w.next) (u.free_from (suc w.next) (omega arith));
  ne_null = λ e. absurd (omega arith);
}
  where
    apart : (n : ℕ) → (n == suc n) ≡ false
    apart n = ground arith

abbrev pub holding : {loro : Loro} → World loro → List ℕ → World loro
holding w t = after_alloc w (value (LoroValue.string t))

-- In a heap whose addresses from the next one on are free, a string value made of an argument that
-- is UTF-8 gives those same bytes back, however many there are: the constructor returns a handle, the string accessor on that handle succeeds, and what it
-- lends to the caller through `out` is the argument.
pub as_string-new_string :
    {loro : Loro} (w : World loro) (text out : Ptr) (len : ℕ) (s : List ℕ)
    → Unspent w
    → StringArg w text len
    → string_argument w text len ≡ some s
    → out ≢ null_ptr
    → Returns
        (λ v w'. Returns (HandsOut w' out (some s)) (loro_value_as_string v out w'))
        (loro_value_new_string text len w)
unfolding loro_value_new_string box_value
as_string-new_string {loro} w text out len s u arg is out_ne = guarded _ (
    string_then w text len _ _ arg (λ e. absurd (none_not_some e is))
      λ t e. alloc_any w _ (
        subst
          (λ x.
            Returns (HandsOut (holding w t) out (some x))
              (loro_value_as_string w.next out (holding w t)))
          (some_eq e is)
          (payloads-HandsOut (holding w t) w.next out (LoroValue.string t) (Unspent-Fresh w _ u)
            (boxed t) out_ne).0))
  where
    boxed : (t : List ℕ) → Points (as_value loro) (holding w t) w.next (LoroValue.string t)
    boxed t = record {
      ne_null = u.ne_null;
      obj = value (LoroValue.string t);
      holds = update-same w.heap w.next _;
      typed = refl;
    }
