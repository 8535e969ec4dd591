-- ===== src/Value/Args.antt =====
-- Rules for the argument conversions of loro-c-api/src/value.rs.
use loro_c.Base.{
  ℕ, zero, suc, ◌≤◌, length, ◌≡◌, refl, ◌≢◌, inl, inr, ◌==◌, ◌&&◌, not, false, Option, none, some,
  List, arith, take, Bool-cases, if◌then◌else◌,
}
use loro_c.World.{Loro, World, Ptr, null_ptr, ByteVec, LoroBytes, bytes_cell}
use loro_c.Error.{set_last_error}
use loro_c.Abi.{Body, and_then}
use loro_c.Abi.Laws.{Readable, Ends, goes, exits, bind}
use loro_c.Abi.Memory.{update-same}
use loro_c.Abi.Steps.{slice, record_any, alloc_any, write_any}
use loro_c.Value.{
  str_from_raw, or_return, bytes_or_empty, checked_utf8, null_string_pointer, not_utf8, from_vec,
  write_bytes,
}
use loro_c.Value.Utf8.{from_utf8}

-- A caller may pass the null pointer, with any length; behind another pointer the bytes are there.
abbrev pub StringArg : {loro : Loro} → World loro → Ptr → ℕ → Type 0
StringArg w p len = p ≢ null_ptr → Readable w p len

-- What `str_from_raw` makes of `len` bytes at `p`, and the message that it records otherwise.
abbrev pub string_argument : {loro : Loro} → World loro → Ptr → ℕ → Option (List ℕ)
string_argument w p len =
    if (p == null_ptr) && not (len == 0)
    then none
    else if from_utf8 (take len (w.c_data p))
    then some (take len (w.c_data p))
    else none

abbrev pub string_error : Ptr → ℕ → List ℕ
string_error p len = if (p == null_ptr) && not (len == 0) then null_string_pointer else not_utf8

module _ {loro : Loro} {R V : Type 0} {E : R → World loro → Type 0} {U : World loro → Type 0}
    (w : World loro) where
  pub or_return_any :
      {T : Type 0} {Q : T → World loro → Type 0} (o : Option T) (r : R)
      → (o ≡ none → E r w)
      → ((t : T) → o ≡ some t → Q t w)
      → Ends V E U Q (or_return o r w)
  unfolding or_return
  or_return_any none r n s = exits (n refl)
  or_return_any (some t) r n s = goes (s t refl)

  pub bytes :
      {Q : List ℕ → World loro → Type 0} (p : Ptr) (len : ℕ)
      → (len ≢ 0 → Readable w p len)
      → Q (take len (w.c_data p)) w
      → Ends {R = R} V E U Q (bytes_or_empty p len w)
  unfolding bytes_or_empty
  bytes p zero h q = goes q
  bytes p (suc n) h q = rw (suc_ne_zero n) (slice w p (suc n) (h (omega arith)) q)
    where
      suc_ne_zero : (n : ℕ) → (suc n == 0) ≡ false
      suc_ne_zero n = ground arith

  -- The conversion gives the bytes if they are UTF-8, and otherwise records why not.
  pub string_arg :
      {Q : Option (List ℕ) → World loro → Type 0} (p : Ptr) (len : ℕ)
      → StringArg w p len
      → (string_argument w p len ≡ none → Q none (set_last_error (string_error p len) w))
      → ((s : List ℕ) → string_argument w p len ≡ some s → Q (some s) w)
      → Ends {R = R} V E U Q (str_from_raw p len w)
  unfolding str_from_raw checked_utf8
  string_arg p len h bad is = elim (Bool-cases ((p == null_ptr) && not (len == 0))) [
    | inl e ↦ rw e (bind (record_any w _ (goes (rw e at (bad (rw e))))))
    | inr e ↦ rw e (
        bind (
          bytes p len (readable e) (elim (Bool-cases (from_utf8 (take len (w.c_data p)))) [
            | inl u ↦ rw u (goes (is _ (rw e (rw u))))
            | inr u ↦ rw u (bind (record_any w _ (goes (rw e at (bad (rw e (rw u)))))))
          ])))
  ]
    where
      readable : ((p == null_ptr) && not (len == 0)) ≡ false → len ≢ 0 → len ≤ length (w.c_data p)
      readable e ne = h (ground arith)

  -- `let s = match str_from_raw(..) { Some(s) => s, None => return r };`
  pub string_then :
      {B : Type 0} {Q : B → World loro → Type 0} (p : Ptr) (len : ℕ) (r : R)
      (k : List ℕ → Body loro R B)
      → StringArg w p len
      → (string_argument w p len ≡ none → E r (set_last_error (string_error p len) w))
      → ((s : List ℕ) → string_argument w p len ≡ some s → Ends V E U Q (k s w))
      → Ends V E U Q
          (and_then (str_from_raw p len w) (λ found w'. and_then (or_return found r w') k))
  unfolding or_return
  string_then p len r k arg bad is =
      bind (string_arg p len arg (λ e. bind (exits (bad e))) λ s e. bind (goes (is s e)))

  pub from_vec_any :
      {Q : LoroBytes → World loro → Type 0} (v : ByteVec)
      → ((b : LoroBytes) (w' : World loro) → Q b w')
      → Ends {R = R} V E U Q (from_vec v w)
  unfolding from_vec
  from_vec_any v q = elim (Bool-cases (v.capacity == 0)) [
    | inl e ↦ rw e (goes (q _ _))
    | inr e ↦ rw e (bind (alloc_any w _ (goes (q _ _))))
  ]

  -- For statements that say nothing of which bytes are written.
  pub write_bytes_any :
      {Q : Unit {0} → World loro → Type 0} (out : Ptr) (v : ByteVec)
      → out ≢ null_ptr
      → ((b : LoroBytes) (w' : World loro) → w'.c_cell out ≡ some (bytes_cell b) → Q tt w')
      → Ends {R = R} V E U Q (write_bytes out v w)
  unfolding write_bytes
  write_bytes_any out v ne q =
      bind (from_vec_any v λ b w'. write_any w' out _ ne (q b _ (update-same w'.c_cell out _)))
