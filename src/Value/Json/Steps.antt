-- ===== src/Value/Json/Steps.antt =====
-- A rule for each idiom of Value/Json: what it gives, and how it ends otherwise.
use loro_c.Base.{
  length, leb, ap, sym, ◌≤◌, ℕ, ◌≡◌, ◌≢◌, refl, ◌==◌, ◌&&◌, not, take, true, false, Bool-cases, inl,
  inr, Option, none, some, List, arith, Result, ok, err,
}
use loro_c.World.{
  Loro, World, Ptr, null_ptr, ByteVec, LoroValue, Obj, Call, returns, panics, update,
}
use loro_c.Error.{loro_err_panic, loro_ok, set_last_error}
use loro_c.Abi.{go, deref_or, pure, slice_from_raw_parts, call, fail, and_then}
use loro_c.Abi.Replaced.{Replaced}
use loro_c.Abi.Laws.{AfterPanic, Points, NullOrLive, Readable, Ends, goes, exits, unwinding, bind}
use loro_c.Abi.Steps.{
  deref, out_any, write_any, fail_any, record_any, call_any, store_any, is_null, not_null, ne_null,
  load-live, load_any,
}
use loro_c.Abi.Contract.{Writes, failed, writes, unwritten}
use loro_c.Value.{bytes_or_empty, or_return}
use loro_c.Value.Args.{
  StringArg, string_argument, string_error, string_arg, or_return_any, bytes, write_bytes_any,
}
use loro_c.Value.Json.{
  parsed, value_from_json, value_or_return, string_or_return, slice_or_return, borrowed_or, mutate,
  write_serialized, write_value_json, null_data_pointer,
}

module _ {loro : Loro} {R V : Type 0} {E : R → World loro → Type 0} {U : World loro → Type 0}
    (w : World loro) where
  pub string_or :
      {Q : List ℕ → World loro → Type 0} (p : Ptr) (len : ℕ) (r : R)
      → StringArg w p len
      → (string_argument w p len ≡ none → E r (set_last_error (string_error p len) w))
      → ((s : List ℕ) → string_argument w p len ≡ some s → Q s w)
      → Ends V E U Q (string_or_return p len r w)
  unfolding string_or_return or_return
  string_or p len r arg bad is =
      bind (string_arg w p len arg (λ e. exits (bad e)) λ s e. goes (is s e))

  pub slice_or :
      {Q : List ℕ → World loro → Type 0} (p : Ptr) (len : ℕ) (r : R)
      → StringArg w p len
      → E r (set_last_error null_data_pointer w)
      → ((s : List ℕ) → Q s w)
      → Ends V E U Q (slice_or_return p len r w)
  unfolding slice_or_return
  slice_or p len r arg bad q = elim (Bool-cases ((p == null_ptr) && not (len == 0))) [
    | inl e ↦ rw e (fail_any w _ _ bad)
    | inr e ↦ rw e (bytes w p len (λ ne. arg (apart e ne)) (q _))
  ]
    where
      apart : ((p == null_ptr) && not (len == 0)) ≡ false → len ≢ 0 → p ≢ null_ptr
      apart e ne = ground arith

  module _ {T : Type 0} {Q : T → World loro → Type 0} (unwrap : Obj loro → Option T) where
    pub borrowed :
        (message : List ℕ) (p : Ptr) (r : R)
        → NullOrLive unwrap w p
        → (p ≡ null_ptr → E r (set_last_error message w))
        → ((t : T) → Points unwrap w p t → Q t w)
        → Ends V E U Q (borrowed_or unwrap message p r w)
    unfolding borrowed_or fail
    borrowed message p r (inl e) null live = rw (is_null p e) (exits (null e))
    borrowed message p r (inr (t, l)) null live =
        rw (not_null p l.ne_null) (rw (load-live unwrap w p l) (goes (live t l)))

  pub mutate_any :
      {T A : Type 0} {Q : A → World loro → Type 0} (wrap : T → Obj loro) (p : Ptr) (m : T × Call A)
      → U (record w { heap = update w.heap p (some (wrap m.0)) })
      → ((a : A) → Q a (record w { heap = update w.heap p (some (wrap m.0)) }))
      → Ends V E U Q (mutate wrap p m w)
  unfolding mutate
  mutate_any wrap p (t, c) u q = bind (store_any w p _ (call_any _ c u q))

  -- The JSON argument: parsed, or refused with a message.
  pub value_or :
      {Q : LoroValue loro.ContainerId → World loro → Type 0} (p : Ptr) (len : ℕ) (r : R)
      → StringArg w p len
      → ((message : List ℕ) → E r (set_last_error message w))
      → ((v : LoroValue loro.ContainerId)
          → loro.value_from_json_slice (take len (w.c_data p)) ≡ ok v
          → Q v w)
      → Ends V E U Q (value_or_return p len r w)
  unfolding value_or_return value_from_json or_return parsed
  value_or {Q} p len r arg bad good = elim (Bool-cases ((p == null_ptr) && not (len == 0))) [
    | inl e ↦ rw e (bind (bind (record_any w _ (goes (exits (bad _))))))
    | inr e ↦ rw e (bind (bind (bytes w p len (λ ne. arg (apart e ne)) (split _ refl))))
  ]
    where
      apart : ((p == null_ptr) && not (len == 0)) ≡ false → len ≢ 0 → p ≢ null_ptr
      apart e ne = ground arith

      split :
          (o : Result (LoroValue loro.ContainerId) (List ℕ))
          → loro.value_from_json_slice (take len (w.c_data p)) ≡ o
          → Ends V E U
              (λ v w'. Ends V E U Q (or_return v r w'))
              (parsed (loro.value_from_json_slice (take len (w.c_data p))) w)
      split (ok v) e = rw e (goes (goes (good v e)))
      split (err x) e = rw e (bind (record_any w _ (goes (exits (bad _)))))

module _ {loro : Loro} {U : World loro → Type 0} (w : World loro) where
  pub serialized_any :
      (made : Result ByteVec (List ℕ)) (message : List ℕ → List ℕ) (out : Ptr)
      → out ≢ null_ptr
      → Ends ⊥ (Writes w out) U (Writes w out) (write_serialized made message out w)
  unfolding write_serialized
  serialized_any (ok b) message out ne =
      bind (write_bytes_any w out b ne λ _ _ e. goes (writes ne e))
  serialized_any (err e) message out ne = fail_any w _ _ (inr (failed w _))

  pub value_json_any :
      (out : Ptr) (v : LoroValue loro.ContainerId)
      → out ≢ null_ptr
      → Ends ⊥ (Writes w out) U (Writes w out) (write_value_json out v w)
  unfolding write_value_json
  value_json_any out v ne = serialized_any _ _ out ne

-- Equations for arguments that are known.
module _ {loro : Loro} {R : Type 0} (w : World loro) (p : Ptr) where
  pub deref_or-live :
      {T : Type 0} (unwrap : Obj loro → Option T) (r : R) {t : T}
      → Points unwrap w p t
      → deref_or unwrap p r w ≡ go t w
  unfolding deref_or
  deref_or-live unwrap r l = rw (not_null p l.ne_null) (load-live unwrap w p l)

  pub borrowed_or-live :
      {T : Type 0} (unwrap : Obj loro → Option T) (message : List ℕ) (r : R) {t : T}
      → Points unwrap w p t
      → borrowed_or unwrap message p r w ≡ go t w
  unfolding borrowed_or
  borrowed_or-live unwrap message r l = rw (not_null p l.ne_null) (load-live unwrap w p l)

  module _ (len : ℕ) (ne : p ≢ null_ptr) (readable : Readable w p len) where
    bytes-read : bytes_or_empty {R = R} p len w ≡ go (take len (w.c_data p)) w
    unfolding bytes_or_empty slice_from_raw_parts
    bytes-read = elim (Bool-cases (len == 0)) [
      | inl e ↦ rw e (ap (λ n. go (take n (w.c_data p)) w) (sym (zero_eq len e)))
      | inr e ↦ rw e (rw (fits len (length (w.c_data p)) readable) refl)
    ]
      where
        zero_eq : (n : ℕ) → (n == 0) ≡ true → n ≡ 0
        zero_eq n e = ground arith

        fits : (a b : ℕ) → a ≤ b → leb a b ≡ true
        fits a b h = ground arith

    pub value_or_return-parsed :
        (r : R) (v : LoroValue loro.ContainerId)
        → loro.value_from_json_slice (take len (w.c_data p)) ≡ ok v
        → value_or_return p len r w ≡ go v w
    unfolding value_or_return value_from_json parsed or_return and_then
    value_or_return-parsed r v e = rw (not_null p ne) (rw bytes-read (rw e refl))

module _ {loro : Loro} (w : World loro) where
  -- A method that answers nothing, and the status that follows.
  pub mutated :
      {T : Type 0} (wrap : T → Obj loro) (p : Ptr) (m : T × Call (Unit {0}))
      → Ends ⊥
          (Replaced w p (wrap m.0) m.1)
          (AfterPanic (Replaced w p (wrap m.0) m.1) loro_err_panic)
          (Replaced w p (wrap m.0) m.1)
          (and_then (mutate wrap p m w) (λ _. pure loro_ok))
  unfolding mutate call
  mutated wrap p (t, returns a) = bind (bind (store_any w p _ (goes (goes (refl, refl)))))
  mutated wrap p (t, panics) = bind (bind (store_any w p _ (unwinding (refl, refl))))

-- What proves that a query keeps the contract, step by step.
pub ruleset contract_rules = (
  bind, deref, borrowed, out_any, call_any, fail_any, string_or, slice_or, value_or,
  write_bytes_any, write_any, serialized_any, value_json_any, goes, failed, writes, unwritten,
)
