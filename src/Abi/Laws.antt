-- ===== src/Abi/Laws.antt =====
-- What a C caller must provide, and how a call ends: the vocabulary of the theorems.
use loro_c.Base.{ℕ, ◌≡◌, refl, ◌≢◌, ◌≤◌, ◌⊎◌, Option, some, length}
use loro_c.World.{Loro, World, Ptr, null_ptr, Obj}
use loro_c.Error.{set_last_error}
use loro_c.Abi.{
  Step, go, exit, unwinds, undefined, Outcome, returned, undefined_behaviour, finish, panic_caught,
  Body, and_then,
}

module _ {loro : Loro} where
  -- `p` is the address of a live box whose content is `t`.
  pub record Points {T : Type 0} (unwrap : Obj loro → Option T) (w : World loro) (p : Ptr) (t : T)
      : Type 0 where
    pub ne_null : p ≢ null_ptr
    pub obj : Obj loro
    pub holds : w.heap p ≡ some obj
    pub typed : unwrap obj ≡ some t

  -- What every entry point accepts: the null pointer or a live box of the right type.
  abbrev pub NullOrLive : {T : Type 0} → (Obj loro → Option T) → World loro → Ptr → Type 0
  NullOrLive {T} unwrap w p = (p ≡ null_ptr) ⊎ ((t : T) × Points unwrap w p t)

  -- `len` bytes can be read at `p`.
  abbrev pub Readable : World loro → Ptr → ℕ → Type 0
  Readable w p len = len ≤ length (w.c_data p)

  -- How a step ends: `Q` of a value, `E` of an early return, `U` of a panic. `V` says whether
  -- undefined behaviour is let pass: `⊥` where the step must be defined, `Unit` where a statement
  -- is only about calls that return.
  pub data Ends {R A : Type 0} (V : Type 0) (E : R → World loro → Type 0) (U : World loro → Type 0)
      (Q : A → World loro → Type 0) : Step loro R A → Type 0 where
    goes : {a : A} {w : World loro} → Q a w → Ends V E U Q (go a w)
    exits : {r : R} {w : World loro} → E r w → Ends V E U Q (exit r w)
    unwinding : {w : World loro} → U w → Ends V E U Q (unwinds w)
    faults : V → Ends V E U Q undefined

  pub data Ensures {R : Type 0} (V : Type 0) (P : R → World loro → Type 0)
      : Outcome loro R → Type 0 where
    ensures : {r : R} {w : World loro} → P r w → Ensures V P (returned r w)
    faulty : V → Ensures V P undefined_behaviour

  -- The call is defined and returns, with a result and a world that satisfy `P`.
  abbrev pub Returns : {R : Type 0} → (R → World loro → Type 0) → Outcome loro R → Type 0
  Returns = Ensures ⊥

  -- If the call returns, its result and the world satisfy `P`.
  abbrev pub WhenReturns : {R : Type 0} → (R → World loro → Type 0) → Outcome loro R → Type 0
  WhenReturns = Ensures Unit

  abbrev pub AfterPanic : {R : Type 0} → (R → World loro → Type 0) → R → World loro → Type 0
  AfterPanic P fallback w = P fallback (set_last_error panic_caught w)

  -- The guard: a value, an early return and a caught panic all reach the caller.
  pub guarded :
      {R : Type 0} {V : Type 0} {P : R → World loro → Type 0} (fallback : R) {s : Step loro R R}
      → Ends V P (AfterPanic P fallback) P s
      → Ensures V P (finish fallback s)
  unfolding finish
  guarded fallback (goes h) = ensures h
  guarded fallback (exits h) = ensures h
  guarded fallback (unwinding h) = ensures h
  guarded fallback (faults h) = faulty h

-- The rule for sequence: what the first step must achieve is that the rest goes well.
pub bind :
    {loro : Loro} {R V A B : Type 0} {E : R → World loro → Type 0} {U : World loro → Type 0}
    {Q : B → World loro → Type 0} {s : Step loro R A} {k : A → Body loro R B}
    → Ends V E U (λ a w. Ends V E U Q (k a w)) s
    → Ends V E U Q (and_then s k)
unfolding and_then
bind (goes h) = h
bind (exits h) = exits h
bind (unwinding h) = unwinding h
bind (faults h) = faults h

-- The rest of a body, after a step that is known to go on.
pub after :
    {loro : Loro} {R A B : Type 0} {s : Step loro R A} {a : A} {w : World loro}
    (k : A → Body loro R B)
    → s ≡ go a w
    → and_then s k ≡ k a w
unfolding and_then
after k e = rw e refl
