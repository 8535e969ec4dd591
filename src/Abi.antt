-- ===== src/Abi.antt =====
-- loro-c-api/src/macros.rs: the body of an entry point as a command over the world, with early
-- return, panic and undefined behaviour, and the guard that stands round each body.
pub mod Contract
pub mod Laws
pub mod Memory
pub mod Replaced
pub mod WellFormed
pub mod Steps
use loro_c.Base.{
  ℕ, suc, ◌==◌, leb, if◌then◌else◌, Option, none, some, List, [], ◌∷◌, ◌++◌, ascii, length, take,
}
use loro_c.World.{
  Loro, World, Ptr, null_ptr, Obj, Cell, Event, Call, returns, panics, update, LoroError,
}
use loro_c.Error.{LoroStatus, set_last_error, record_loro_error}

-- `exit` is a `return` from inside the body, `unwinds` a Rust panic, `undefined` an access that
-- the language gives no meaning to (a dangling pointer, a double free).
pub data Step (loro : Loro) (R A : Type 0) : Type 0 where
  go : A → World loro → Step loro R A
  exit : R → World loro → Step loro R A
  unwinds : World loro → Step loro R A
  undefined : Step loro R A

-- What the C caller sees of a call.
pub data Outcome (loro : Loro) (R : Type 0) : Type 0 where
  returned : R → World loro → Outcome loro R
  undefined_behaviour : Outcome loro R

abbrev pub Body : Loro → Type 0 → Type 0 → Type 0
Body loro R A = World loro → Step loro R A

abbrev pub Entry : Loro → Type 0 → Type 0
Entry loro R = World loro → Outcome loro R

module _ {loro : Loro} {R A : Type 0} where
  abbrev pub pure : A → Body loro R A
  pure a w = go a w

  abbrev pub return : R → Body loro R A
  return r w = exit r w

module _ {loro : Loro} {R A B : Type 0} where
  unfoldable pub and_then : Step loro R A → (A → Body loro R B) → Step loro R B
  and_then (go a w) k = k a w
  and_then (exit r w) k = exit r w
  and_then (unwinds w) k = unwinds w
  and_then undefined k = undefined

  infixl 5 ◌>>=◌
  abbrev pub ◌>>=◌ : Body loro R A → (A → Body loro R B) → Body loro R B
  ◌>>=◌ m k w = and_then (m w) k

infixl 5 ◌>>◌
abbrev pub ◌>>◌ :
    {loro : Loro} {R B : Type 0} → Body loro R (Unit {0}) → Body loro R B → Body loro R B
m >> k = m >>= λ _. k

abbrev pub null_pointer : List ℕ
null_pointer = ascii "null pointer passed to loro-c-api"

abbrev pub null_out_pointer : List ℕ
null_out_pointer = ascii "null out pointer passed to loro-c-api"

abbrev pub panic_caught : List ℕ
panic_caught = ascii "panic caught at the loro-c-api FFI boundary"

module _ {loro : Loro} where
  unfoldable pub finish : {R : Type 0} → R → Step loro R R → Outcome loro R
  finish fallback (go r w) = returned r w
  finish fallback (exit r w) = returned r w
  finish fallback (unwinds w) = returned fallback (set_last_error panic_caught w)
  finish fallback undefined = undefined_behaviour

  -- `ffi_guard!`: a panic is caught, recorded, and becomes the fallback.
  abbrev pub ffi_guard : {R : Type 0} → R → Body loro R R → Entry loro R
  ffi_guard fallback body w = finish fallback (body w)

  module _ {R : Type 0} where
    unfoldable pub record_error : List ℕ → Body loro R (Unit {0})
    record_error msg w = go tt (set_last_error msg w)

    -- `set_last_error(msg); return r;`
    unfoldable pub fail : {A : Type 0} → List ℕ → R → Body loro R A
    fail msg r w = exit r (set_last_error msg w)

    -- A call into the crate `loro`.
    unfoldable pub call : {A : Type 0} → Call A → Body loro R A
    call (returns a) w = go a w
    call panics w = unwinds w

    -- A read through a non-null pointer; undefined where no live box of that type stands.
    unfoldable pub load : {T : Type 0} → (Obj loro → Option T) → Ptr → Body loro R T
    load unwrap p w = elim (w.heap p) [
      | none ↦ undefined
      | some o ↦ elim (unwrap o) [ none ↦ undefined | some t ↦ go t w ]
    ]

    -- A write of the box behind a pointer that has been read.
    unfoldable pub store : Ptr → Obj loro → Body loro R (Unit {0})
    store p o w = go tt (record w { heap = update w.heap p (some o) })

    -- `deref_or!`, and the same match on `as_mut` where the handle is written.
    unfoldable pub deref_or : {T : Type 0} → (Obj loro → Option T) → Ptr → R → Body loro R T
    deref_or unwrap p fallback w =
        if p == null_ptr then fail null_pointer fallback w else load unwrap p w

    -- `Box::into_raw(Box::new(..))`.
    unfoldable pub into_raw : Obj loro → Body loro R Ptr
    into_raw o w = go w.next (record w { heap = update w.heap w.next (some o); next = suc w.next })

    -- `drop(Box::from_raw(p))` under `if !p.is_null()`.
    unfoldable pub free_box : {T : Type 0} → (Obj loro → Option T) → Ptr → Body loro R (Unit {0})
    free_box unwrap p w =
        if p == null_ptr
        then go tt w
        else and_then (load unwrap p w) λ _ w'. go tt (record w' { heap = update w'.heap p none })

    -- `if out.is_null() { set_last_error(..); return r; }`.
    unfoldable pub require_out : Ptr → R → Body loro R (Unit {0})
    require_out out r w = if out == null_ptr then fail null_out_pointer r w else go tt w

    -- `out.write(..)`; undefined at null. Any other address is a variable of the caller, as the C API
    -- asks for it.
    unfoldable pub write_out : Ptr → Cell → Body loro R (Unit {0})
    write_out out c w =
        if out == null_ptr
        then undefined
        else go tt (record w { c_cell = update w.c_cell out (some c) })

    -- `slice::from_raw_parts`; undefined past what the caller has at that address.
    unfoldable pub slice_from_raw_parts : Ptr → ℕ → Body loro R (List ℕ)
    slice_from_raw_parts p len w =
        if leb len (length (w.c_data p)) then go (take len (w.c_data p)) w else undefined

    unfoldable pub emit : Event → Body loro R (Unit {0})
    emit e w = go tt (record w { trace = w.trace ++ e ∷ [] })

    -- `Err(e) => record_loro_error(&e)`, and with a null pointer for the result.
    unfoldable pub loro_error : LoroError → Body loro R LoroStatus
    loro_error e w = let (status, w') = record_loro_error e w in go status w'
