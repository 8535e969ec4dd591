-- ===== src/Abi/Replaced.antt =====
-- What a call that only runs a method of the crate `loro` on one box leaves behind.
use loro_c.Base.{◌≡◌, some}
use loro_c.World.{Loro, World, Ptr, Obj, Call, returns, panics, update}
use loro_c.Error.{LoroStatus, loro_ok, loro_err_panic, set_last_error}
use loro_c.Abi.{panic_caught}

-- The status of an operation that only calls a method with no result.
abbrev pub status_of_call : Call (Unit {0}) → LoroStatus
status_of_call (returns _) = loro_ok
status_of_call panics = loro_err_panic

-- A panic of the crate is caught by the guard, which records it as the last error.
abbrev pub settled : {loro : Loro} → Call (Unit {0}) → World loro → World loro
settled (returns _) w = w
settled panics w = set_last_error panic_caught w

-- The box at `p` holds `o`, and nothing else of the world changed but, after a panic, the last error.
abbrev pub Replaced :
    {loro : Loro} → World loro → Ptr → Obj loro → Call (Unit {0}) → LoroStatus → World loro → Type 0
Replaced w p o c status w' =
    (status ≡ status_of_call c) × (w' ≡ settled c (record w { heap = update w.heap p (some o) }))
