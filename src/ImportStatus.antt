-- ===== src/ImportStatus.antt =====
-- loro-c-api/src/import_status.rs: the span maps that an import returns.
pub mod Laws
use loro_c.Base.{ℕ, Bool, true, false, Option, none, some, List, map, ascii, length, get_elem?}
use loro_c.Base.Int.{ℤ}
use loro_c.World.{
  Loro, Ptr, null_ptr, Obj, LoroImportStatus, LoroPeerCounterSpan, import_status, peer_span_cell,
}
use loro_c.Abi.{
  Entry, Body, ◌>>=◌, ◌>>◌, ffi_guard, pure, fail, deref_or, require_out, write_out, into_raw,
  free_box,
}

-- loro::VersionRange, in the order of its iterator, and loro::ImportStatus.
abbrev pub VersionRange : Type 0
VersionRange = List (ℕ × ℤ × ℤ)

pub record ImportStatus : Type 0 where
  pub success : VersionRange
  pub pending : Option VersionRange

abbrev success_out_of_range : List ℕ
success_out_of_range = ascii "import status success index out of range"

abbrev pending_out_of_range : List ℕ
pending_out_of_range = ascii "import status pending index out of range"

abbrev pub as_import_status : (loro : Loro) → Obj loro → Option LoroImportStatus
as_import_status loro (import_status s) = some s
as_import_status loro _ = none

pub range_to_vec : VersionRange → List LoroPeerCounterSpan
range_to_vec = map (λ e. record { peer = e.0; start = e.1; end = e.2 })

abbrev pub map_option : Option VersionRange → Option (List LoroPeerCounterSpan)
map_option none = none
map_option (some r) = some (range_to_vec r)

-- `map_or(0, |p| p.len())` and `and_then(|p| p.get(index))`.
abbrev pub len_or_zero : Option (List LoroPeerCounterSpan) → ℕ
len_or_zero none = 0
len_or_zero (some p) = length p

abbrev pub get_of : Option (List LoroPeerCounterSpan) → ℕ → Option LoroPeerCounterSpan
get_of none index = none
get_of (some p) index = get_elem? p index

abbrev is_some : Option (List LoroPeerCounterSpan) → Bool
is_some none = false
is_some (some _) = true

abbrev pub status_of : ImportStatus → LoroImportStatus
status_of s = record { success = range_to_vec s.success; pending = map_option s.pending }

module _ {loro : Loro} where
  -- The module's own `into_raw`.
  unfoldable pub box_status : {R : Type 0} → ImportStatus → Body loro R Ptr
  box_status s = into_raw (import_status (status_of s))

  pub loro_import_status_success_len : Ptr → Entry loro ℕ
  loro_import_status_success_len p =
      ffi_guard 0 do s ← deref_or (as_import_status loro) p 0; pure (length s.success)

  pub write_entry : Option LoroPeerCounterSpan → List ℕ → Ptr → Body loro Bool Bool
  write_entry none msg out = fail msg false
  write_entry (some e) msg out = do write_out out (peer_span_cell e); pure true

  pub loro_import_status_success_at : Ptr → ℕ → Ptr → Entry loro Bool
  loro_import_status_success_at p index out = ffi_guard false do
    s ← deref_or (as_import_status loro) p false
    require_out out false
    write_entry (get_elem? s.success index) success_out_of_range out

  unfoldable loro_import_status_has_pending : Ptr → Entry loro Bool
  loro_import_status_has_pending p =
      ffi_guard false do s ← deref_or (as_import_status loro) p false; pure (is_some s.pending)

  pub loro_import_status_pending_len : Ptr → Entry loro ℕ
  loro_import_status_pending_len p =
      ffi_guard 0 do s ← deref_or (as_import_status loro) p 0; pure (len_or_zero s.pending)

  pub loro_import_status_pending_at : Ptr → ℕ → Ptr → Entry loro Bool
  loro_import_status_pending_at p index out = ffi_guard false do
    s ← deref_or (as_import_status loro) p false
    require_out out false
    write_entry (get_of s.pending index) pending_out_of_range out

  unfoldable pub loro_import_status_free : Ptr → Entry loro (Unit {0})
  loro_import_status_free p = ffi_guard tt (free_box (as_import_status loro) p)
