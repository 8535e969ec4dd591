-- ===== src/FractionalIndex.antt =====
-- loro-c-api/src/fractional_index.rs: the keys that order the children of a tree node.
use Prim.Native.Nat.{Ordering}
use loro_c.Base.{ℕ, ◌==◌, if◌then◌else◌, Option, none, some, List, ascii}
use loro_c.World.{Loro, Ptr, null_ptr, Obj, fractional_index, ByteVec, Call, integer_cell}
use loro_c.Error.{LoroStatus, loro_ok, loro_err_invalid_arg, loro_err_panic}
use loro_c.Abi.{
  Body, Entry, ◌>>=◌, ◌>>◌, ffi_guard, pure, fail, call, load, deref_or, require_out, write_out,
  into_raw, free_box,
}
use loro_c.Value.{write_bytes, to_vec}
use loro_c.Value.Json.{string_or_return, slice_or_return}
use loro_c.Version.Vector.{ordering_code}

-- loro::FractionalIndex.
pub record Indices (loro : Loro) : Type 0 where
  pub index_default : loro.FractionalIndex
  pub index_new :
      Option loro.FractionalIndex → Option loro.FractionalIndex → Call (Option loro.FractionalIndex)
  pub index_from_bytes : List ℕ → Call loro.FractionalIndex
  pub index_from_hex_string : List ℕ → Call loro.FractionalIndex
  pub index_as_bytes : loro.FractionalIndex → Call (List ℕ)
  pub index_to_string : loro.FractionalIndex → Call ByteVec
  pub index_cmp : loro.FractionalIndex → loro.FractionalIndex → Call Ordering

abbrev pub as_index : (loro : Loro) → Obj loro → Option loro.FractionalIndex
as_index loro (fractional_index i) = some i
as_index loro _ = none

abbrev no_index_between : List ℕ
no_index_between = ascii "no fractional index exists between the given bounds"

module _ {loro : Loro} where
  -- `unsafe { p.as_ref() }.map(|i| i.inner())`: null stands for no bound.
  unfoldable pub bound : Ptr → Body loro Ptr (Option loro.FractionalIndex)
  bound p = if p == null_ptr then pure none else (do i ← load (as_index loro) p; pure (some i))

  pub box_between : Option loro.FractionalIndex → Body loro Ptr Ptr
  box_between none = fail no_index_between null_ptr
  box_between (some i) = into_raw (fractional_index i)

  unfoldable pub loro_fractional_index_free : Ptr → Entry loro (Unit {0})
  loro_fractional_index_free p = ffi_guard tt (free_box (as_index loro) p)

  module _ (crate : Indices loro) where
    unfoldable pub loro_fractional_index_default : Entry loro Ptr
    loro_fractional_index_default =
        ffi_guard null_ptr (into_raw (fractional_index crate.index_default))

    pub loro_fractional_index_between : Ptr → Ptr → Entry loro Ptr
    loro_fractional_index_between lower upper =
        ffi_guard null_ptr
          do l ← bound lower; u ← bound upper; found ← call (crate.index_new l u); box_between found

    pub loro_fractional_index_from_bytes : Ptr → ℕ → Entry loro Ptr
    loro_fractional_index_from_bytes p len = ffi_guard null_ptr do
      bytes ← slice_or_return p len null_ptr
      i ← call (crate.index_from_bytes bytes)
      into_raw (fractional_index i)

    pub loro_fractional_index_from_string : Ptr → ℕ → Entry loro Ptr
    loro_fractional_index_from_string p len = ffi_guard null_ptr do
      s ← string_or_return p len null_ptr
      i ← call (crate.index_from_hex_string s)
      into_raw (fractional_index i)

    pub loro_fractional_index_to_bytes : Ptr → Ptr → Entry loro LoroStatus
    loro_fractional_index_to_bytes p out = ffi_guard loro_err_panic do
      i ← deref_or (as_index loro) p loro_err_invalid_arg
      require_out out loro_err_invalid_arg
      bytes ← call (crate.index_as_bytes i)
      write_bytes out (to_vec bytes)
      pure loro_ok

    pub loro_fractional_index_to_string : Ptr → Ptr → Entry loro LoroStatus
    loro_fractional_index_to_string p out = ffi_guard loro_err_panic do
      i ← deref_or (as_index loro) p loro_err_invalid_arg
      require_out out loro_err_invalid_arg
      text ← call (crate.index_to_string i)
      write_bytes out text
      pure loro_ok

    pub loro_fractional_index_compare : Ptr → Ptr → Ptr → Entry loro LoroStatus
    loro_fractional_index_compare a b out = ffi_guard loro_err_panic do
      x ← deref_or (as_index loro) a loro_err_invalid_arg
      y ← deref_or (as_index loro) b loro_err_invalid_arg
      require_out out loro_err_invalid_arg
      order ← call (crate.index_cmp x y)
      write_out out (integer_cell (ordering_code order))
      pure loro_ok
