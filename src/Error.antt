-- ===== src/Error.antt =====
-- loro-c-api/src/error.rs: status codes, the thread's last-error slot, and the mapping of errors.
pub mod Laws
use loro_c.Base.{
  ℕ, ◌==◌, if◌then◌else◌, Bool, true, false, ◌||◌, Option, none, some, List, [], ◌∷◌, map,
}
use loro_c.World.{Loro, LoroError, LoroEncodeError, World}

pub data LoroStatus : Type 0 where
  loro_ok loro_err_invalid_arg loro_err_not_found loro_err_decode loro_err_encode : LoroStatus
  loro_err_utf8 loro_err_panic loro_err_other : LoroStatus

-- The discriminants of the C enum.
unfoldable pub discriminant : LoroStatus → ℕ
discriminant loro_ok = 0
discriminant loro_err_invalid_arg = 1
discriminant loro_err_not_found = 2
discriminant loro_err_decode = 3
discriminant loro_err_encode = 4
discriminant loro_err_utf8 = 5
discriminant loro_err_panic = 6
discriminant loro_err_other = 7

-- `msg.replace('\0', " ")`.
pub replace_nul : List ℕ → List ℕ
replace_nul [] = []
replace_nul (c ∷ cs) = (if c == 0 then 32 else c) ∷ replace_nul cs

pub has_nul : List ℕ → Bool
has_nul [] = false
has_nul (c ∷ cs) = c == 0 || has_nul cs

-- `CString::new`: refuses an interior nul.
pub c_string_new : List ℕ → Option (List ℕ)
c_string_new bytes = if has_nul bytes then none else some bytes

abbrev or_default : Option (List ℕ) → List ℕ
or_default none = []
or_default (some bytes) = bytes

unfoldable pub error_status : LoroError → LoroStatus
error_status LoroError.decode_version_vector_error = loro_err_decode
error_status (LoroError.decode_error _) = loro_err_decode
error_status LoroError.decode_data_corruption_error = loro_err_decode
error_status LoroError.decode_checksum_mismatch_error = loro_err_decode
error_status (LoroError.incompatible_future_encoding_error _) = loro_err_decode
error_status (LoroError.not_found_error _) = loro_err_not_found
error_status (LoroError.frontiers_not_found _) = loro_err_not_found
error_status (LoroError.arg_err _) = loro_err_invalid_arg
error_status (LoroError.out_of_bound _) = loro_err_invalid_arg
error_status (LoroError.other_error _) = loro_err_other

unfoldable pub encode_error_status : LoroEncodeError → LoroStatus
encode_error_status (LoroEncodeError.encode_decode_error _) = loro_err_decode
encode_error_status (LoroEncodeError.other_encode_error _) = loro_err_encode

module _ {loro : Loro} where
  unfoldable pub set_last_error : List ℕ → World loro → World loro
  unfolding c_string_new replace_nul has_nul
  set_last_error msg w = record w {
    last_error = some (or_default (c_string_new (replace_nul msg)));
  }

  unfoldable clear_last_error : World loro → World loro
  clear_last_error w = record w { last_error = none }

  -- The C string that is returned, or `none` for the null pointer.
  unfoldable pub loro_last_error_message : World loro → Option (List ℕ)
  loro_last_error_message w = w.last_error

  unfoldable pub record_loro_error : LoroError → World loro → LoroStatus × World loro
  record_loro_error e w = (error_status e, set_last_error (loro.error_text e) w)

  unfoldable pub record_encode_error : LoroEncodeError → World loro → LoroStatus × World loro
  record_encode_error e w = (encode_error_status e, set_last_error (loro.encode_error_text e) w)
