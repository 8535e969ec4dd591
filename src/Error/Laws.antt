-- ===== src/Error/Laws.antt =====
-- What the last-error slot guarantees: a message is never lost and is a C string.
use loro_c.Base.{ℕ, ◌≡◌, refl, ap, ◌≢◌, false, some, List, [], ◌∷◌, suc, arith, length}
use loro_c.World.{Loro, World, LoroError, LoroEncodeError}
use loro_c.World.{LoroError}
use loro_c.Error.{
  replace_nul, has_nul, c_string_new, set_last_error, loro_last_error_message, discriminant,
  record_loro_error, record_encode_error, error_status, encode_error_status,
}

pub replace_nul-clean : (msg : List ℕ) → has_nul (replace_nul msg) ≡ false
unfolding replace_nul has_nul
replace_nul-clean [] = refl
replace_nul-clean (c ∷ cs) = ground (arith, replace_nul-clean cs)

length-replace_nul : (msg : List ℕ) → length (replace_nul msg) ≡ length msg
unfolding replace_nul
length-replace_nul [] = refl
length-replace_nul (c ∷ cs) = ap suc (length-replace_nul cs)

loro_error_positive : (e : LoroError) → discriminant (error_status e) ≢ 0
unfolding error_status discriminant
loro_error_positive LoroError.decode_version_vector_error = omega arith
loro_error_positive _ = omega arith

encode_error_positive : (e : LoroEncodeError) → discriminant (encode_error_status e) ≢ 0
unfolding encode_error_status discriminant
encode_error_positive (LoroEncodeError.encode_decode_error t) = omega arith
encode_error_positive (LoroEncodeError.other_encode_error t) = omega arith

module _ {loro : Loro} where
  -- After a message is recorded, the thread's last error is that message with each interior nul
  -- replaced by a space: a C string of the same length, never the default that stands for a
  -- message which no C string can hold.
  pub message-set_last_error :
      (msg : List ℕ) (w : World loro)
      → (loro_last_error_message (set_last_error msg w) ≡ some (replace_nul msg))
        × (has_nul (replace_nul msg) ≡ false)
        × (length (replace_nul msg) ≡ length msg)
  unfolding loro_last_error_message set_last_error c_string_new
  message-set_last_error msg w =
      (rw (replace_nul-clean msg), replace_nul-clean msg, length-replace_nul msg)

  pub last_error-set_last_error :
      (msg : List ℕ) (w : World loro) → (set_last_error msg w).last_error ≡ some (replace_nul msg)
  unfolding set_last_error c_string_new
  last_error-set_last_error msg w = rw (replace_nul-clean msg) refl

  -- Mapping an error of the crate `loro`, of either kind, never gives the code of success, and it
  -- records the error's own text, so a caller that sees the status can read what happened.
  pub errors_reported :
      (e : LoroError) (f : LoroEncodeError) (w : World loro)
      → ((discriminant (record_loro_error e w).0 ≢ 0)
          × (loro_last_error_message (record_loro_error e w).1
              ≡ some (replace_nul (loro.error_text e))))
        × (discriminant (record_encode_error f w).0 ≢ 0)
        × (loro_last_error_message (record_encode_error f w).1
            ≡ some (replace_nul (loro.encode_error_text f)))
  unfolding record_loro_error record_encode_error
  errors_reported e f w = (
    (loro_error_positive e, (message-set_last_error (loro.error_text e) w).0),
    encode_error_positive f,
    (message-set_last_error (loro.encode_error_text f) w).0,
  )
