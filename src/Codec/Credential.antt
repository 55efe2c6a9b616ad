-- ===== src/Codec/Credential.antt =====
-- native_credential.go: the credential text, encrypted by AES-CBC under the machine key and printed in
-- base64. The block mode of `crypto/aes` and `utf8.Valid` are parameters; the error of the request's
-- context is an argument.
pub mod RoundTrip
use qoder_model_gateway.Base.{
  ℕ, zero, suc, ◌+◌, ◌-◌, ◌*◌, ◌/◌, ◌%◌, ◌^◌, ◌≤◌, ◌<◌, ◌≡◌, refl, sym, ap, ◌∙◌, ◌≢◌, ◌↔◌, ◌⊎◌, inl,
  inr, Bool, true, false, not, ◌&&◌, ◌||◌, Option, none, some, List, [], ◌∷◌, ◌++◌, map, append-nil,
  append_assoc, arith, ltb, leb, ◌==◌, if◌then◌else◌, ltb→lt, lt→ltb, leb→le, ==_iff, Bool-cases,
  Option-cases, is_some, ◌>>=◌, length, get_elem?, take, drop, replicate, is_nil, get_last?,
  length-append, take-append-drop, length-take, length-drop, length-replicate, take-append_exact,
  drop-append_exact, All, All-append, Text, codes, text_eq, text_eq_iff, text_eq_refl, has_prefix,
  trim_prefix, has_prefix-append, has_suffix, trim_suffix, join, is_space, trim_left, trim_right,
  trim_space,
}
use qoder_model_gateway.Codec.Base64.{std_alphabet, has_line_break}
use qoder_model_gateway.Codec.Base64
use qoder_model_gateway.Codec.Padding.{BlockMode, aes_cbc_encrypt, aes_cbc_decrypt, block_size}
use qoder_model_gateway.Codec.Errors.{
  Kind, invalid_input, backend_incompatible, backend_failure, Error, protocol, plain, Result, ok,
  err, then_do, of_option,
}

-- native_codec_helpers.go: `decodeStrictStdBase64`.
unfoldable pub decode_strict_std_base64 : Text → Option Text
decode_strict_std_base64 value =
    if has_line_break value
    then none
    else (Base64.decode std_alphabet value >>= λ decoded.
        if text_eq (Base64.encode std_alphabet decoded) value then some decoded else none)

abbrev pub input_error : Error
input_error = protocol invalid_input (codes "credential input is invalid") (plain [])

unfoldable pub incompatible : Text → Error
incompatible internal =
    protocol backend_incompatible (codes "credential data is incompatible") (plain internal)

unfoldable pub failure : Text → Error
failure internal = protocol backend_failure (codes "credential operation failed") (plain internal)

unfoldable pub native_credential_key : Text → Result Text
native_credential_key key = if length key == block_size then ok key else err input_error

-- `ctx.Err()`, which comes before all else.
abbrev pub check_context {ℓ} : {A : Type ℓ} → Option Error → Result A → Result A
check_context none r = r
check_context (some e) r = err e

module _ (m : BlockMode) where
  unfoldable pub encrypt : Option Error → Text → Text → Result Text
  encrypt ctx text machine_key = check_context ctx (
      then_do (native_credential_key machine_key) λ key.
        then_do (of_option (failure (codes "encrypt")) (aes_cbc_encrypt m text key key))
          λ c. ok (Base64.encode std_alphabet c))

  unfoldable pub check_blocks : Text → Result Text
  check_blocks c =
      if length c == 0
      then err (incompatible (codes "empty"))
      else if not (length c % block_size == 0)
      then err (incompatible (codes "not block aligned"))
      else ok c

  unfoldable pub decrypt : (Text → Bool) → Option Error → Text → Text → Result Text
  decrypt utf8_valid ctx blob machine_key = check_context ctx (
      then_do (native_credential_key machine_key) λ key.
        then_do (of_option (incompatible (codes "decode")) (decode_strict_std_base64 blob)) λ c.
          then_do (check_blocks c) λ aligned.
            then_do (of_option (incompatible (codes "decrypt")) (aes_cbc_decrypt m aligned key key))
              λ t. if utf8_valid t then ok t else err (incompatible (codes "not UTF-8")))
