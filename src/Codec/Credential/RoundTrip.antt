-- ===== src/Codec/Credential/RoundTrip.antt =====
-- The credential codec of native_credential.go gives back what it encrypted.
use qoder_model_gateway.Base.{
  ◌%◌, ◌≤◌, ◌<◌, ◌≡◌, refl, ap, ◌∙◌, ◌≢◌, inl, inr, Bool, true, none, some, arith, Option-cases,
  length, Text, text_eq_refl,
}
use qoder_model_gateway.Codec.Base64.{std_alphabet, has_line_break}
use qoder_model_gateway.Codec.Base64
use qoder_model_gateway.Codec.Base64.RoundTrip.{
  IsAlphabet, IsBytes, checked-IsAlphabet, all_below, finds, avoids,
}
use qoder_model_gateway.Codec.Base64.RoundTrip
use qoder_model_gateway.Codec.Base64.Clean.{
  IsUnbroken, unbroken, checked-IsUnbroken, encode-IsClean, IsClean-has_line_break,
}
use qoder_model_gateway.Codec.Padding.{
  BlockMode, aes_cbc_encrypt, aes_cbc_decrypt, block_size, valid_key_and_iv, pkcs7_pad,
}
use qoder_model_gateway.Codec.Padding.Laws.{
  IsBlockMode, decrypt-encrypt_cbc, unpad-pad, length-pad, pad-IsBytes,
}
use qoder_model_gateway.Codec.Errors.{ok, err, then_do}
use qoder_model_gateway.Codec.Credential.{
  decode_strict_std_base64, native_credential_key, input_error, encrypt, check_blocks, decrypt,
}

std-IsAlphabet : IsAlphabet std_alphabet
unfolding all_below finds avoids Base64.index Base64.digit Base64.index_from Base64.letter_at
std-IsAlphabet = checked-IsAlphabet std_alphabet refl refl

std-IsUnbroken : IsUnbroken std_alphabet
unfolding all_below unbroken Base64.digit Base64.letter_at
std-IsUnbroken = checked-IsUnbroken std_alphabet refl refl

-- Strict base64 reads what was printed.
pub decode_strict-encode :
    (s : Text) → IsBytes s → decode_strict_std_base64 (Base64.encode std_alphabet s) ≡ some s
unfolding decode_strict_std_base64
decode_strict-encode s h =
    rw
      (
        IsClean-has_line_break _ (encode-IsClean std_alphabet std-IsUnbroken s h),
        RoundTrip.decode-encode std_alphabet std-IsAlphabet s h,
        text_eq_refl (Base64.encode std_alphabet s),
      )
      refl

module _ (m : BlockMode) (v : IsBlockMode m) where
  -- What the encryption of a credential gives.
  pub ciphertext :
      (text key : Text)
      → IsBytes text
      → length key ≡ block_size
      → (c : Text) × (aes_cbc_encrypt m text key key ≡ some c)
        × (length c % block_size ≡ 0)
        × (0 < length c)
        × IsBytes c
        × (aes_cbc_decrypt m c key key ≡ some text)
  unfolding aes_cbc_encrypt
  ciphertext text key w h =
      let lo : 1 ≤ block_size = omega arith in
      let hi : block_size ≤ 255 = omega arith in
      let legal : valid_key_and_iv key key ≡ true = unfold valid_key_and_iv in ground (arith, h) in
      let back = unpad-pad block_size lo hi text in
      let whole = decrypt-encrypt_cbc m text key key v legal in
      elim (Option-cases (pkcs7_pad text block_size)) [
        | inl e ↦ absurd (ground (arith, back, e))
        | inr (t, e) ↦
            let (aligned, longer) = length-pad block_size lo hi text t e in
            let len = v.length-encrypt key key t legal aligned in
            let given : aes_cbc_encrypt m text key key ≡ some (m.encrypt_blocks key key t) =
              ground (arith, legal, e) in
            (
              m.encrypt_blocks key key t,
              given,
              ap (λ k. k % block_size) len ∙ aligned,
              omega (arith, len, longer),
              v.encrypt-IsBytes key key t legal aligned (pad-IsBytes block_size lo hi text t w e),
              ground (arith, given, whole),
            )
      ]

  -- A credential of bytes that are valid UTF-8 is decrypted from its encryption under the same machine
  -- key of sixteen bytes, for a block mode that keeps lengths and bytes and whose directions are inverse.
  pub decrypt-encrypt :
      (utf8_valid : Text → Bool) (text machine_key : Text)
      → IsBytes text
      → length machine_key ≡ block_size
      → utf8_valid text ≡ true
      → then_do
          (encrypt m none text machine_key)
          (λ blob. decrypt m utf8_valid none blob machine_key)
        ≡ ok text
  unfolding encrypt decrypt native_credential_key check_blocks
  decrypt-encrypt utf8_valid text key w h u =
      let (c, given, aligned, nonempty, bytes, back) = ciphertext text key w h in
      ground (arith, h, u, given, aligned, nonempty, back, decode_strict-encode c bytes)

-- A machine key of another length is refused before anything else is looked at, both ways.
pub machine_key_length :
    (m : BlockMode) (utf8_valid : Text → Bool) (text blob machine_key : Text)
    → length machine_key ≢ block_size
    → (encrypt m none text machine_key ≡ err input_error)
      × (decrypt m utf8_valid none blob machine_key ≡ err input_error)
unfolding encrypt decrypt native_credential_key
machine_key_length m utf8_valid text blob key h = (ground (arith, h), ground (arith, h))
