-- ===== src/Runtime/Fields/Receiver.antt =====
-- Who has the private key reads what the runtime fields (native_runtime_fields.go) were made from.
use qoder_model_gateway.Base.{
  ℕ, ◌-◌, ◌^◌, ◌≤◌, ◌<◌, ◌≡◌, true, Option, some, arith, ◌>>=◌, length, Text,
}
use qoder_model_gateway.Codec.Errors.{ok}
use qoder_model_gateway.Codec.Base64.RoundTrip.{IsBytes}
use qoder_model_gateway.Codec.Credential.{decode_strict_std_base64}
use qoder_model_gateway.Codec.Credential.RoundTrip.{decode_strict-encode, ciphertext}
use qoder_model_gateway.Codec.Padding.{BlockMode, aes_cbc_decrypt}
use qoder_model_gateway.Codec.Padding.Laws.{IsBlockMode}
use qoder_model_gateway.Codec.Uuid.{reverse_mask_uuid, runtime_ascii_key}
use qoder_model_gateway.Codec.Uuid.Format.{length-runtime_ascii_key, runtime_ascii_key-IsBytes}
use qoder_model_gateway.Auth.User.{RuntimeFieldOutput}
use qoder_model_gateway.Runtime.Padding.{PublicKey, set_bytes}
use qoder_model_gateway.Runtime.Padding.Form.{IsEntropy, receive, rsa_encrypt_pkcs1_v15_exact_lem}
use qoder_model_gateway.Runtime.Fields.{
  Surroundings, output_of, encrypt_fields, with_random, generate_values,
}

-- The receiver: it opens the key with its private key, takes the padding off, and decrypts the rest.
unfoldable pub receive_fields : (Text → Option Text) → BlockMode → RuntimeFieldOutput → Option Text
receive_fields rsa_open m o = decode_strict_std_base64 o.key >>= λ sealed. rsa_open sealed >>= λ em.
    receive em >>= λ key.
    decode_strict_std_base64 o.encrypt_user_info >>= λ c. aes_cbc_decrypt m c key key

-- The private key belongs to the public one.
pub record IsPrivate (p : PublicKey) (rsa_open : Text → Option Text) : Type 0 where
  pub opens :
      (em : Text)
      → length em ≡ p.size
      → set_bytes em < p.modulus
      → IsBytes em
      → rsa_open (p.exponentiate (set_bytes em)) ≡ some em
  pub are_bytes : (n : ℕ) → IsBytes (p.exponentiate n)
  pub large : 27 ≤ p.size
  pub exponent_valid : 1 < p.exponent
  pub full : 256 ^ (p.size - 1) ≤ p.modulus

-- Runtime fields are always made, and who has the private key reads the input from them: for entropy that
-- gives bytes, one of them not zero within the fuel, a block mode that is its own inverse, and an input
-- of bytes in UTF-8.
pub generate_values-receive :
    (w : Surroundings) (fuel : ℕ) (raw : Text) (bytes : ℕ → ℕ → Text) (p : PublicKey)
    (rsa_open : Text → Option Text)
    → w.is_utf8 raw ≡ true
    → IsBytes raw
    → w.has_entropy ≡ true
    → IsEntropy w.entropy fuel bytes
    → IsBlockMode w.block_mode
    → w.public_key ≡ ok p
    → IsPrivate p rsa_open
    → (o : RuntimeFieldOutput) × (generate_values w fuel raw ≡ some (ok o))
      × (receive_fields rsa_open w.block_mode o ≡ some raw)
unfolding generate_values with_random encrypt_fields receive_fields output_of
generate_values-receive w fuel raw bytes p rsa_open u b has v m k priv =
    let random = bytes 0 16 in
    let key = runtime_ascii_key (reverse_mask_uuid random) in
    let len = length-runtime_ascii_key random (v.full 0 16) in
    let (c, given, aligned, nonempty, c_bytes, back) = ciphertext w.block_mode m raw key b len in
    let (em, done, read, size, below, em_bytes) =
      rsa_encrypt_pkcs1_v15_exact_lem w.entropy fuel 1 bytes p key v
        (runtime_ascii_key-IsBytes random (v.are_bytes 0 16)) (omega (arith, len, priv.large))
        priv.full priv.exponent_valid in
    let sealed = p.exponentiate (set_bytes em) in
    (
      output_of c sealed,
      ground (arith, u, has, v.gives 0 16, given, k, done),
      ground (
        arith,
        decode_strict-encode sealed (priv.are_bytes (set_bytes em)),
        priv.opens em size below em_bytes,
        read,
        decode_strict-encode c c_bytes,
        back,
      ),
    )
