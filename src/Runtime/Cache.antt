-- ===== src/Runtime/Cache.antt =====
-- native_model_cache.go: the encrypted cache of models. HKDF and the two directions of AES-GCM are
-- parameters.
use qoder_model_gateway.Base.{
  ℕ, ◌+◌, ◌<◌, ◌≡◌, inl, inr, not, Option, some, [], ◌∷◌, ◌++◌, arith, ltb, ◌==◌, if◌then◌else◌,
  length, take, drop, length-append, take-append_exact, drop-append_exact, All-append, Text, codes,
  text_eq,
}
use mathlib.Core.Path.{subst}
use qoder_model_gateway.Codec.Errors.{
  invalid_input, backend_failure, backend_incompatible, Error, protocol, plain, Result, ok, err,
  then_do, of_option, Result-cases,
}
use qoder_model_gateway.Codec.Base64.{std_alphabet}
use qoder_model_gateway.Codec.Base64
use qoder_model_gateway.Codec.Base64.RoundTrip.{IsBytes}
use qoder_model_gateway.Codec.Credential.{check_context, decode_strict_std_base64}
use qoder_model_gateway.Codec.Credential.RoundTrip.{decode_strict-encode}

-- By key, nonce and text. `hkdf` is by the user's identifier.
pub record Gcm : Type 0 where
  pub hkdf : Text → Result Text
  pub seal : Text → Text → Text → Text
  pub unseal : Text → Text → Text → Option Text

abbrev pub qmc_v1_prefix : Text
qmc_v1_prefix = codes "QMC" ++ 1 ∷ []

abbrev pub qmc_nonce_size : ℕ
qmc_nonce_size = 12

abbrev pub qmc_tag_size : ℕ
qmc_tag_size = 16

unfoldable pub model_cache_incompatible : Text → Error
model_cache_incompatible m =
    protocol backend_incompatible (codes "model cache data is incompatible") (plain m)

unfoldable pub model_cache_failure : Text → Error
model_cache_failure m = protocol backend_failure (codes "model cache operation failed") (plain m)

unfoldable pub derive_model_cache_key : Gcm → Text → Result Text
derive_model_cache_key g uid = elim (g.hkdf uid) [
  | err e ↦ err (model_cache_failure (codes "derive model cache key"))
  | ok key ↦
      if length key == 32
      then ok key
      else err (model_cache_failure (codes "derived model cache key length"))
]

unfoldable pub decrypt_envelope : Gcm → Text → Text → Result Text
decrypt_envelope g uid envelope =
    if ltb (length envelope) (4 + qmc_nonce_size + qmc_tag_size)
    then err (model_cache_incompatible (codes "model cache envelope is too short"))
    else if not (text_eq (take 4 envelope) qmc_v1_prefix)
    then err
        (model_cache_incompatible (codes "model cache envelope magic or version is unsupported"))
    else then_do (derive_model_cache_key g uid) (λ key.
      of_option (model_cache_incompatible (codes "model cache envelope authentication failed")) (
        g.unseal key (take qmc_nonce_size (drop 4 envelope))
          (drop qmc_nonce_size (drop 4 envelope))))

unfoldable pub decrypt_qmc_v1 : Gcm → Text → Text → Result Text
decrypt_qmc_v1 g blob uid =
    then_do
      (of_option (model_cache_incompatible (codes "model cache envelope encoding is invalid"))
        (decode_strict_std_base64 blob))
      (decrypt_envelope g uid)

unfoldable pub decrypt : Gcm → Option Error → Text → Text → Result Text
decrypt g cancelation blob uid = check_context cancelation (decrypt_qmc_v1 g blob uid)

unfoldable pub envelope_of : Gcm → Text → Text → Text → Text
envelope_of g key text nonce = qmc_v1_prefix ++ (nonce ++ g.seal key nonce text)

unfoldable pub encrypt_qmc_v1 : Gcm → Text → Text → Text → Result Text
encrypt_qmc_v1 g text uid nonce =
    if length nonce == qmc_nonce_size
    then then_do (derive_model_cache_key g uid)
        (λ key. ok (Base64.encode std_alphabet (envelope_of g key text nonce)))
    else err (
        protocol invalid_input (codes "model cache input is invalid")
          (plain (codes "model cache nonce length")))

-- What AES-GCM promises.
pub record IsGcm (g : Gcm) : Type 0 where
  pub opens :
      (key nonce text : Text)
      → length key ≡ 32
      → length nonce ≡ 12
      → g.unseal key nonce (g.seal key nonce text) ≡ some text
  pub tagged : (key nonce text : Text) → length (g.seal key nonce text) ≡ length text + 16
  pub sealed_bytes : (key nonce text : Text) → IsBytes text → IsBytes (g.seal key nonce text)

length-envelope_of :
    (g : Gcm) (key text nonce : Text)
    → IsGcm g
    → length (envelope_of g key text nonce) ≡ 4 + (length nonce + (length text + 16))
unfolding envelope_of
length-envelope_of g key text nonce v =
    ground (arith, length-append nonce (g.seal key nonce text), v.tagged key nonce text)

decrypt_envelope-envelope_of :
    (g : Gcm) (uid key text nonce : Text)
    → IsGcm g
    → derive_model_cache_key g uid ≡ ok key
    → length key ≡ 32
    → length nonce ≡ 12
    → decrypt_envelope g uid (envelope_of g key text nonce) ≡ ok text
unfolding decrypt_envelope envelope_of text_eq
decrypt_envelope-envelope_of g uid key text nonce v d k n =
    let c = g.seal key nonce text in
    let front : take 12 (nonce ++ c) ≡ nonce =
      subst (λ x. take x (nonce ++ c) ≡ nonce) n (take-append_exact nonce c) in
    let back : drop 12 (nonce ++ c) ≡ c =
      subst (λ x. drop x (nonce ++ c) ≡ c) n (drop-append_exact nonce c) in
    ground
      (arith, length-envelope_of g key text nonce v, d, front, back, v.opens key nonce text k n)

derived : (g : Gcm) (uid key : Text) → derive_model_cache_key g uid ≡ ok key → length key ≡ 32
unfolding derive_model_cache_key
derived g uid key h = ground (arith, h)

envelope_of-IsBytes :
    (g : Gcm) (key text nonce : Text)
    → IsGcm g
    → IsBytes nonce
    → IsBytes text
    → IsBytes (envelope_of g key text nonce)
unfolding envelope_of
envelope_of-IsBytes g key text nonce v b t = (
  omega arith,
  (
    omega arith,
    (
      omega arith,
      (omega arith, All-append (λ c. c < 256) nonce _ b (v.sealed_bytes key nonce text t)),
    ),
  ),
)

encrypted :
    (g : Gcm) (text uid nonce blob : Text)
    → encrypt_qmc_v1 g text uid nonce ≡ ok blob
    → (key : Text) × (derive_model_cache_key g uid ≡ ok key)
      × (length nonce ≡ 12)
      × (blob ≡ Base64.encode std_alphabet (envelope_of g key text nonce))
unfolding encrypt_qmc_v1
encrypted g text uid nonce blob h = elim (Result-cases (derive_model_cache_key g uid)) [
  | inl (e, d) ↦ absurd (ground (arith, d, h))
  | inr (key, d) ↦ (key, d, ground (arith, d, h), ground (arith, d, h))
]

-- What bytes were put into a model cache for a user are read from it for the same user, for an AES-GCM that opens
-- what it sealed and adds sixteen bytes.
pub decrypt_qmc_v1-encrypt_qmc_v1 :
    (g : Gcm) (text uid nonce blob : Text)
    → IsGcm g
    → IsBytes nonce
    → IsBytes text
    → encrypt_qmc_v1 g text uid nonce ≡ ok blob
    → decrypt_qmc_v1 g blob uid ≡ ok text
unfolding decrypt_qmc_v1
decrypt_qmc_v1-encrypt_qmc_v1 g text uid nonce blob v b t h =
    let o = encrypted g text uid nonce blob h in
    let q = decrypt_envelope-envelope_of g uid o.0 text nonce v o.1 (derived g uid o.0 o.1) o.2 in
    rw
      (
        o.3,
        decode_strict-encode (envelope_of g o.0 text nonce)
            (envelope_of-IsBytes g o.0 text nonce v b t),
      )
      q
