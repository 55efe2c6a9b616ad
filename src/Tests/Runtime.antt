-- ===== src/Tests/Runtime.antt =====
-- Runs of the runtime fields and the model cache with concrete parameters.
use qoder_model_gateway.Base.{
  ℕ, zero, suc, ◌+◌, ◌*◌, ◌/◌, ◌%◌, ◌^◌, ◌<◌, ◌≡◌, refl, ap, ◌∙◌, true, some, [], ◌∷◌, ◌++◌, arith,
  length, drop, replicate, length-replicate, All-append, Text, codes,
}
use mathlib.Core.Path.{subst}
use native.Mathlib.Nat.{mul-add-div_right, div-eq_of_lt, mul-add-mod_self_right, mod-eq_of_lt}
use qoder_model_gateway.Codec.Errors.{ok}
use qoder_model_gateway.Codec.Base64.RoundTrip.{IsBytes}
use qoder_model_gateway.Codec.Base64.{std_alphabet}
use qoder_model_gateway.Codec.Base64
use qoder_model_gateway.Auth.User.{RuntimeFieldOutput}
use qoder_model_gateway.Runtime.Padding.{Entropy, PublicKey, set_bytes}
use qoder_model_gateway.Runtime.Padding.Form.{IsEntropy, set_bytes_bound}
use qoder_model_gateway.Runtime.Fields.{Surroundings, generate_values}
use qoder_model_gateway.Runtime.Fields.Receiver.{IsPrivate, receive_fields, generate_values-receive}
use qoder_model_gateway.Runtime.Cache.{
  Gcm, IsGcm, decrypt_qmc_v1, encrypt_qmc_v1, envelope_of, derive_model_cache_key,
  decrypt_qmc_v1-encrypt_qmc_v1,
}
use qoder_model_gateway.Tests.Codec.{bare, bare-IsBlockMode}

-- Entropy whose bytes are all 7.
abbrev sevens : ℕ → ℕ → Text
sevens k n = replicate n 7

sevens-IsBytes : (n : ℕ) → IsBytes (replicate n 7)
sevens-IsBytes zero = tt
sevens-IsBytes (suc n) = (omega arith, sevens-IsBytes n)

abbrev entropy : Entropy
entropy k n = ok (sevens k n)

sevens-IsEntropy : IsEntropy entropy 1 sevens
sevens-IsEntropy = record {
  gives = λ k n. refl;
  full = λ k n. length-replicate n 7;
  are_bytes = λ k n. sevens-IsBytes n;
  soon = λ k. (0, (omega arith, omega arith));
}

-- A key that encrypts nothing: the bytes of the number.
fill_bytes : ℕ → ℕ → Text
fill_bytes zero n = []
fill_bytes (suc k) n = n / 256 ^ k % 256 ∷ fill_bytes k (n % 256 ^ k)

fill_bytes-IsBytes : (k n : ℕ) → IsBytes (fill_bytes k n)
unfolding fill_bytes
fill_bytes-IsBytes zero n = tt
fill_bytes-IsBytes (suc k) n = (omega arith, fill_bytes-IsBytes k (n % 256 ^ k))

power_pos : (k : ℕ) → 0 < 256 ^ k
power_pos zero = omega arith
power_pos (suc k) = let h = power_pos k in ground (arith, h)

quotient : (c p v : ℕ) → 0 < p → v < p → (c * p + v) / p ≡ c
quotient c p v h l = mul-add-div_right h c v ∙ (ap (λ x. c + x) (div-eq_of_lt l) ∙ omega arith)

remainder : (c p v : ℕ) → 0 < p → v < p → (c * p + v) % p ≡ v
remainder c p v h l = mul-add-mod_self_right c p v ∙ mod-eq_of_lt l

fill_bytes-set_bytes : (s : Text) → IsBytes s → fill_bytes (length s) (set_bytes s) ≡ s
unfolding fill_bytes set_bytes
fill_bytes-set_bytes [] h = refl
fill_bytes-set_bytes (c ∷ s) h =
    let b = set_bytes_bound s h.1 in
    let p = power_pos (length s) in
    let lt : c < 256 = h.0 in
    rw
      (
        quotient c (256 ^ length s) (set_bytes s) p b,
        remainder c (256 ^ length s) (set_bytes s) p b,
        fill_bytes-set_bytes s h.1,
      )
      (ap (λ x. x ∷ s) (omega (arith, lt)))

abbrev public_key : PublicKey
public_key = record {
  modulus = 256 ^ 26;
  exponent = 65537;
  size = 27;
  exponentiate = λ n. fill_bytes 27 n;
}

public_key-IsPrivate : IsPrivate public_key some
public_key-IsPrivate = record {
  opens = λ em l b h.
      ap some (subst (λ n. fill_bytes n (set_bytes em) ≡ em) l (fill_bytes-set_bytes em h));
  are_bytes = λ n. fill_bytes-IsBytes 27 n;
  large = omega arith;
  exponent_valid = omega arith;
  full = omega arith;
}

abbrev surroundings : Surroundings
surroundings = record {
  is_utf8 = λ t. true;
  has_entropy = true;
  entropy = entropy;
  block_mode = bare;
  public_key = ok public_key;
  marshal_input = λ i. ok (codes "{}");
  marshal_output = λ o. ok (codes "{}");
  decode = λ t. record { opened = true; fields = []; is_closed = true; ended = true };
}

generate_values-receive_example :
    (o : RuntimeFieldOutput) × (generate_values surroundings 1 (codes "{\"uid\":1}") ≡ some (ok o))
    × (receive_fields some bare o ≡ some (codes "{\"uid\":1}"))
generate_values-receive_example =
    generate_values-receive surroundings 1 (codes "{\"uid\":1}") sevens public_key some refl
      (omega arith) refl sevens-IsEntropy bare-IsBlockMode refl public_key-IsPrivate

-- A cipher that writes sixteen bytes before the text.
abbrev gcm : Gcm
gcm = record {
  hkdf = λ uid. ok (replicate 32 1);
  seal = λ key nonce text. replicate 16 0 ++ text;
  unseal = λ key nonce c. some (drop 16 c);
}

gcm-IsGcm : IsGcm gcm
gcm-IsGcm = record {
  opens = λ key nonce text k n. refl;
  tagged = λ key nonce text. omega arith;
  sealed_bytes =
      λ key nonce text h. All-append (λ c. c < 256) (replicate 16 0) text (omega arith) h;
}

abbrev nonce : Text
nonce = replicate 12 9

abbrev blob : Text
blob = Base64.encode std_alphabet (envelope_of gcm (replicate 32 1) (codes "{}") nonce)

decrypt_qmc_v1-encrypt_qmc_v1_example : decrypt_qmc_v1 gcm blob (codes "u") ≡ ok (codes "{}")
unfolding encrypt_qmc_v1 derive_model_cache_key
decrypt_qmc_v1-encrypt_qmc_v1_example =
    decrypt_qmc_v1-encrypt_qmc_v1 gcm (codes "{}") (codes "u") nonce blob gcm-IsGcm (omega arith)
      (omega arith) refl
