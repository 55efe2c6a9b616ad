-- ===== src/Runtime/Padding.antt =====
-- native_runtime_fields.go: `rsaEncryptPKCS1v15Exact`. A read of the entropy is answered by the number of
-- reads before it and the length asked for. The loop that redraws a zero byte runs on fuel.
pub mod Form
use qoder_model_gateway.Base.{
  ℕ, zero, suc, ◌+◌, ◌-◌, ◌*◌, ◌/◌, ◌%◌, ◌^◌, ◌≤◌, ◌<◌, ◌≡◌, refl, sym, ap, ◌∙◌, ◌≢◌, ◌↔◌, ◌⊎◌, inl,
  inr, Bool, true, false, not, ◌&&◌, ◌||◌, Option, none, some, List, [], ◌∷◌, ◌++◌, map, append-nil,
  append_assoc, arith, ltb, leb, ◌==◌, if◌then◌else◌, ltb→lt, lt→ltb, leb→le, ==_iff, Bool-cases,
  Option-cases, is_some, ◌>>=◌, length, get_elem?, take, drop, replicate, is_nil, get_last?,
  length-append, take-append-drop, length-take, length-drop, length-replicate, take-append_exact,
  drop-append_exact, All, All-append, Text, codes, text_eq, text_eq_iff, text_eq_refl, has_prefix,
  trim_prefix, has_prefix-append, has_suffix, trim_suffix, join, is_space, trim_left, trim_right,
  trim_space,
}
use qoder_model_gateway.Codec.Errors.{
  Kind, invalid_input, entropy_failure, backend_incompatible, Error, protocol, plain, Result, ok,
  err, then_do, normalize_host_dependency_error,
}

abbrev pub Entropy : Type 0
Entropy = ℕ → ℕ → Result Text

unfoldable pub backend_incompatible_error : Text → Error
backend_incompatible_error m =
    protocol backend_incompatible (codes "runtime fields backend is incompatible") (plain m)

abbrev pub entropy_error : Text → Error → Error
entropy_error action =
    normalize_host_dependency_error entropy_failure
      (codes "Secure protocol randomness is unavailable") action

-- `entropy.Read` into a slice of this length.
unfoldable pub read : Entropy → Text → ℕ → ℕ → Result Text
read e action k n = elim (e k n) [ err x ↦ err (entropy_error action x) | ok b ↦ ok b ]

abbrev pub redraw_action : Text
redraw_action = codes "redraw runtime RSA padding entropy"

abbrev pub first_byte : Text → ℕ
first_byte [] = 0
first_byte (c ∷ s) = c

-- The loop for one byte: the byte, and the number of reads made. `none` is the end of the fuel.
unfoldable pub redraw : Entropy → ℕ → ℕ → ℕ → Option (Result (ℕ × ℕ))
redraw e zero k (suc c) = some (ok (suc c, k))
redraw e zero k zero = none
redraw e (suc fuel) k (suc c) = some (ok (suc c, k))
redraw e (suc fuel) k zero = elim (read e redraw_action k 1) [
  | err x ↦ some (err x)
  | ok b ↦ redraw e fuel (suc k) (first_byte b)
]

unfoldable pub put_byte : ℕ → Option (Result (Text × ℕ)) → Option (Result (Text × ℕ))
put_byte c none = none
put_byte c (some (err x)) = some (err x)
put_byte c (some (ok t)) = some (ok (c ∷ t.0, t.1))

-- The loop over the padding.
unfoldable pub fill : Entropy → ℕ → ℕ → Text → Option (Result (Text × ℕ))
fill e fuel k [] = some (ok ([], k))
fill e fuel k (c ∷ s) = elim (redraw e fuel k c) [
  | none ↦ none
  | some (err x) ↦ some (err x)
  | some (ok t) ↦ put_byte t.0 (fill e fuel t.1 s)
]

unfoldable pub encoded_message : Text → Text → Text
encoded_message padding message = 0 ∷ 2 ∷ (padding ++ 0 ∷ message)

-- `big.Int.SetBytes`.
unfoldable pub set_bytes : Text → ℕ
set_bytes [] = 0
set_bytes (c ∷ s) = c * 256 ^ length s + set_bytes s

-- The public key: the modulus, the exponent, the size of the modulus in bytes, and the exponentiation of `math/big` with
-- `FillBytes`.
pub record PublicKey : Type 0 where
  pub modulus : ℕ
  pub exponent : ℕ
  pub size : ℕ
  pub exponentiate : ℕ → Text

unfoldable pub encrypt_encoded : PublicKey → Text → Result Text
encrypt_encoded p em =
    if leb p.modulus (set_bytes em)
    then err
        (backend_incompatible_error (codes "runtime RSA encoded message is not below the modulus"))
    else ok (p.exponentiate (set_bytes em))

unfoldable pub with_padding : Entropy → ℕ → ℕ → Text → Result Text → Option (Result Text)
with_padding e fuel k message (err x) = some (err x)
with_padding e fuel k message (ok padding) = elim (fill e fuel k padding) [
  | none ↦ none
  | some (err x) ↦ some (err x)
  | some (ok t) ↦ some (ok (encoded_message t.0 message))
]

-- The message with its padding, `k` being the number of reads made before.
unfoldable pub pad_message : Entropy → ℕ → ℕ → ℕ → Text → Option (Result Text)
pad_message e fuel k size message =
    if ltb size 11 || ltb (size - 11) (length message)
    then some (
        err (
          protocol invalid_input (codes "runtime fields input is invalid")
            (plain (codes "runtime RSA message byte length exceeds maximum"))))
    else with_padding e fuel (suc k) message
        (read e (codes "read runtime RSA padding entropy") k (size - length message - 3))

unfoldable pub rsa_encrypt_pkcs1_v15_exact :
    Entropy → ℕ → ℕ → PublicKey → Text → Option (Result Text)
rsa_encrypt_pkcs1_v15_exact e fuel k p message =
    if (p.modulus == 0) || leb p.exponent 1
    then some (err (backend_incompatible_error (codes "runtime RSA public key is invalid")))
    else pad_message e fuel k p.size message >>= λ r. some (then_do r (encrypt_encoded p))
