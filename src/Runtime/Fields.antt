-- ===== src/Runtime/Fields.antt =====
-- native_runtime_fields.go: how the runtime fields of a user are made and read. UTF-8, AES-CBC, the pinned
-- key, the exponentiation and `encoding/json` are parameters.
pub mod Receiver
use qoder_model_gateway.Base.{
  ℕ, zero, suc, ◌+◌, ◌-◌, ◌*◌, ◌/◌, ◌%◌, ◌^◌, ◌≤◌, ◌<◌, ◌≡◌, refl, sym, ap, ◌∙◌, ◌≢◌, ◌↔◌, ◌⊎◌, inl,
  inr, Bool, true, false, not, ◌&&◌, ◌||◌, Option, none, some, List, [], ◌∷◌, ◌++◌, map, append-nil,
  append_assoc, arith, ltb, leb, ◌==◌, if◌then◌else◌, ltb→lt, lt→ltb, leb→le, ==_iff, Bool-cases,
  Option-cases, is_some, ◌>>=◌, length, get_elem?, take, drop, replicate, is_nil, get_last?,
  length-append, take-append-drop, length-take, length-drop, length-replicate, take-append_exact,
  drop-append_exact, All, All-append, Text, codes, text_eq, text_eq_iff, text_eq_refl, has_prefix,
  trim_prefix, has_prefix-append, has_suffix, trim_suffix, join, is_space, trim_left, trim_right,
  trim_space,
}
use qoder_model_gateway.Codec.Errors.{
  Kind, invalid_input, entropy_failure, backend_failure, Error, protocol, plain, wrapped, Result,
  ok, err, then_do, of_option, normalize_host_dependency_error, operation_failed,
}
use qoder_model_gateway.Codec.Base64.{std_alphabet}
use qoder_model_gateway.Codec.Base64
use qoder_model_gateway.Codec.Padding.{BlockMode, aes_cbc_encrypt}
use qoder_model_gateway.Codec.Uuid.{reverse_mask_uuid, runtime_ascii_key}
use qoder_model_gateway.Codec.Credential.{check_context}
use qoder_model_gateway.Auth.User.{RuntimeFieldInput, RuntimeFieldOutput}
use qoder_model_gateway.Runtime.Padding.{
  Entropy, read, PublicKey, backend_incompatible_error, rsa_encrypt_pkcs1_v15_exact,
}

-- What the decoder of `encoding/json` says of one field: its name, unless that is no string, and its
-- value, unless that is no string; a null counts as the empty string.
pub record JsonField : Type 0 where
  pub name : Option Text
  pub value : Option Text

-- The rest of what it says: whether the text begins with a brace, whether one ends the object, and
-- whether nothing follows.
pub record JsonObject : Type 0 where
  pub opened : Bool
  pub fields : List JsonField
  pub is_closed : Bool
  pub ended : Bool

-- `has_entropy` is whether the dependency is there.
pub record Surroundings : Type 0 where
  pub is_utf8 : Text → Bool
  pub has_entropy : Bool
  pub entropy : Entropy
  pub block_mode : BlockMode
  pub public_key : Result PublicKey
  pub marshal_input : RuntimeFieldInput → Result Text
  pub marshal_output : RuntimeFieldOutput → Result Text
  pub decode : Text → JsonObject

abbrev pub input_invalid : Text → Error
input_invalid m = protocol invalid_input (codes "runtime fields input is invalid") (plain m)

unfoldable pub backend_failure_error : Text → Error
backend_failure_error m =
    protocol backend_failure (codes "runtime fields operation failed") (plain m)

unfoldable pub output_failure : Text → Error
output_failure m = protocol backend_failure operation_failed (plain m)

-- The two values that were seen so far.
pub record Seen : Type 0 where
  pub info : Option Text
  pub key : Option Text

abbrev pub duplicate_field : Error
duplicate_field = output_failure (codes "runtime fields output has a duplicate field")

abbrev pub non_string_value : Error
non_string_value = output_failure (codes "runtime fields output has a non-string field value")

unfoldable pub read_info : Option Text → Seen → Result Seen
read_info value s =
    if is_some s.info
    then err duplicate_field
    else then_do (of_option non_string_value value) (λ v. ok (record s { info = some v }))

unfoldable pub read_key : Option Text → Seen → Result Seen
read_key value s =
    if is_some s.key
    then err duplicate_field
    else then_do (of_option non_string_value value) (λ v. ok (record s { key = some v }))

unfoldable pub read_field : JsonField → Seen → Result Seen
read_field f s = elim f.name [
  | none ↦ err (output_failure (codes "runtime fields output has a non-string field name"))
  | some n ↦
      if text_eq n (codes "encrypt_user_info")
      then read_info f.value s
      else if text_eq n (codes "key")
      then read_key f.value s
      else err (output_failure (codes "runtime fields output has an unknown field"))
]

unfoldable pub read_fields : List JsonField → Seen → Result Seen
read_fields [] s = ok s
read_fields (f ∷ fs) s = then_do (read_field f s) (read_fields fs)

unfoldable pub complete : Seen → Result RuntimeFieldOutput
complete s = elim s.info [
  | none ↦ err (output_failure (codes "runtime fields output is missing a required field"))
  | some i ↦ elim s.key [
    | none ↦ err (output_failure (codes "runtime fields output is missing a required field"))
    | some k ↦
        if is_nil i || is_nil k
        then err (output_failure (codes "runtime fields output has an empty field"))
        else ok (record { encrypt_user_info = i; key = k })
  ]
]

unfoldable pub end_object : JsonObject → Seen → Result RuntimeFieldOutput
end_object o s =
    if not o.is_closed
    then err (output_failure (codes "runtime fields output object is incomplete"))
    else if not o.ended
    then err (output_failure (codes "runtime fields output has trailing data"))
    else complete s

unfoldable pub decode_runtime_field_output :
    (Text → Bool) → (Text → JsonObject) → Text → Result RuntimeFieldOutput
decode_runtime_field_output is_utf8 decode raw =
    if not (is_utf8 raw)
    then err (output_failure (codes "runtime fields output is not valid UTF-8"))
    else (let o = decode raw in
        if o.opened
        then then_do (read_fields o.fields (record { info = none; key = none })) (end_object o)
        else err (output_failure (codes "runtime fields output is not an object")))

-- The two encoded values, before they become an object.
unfoldable pub output_of : Text → Text → RuntimeFieldOutput
output_of ciphertext encrypted_key = record {
  encrypt_user_info = Base64.encode std_alphabet ciphertext;
  key = Base64.encode std_alphabet encrypted_key;
}

-- The encryption under the key that sixteen bytes of entropy give. `none` is the end of the fuel.
unfoldable pub encrypt_fields : Surroundings → ℕ → Text → Text → Option (Result RuntimeFieldOutput)
encrypt_fields w fuel raw random =
    let key = runtime_ascii_key (reverse_mask_uuid random) in
    elim (aes_cbc_encrypt w.block_mode raw key key) [
      | none ↦ some (err (backend_failure_error (codes "encrypt runtime user info")))
      | some ciphertext ↦ elim w.public_key [
        | err e ↦ some (err e)
        | ok p ↦ rsa_encrypt_pkcs1_v15_exact w.entropy fuel 1 p key >>= λ r.
            some (then_do r (λ k. ok (output_of ciphertext k)))
      ]
    ]

abbrev pub first_read : Surroundings → Result Text
first_read w = elim (w.entropy 0 16) [
  | ok b ↦ ok b
  | err e ↦ err (
      normalize_host_dependency_error entropy_failure
        (codes "Secure protocol randomness is unavailable") (codes "read runtime UUID entropy") e)
]

unfoldable pub with_random :
    Surroundings → ℕ → Text → Result Text → Option (Result RuntimeFieldOutput)
with_random w fuel raw (err e) = some (err e)
with_random w fuel raw (ok b) = encrypt_fields w fuel raw b

unfoldable pub generate_values : Surroundings → ℕ → Text → Option (Result RuntimeFieldOutput)
generate_values w fuel raw =
    if not (w.is_utf8 raw)
    then some (err (input_invalid (codes "runtime fields raw input is not valid UTF-8")))
    else if not w.has_entropy
    then some
        (err (backend_incompatible_error (codes "runtime fields entropy dependency is missing")))
    else with_random w fuel raw (first_read w)

-- `generateNativeRuntimeFieldsRaw` is `generate_values` and the printing of its object.
unfoldable pub print_values : Surroundings → RuntimeFieldOutput → Result Text
print_values w o = elim (w.marshal_output o) [
  | ok t ↦ ok t
  | err e ↦ err (backend_failure_error (codes "marshal runtime fields output"))
]

unfoldable pub generate_raw : Surroundings → Option Error → ℕ → Text → Option (Result Text)
generate_raw w cancelation fuel raw = elim cancelation [
  | some e ↦ some (err e)
  | none ↦ generate_values w fuel raw >>= λ r. some (then_do r (print_values w))
]

-- `Generate`, which asks the context twice whether it is done.
unfoldable pub generate :
    Surroundings → (ℕ → Option Error) → ℕ → RuntimeFieldInput → Option (Result RuntimeFieldOutput)
generate w cancelation fuel input = elim (cancelation 0) [
  | some e ↦ some (err e)
  | none ↦ elim (w.marshal_input input) [
    | err e ↦ some (err (input_invalid (codes "marshal typed runtime fields input")))
    | ok raw ↦ generate_raw w (cancelation 1) fuel raw >>= λ r.
        some (then_do r (decode_runtime_field_output w.is_utf8 w.decode))
  ]
]
