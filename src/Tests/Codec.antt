-- ===== src/Tests/Codec.antt =====
-- Runs of the codecs.
use qoder_model_gateway.Base.{◌≡◌, refl, true, none, some, [], ◌∷◌, ◌++◌, arith, Text, codes}
use qoder_model_gateway.Codec.Body.{encode, decode}
use qoder_model_gateway.Codec.Body.RoundTrip.{decode-encode}
use qoder_model_gateway.Codec.Padding.{pkcs7_pad, pkcs7_unpad, last_byte, all_equal, BlockMode}
use qoder_model_gateway.Codec.Padding.Laws.{IsBlockMode, unpad_canonical}
use qoder_model_gateway.Codec.Uuid.{reverse_mask_uuid, format_lower_uuid}
use qoder_model_gateway.Codec.Uuid.Format.{IsUuid, format-reverse_mask}
use qoder_model_gateway.Codec.Errors.{ok, then_do}
use qoder_model_gateway.Codec.Credential.{encrypt, decrypt}
use qoder_model_gateway.Codec.Credential.RoundTrip.{decrypt-encrypt}

decode-encode_example : decode (encode (codes "{\"a\":1}")) ≡ some (codes "{\"a\":1}")
decode-encode_example = decode-encode (codes "{\"a\":1}") (omega arith)

decode_hi : decode (encode (codes "hi")) ≡ some (codes "hi")
decode_hi = decode-encode (codes "hi") (omega arith)

pad_hi : pkcs7_pad (codes "hi") 4 ≡ some (codes "hi" ++ 2 ∷ 2 ∷ [])
unfolding pkcs7_pad
pad_hi = refl

unpad_hi : pkcs7_unpad (codes "hi" ++ 2 ∷ 2 ∷ []) 4 ≡ some (codes "hi")
unfolding pkcs7_unpad last_byte all_equal
unpad_hi = refl

unpad_canonical_example : pkcs7_pad (codes "hi") 4 ≡ some (codes "hi" ++ 2 ∷ 2 ∷ [])
unpad_canonical_example =
    unpad_canonical 4 (omega arith) (omega arith) (codes "hi" ++ 2 ∷ 2 ∷ []) (codes "hi") unpad_hi

abbrev raw : Text
raw = codes "0123456789abcdef"

format-reverse_mask_example : IsUuid (format_lower_uuid (reverse_mask_uuid raw))
format-reverse_mask_example = format-reverse_mask raw refl (omega arith)

-- The block mode that changes nothing.
abbrev pub bare : BlockMode
bare = record { encrypt_blocks = λ key iv s. s; decrypt_blocks = λ key iv s. s }

pub bare-IsBlockMode : IsBlockMode bare
bare-IsBlockMode = record {
  length-encrypt = λ key iv s v h. refl;
  encrypt-IsBytes = λ key iv s v h b. b;
  decrypt-encrypt = λ key iv s v h. refl;
}

decrypt-encrypt_example :
    then_do (encrypt bare none (codes "hi") raw) (λ blob. decrypt bare (λ t. true) none blob raw)
    ≡ ok (codes "hi")
decrypt-encrypt_example =
    decrypt-encrypt bare bare-IsBlockMode (λ t. true) (codes "hi") raw
      (omega arith, (omega arith, tt)) refl refl
