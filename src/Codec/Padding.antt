-- ===== src/Codec/Padding.antt =====
-- native_codec_helpers.go: PKCS#7 padding, the checks of an AES-CBC key, and the AES-CBC codec over
-- it. The block cipher of `crypto/aes` is a parameter; `none` is an error.
pub mod Laws
use qoder_model_gateway.Base.{
  ℕ, zero, suc, ◌+◌, ◌-◌, ◌*◌, ◌/◌, ◌%◌, ◌^◌, ◌≤◌, ◌<◌, ◌≡◌, refl, sym, ap, ◌∙◌, ◌≢◌, ◌↔◌, ◌⊎◌, inl,
  inr, Bool, true, false, not, ◌&&◌, ◌||◌, Option, none, some, List, [], ◌∷◌, ◌++◌, map, append-nil,
  append_assoc, arith, ltb, leb, ◌==◌, if◌then◌else◌, ltb→lt, lt→ltb, leb→le, ==_iff, Bool-cases,
  Option-cases, is_some, ◌>>=◌, length, get_elem?, take, drop, replicate, is_nil, get_last?,
  length-append, take-append-drop, length-take, length-drop, length-replicate, take-append_exact,
  drop-append_exact, All, All-append, Text, codes, text_eq, text_eq_iff, text_eq_refl, has_prefix,
  trim_prefix, has_prefix-append, has_suffix, trim_suffix, join, is_space, trim_left, trim_right,
  trim_space,
}

-- The overflow test of the source cannot fail for a slice that exists.
unfoldable pub pkcs7_pad : Text → ℕ → Option Text
pkcs7_pad src block_size =
    if ltb block_size 1 || ltb 255 block_size
    then none
    else let padding_len = block_size - length src % block_size in
      some (src ++ replicate padding_len padding_len)

unfoldable pub all_equal : ℕ → Text → Bool
all_equal p [] = true
all_equal p (c ∷ s) = (c == p) && all_equal p s

-- The last byte; the input is not empty where it is read.
unfoldable pub last_byte : Text → ℕ
last_byte [] = 0
last_byte (c ∷ []) = c
last_byte (c ∷ d ∷ s) = last_byte (d ∷ s)

unfoldable pub pkcs7_unpad : Text → ℕ → Option Text
pkcs7_unpad src block_size =
    let n = length src in
    let padding_len = last_byte src in
    let start = n - padding_len in
    if ltb block_size 1 || ltb 255 block_size
    then none
    else if n == 0
    then none
    else if not (n % block_size == 0)
    then none
    else if (padding_len == 0) || (ltb block_size padding_len || ltb n padding_len)
    then none
    else if all_equal padding_len (drop start src)
    then some (take start src)
    else none

abbrev pub block_size : ℕ
block_size = 16

unfoldable pub valid_key_and_iv : Text → Text → Bool
valid_key_and_iv key iv =
    ((length key == 16) || ((length key == 24) || (length key == 32))) && (length iv == block_size)

-- `cipher.NewCBCEncrypter` and `NewCBCDecrypter` with `CryptBlocks`: key, initial vector, blocks.
pub record BlockMode : Type 0 where
  pub encrypt_blocks : Text → Text → Text → Text
  pub decrypt_blocks : Text → Text → Text → Text

unfoldable pub aes_cbc_encrypt : BlockMode → Text → Text → Text → Option Text
aes_cbc_encrypt m plain key iv =
    if valid_key_and_iv key iv
    then (pkcs7_pad plain block_size >>= λ padded. some (m.encrypt_blocks key iv padded))
    else none

unfoldable pub aes_cbc_decrypt : BlockMode → Text → Text → Text → Option Text
aes_cbc_decrypt m ciphertext key iv =
    if not (valid_key_and_iv key iv)
    then none
    else if length ciphertext == 0
    then none
    else if not (length ciphertext % block_size == 0)
    then none
    else pkcs7_unpad (m.decrypt_blocks key iv ciphertext) block_size
