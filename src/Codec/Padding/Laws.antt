-- ===== src/Codec/Padding/Laws.antt =====
-- PKCS#7 padding of native_codec_helpers.go is undone exactly, and only padded texts are accepted.
use qoder_model_gateway.Base.{
  ℕ, zero, suc, ◌+◌, ◌-◌, ◌%◌, ◌≤◌, ◌<◌, ◌≡◌, refl, sym, ap, ◌∙◌, inl, inr, true, some, [], ◌∷◌,
  ◌++◌, arith, Option-cases, ◌>>=◌, length, take, drop, replicate, length-append, take-append-drop,
  length-take, length-drop, length-replicate, take-append_exact, drop-append_exact, All-append,
  Text,
}
use mathlib.Core.Path.{subst, ap₂}
use native.Mathlib.Nat.{mod-lt, mod-add-mod, mod_self, mod-eq_of_lt, mod-eq-sub-mod}
use native.Mathlib.Decide.{dec_le, dec_lt}
use qoder_model_gateway.Codec.Base64.RoundTrip.{IsBytes}
use qoder_model_gateway.Codec.Padding.{
  pkcs7_pad, all_equal, last_byte, pkcs7_unpad, block_size, valid_key_and_iv, BlockMode,
  aes_cbc_encrypt, aes_cbc_decrypt,
}

last_byte-append_replicate : (s : Text) (n p : ℕ) → last_byte (s ++ replicate (suc n) p) ≡ p
unfolding last_byte
last_byte-append_replicate [] zero p = refl
last_byte-append_replicate [] (suc n) p = last_byte-append_replicate [] n p
last_byte-append_replicate (c ∷ []) n p = last_byte-append_replicate [] n p
last_byte-append_replicate (c ∷ d ∷ s) n p = last_byte-append_replicate (d ∷ s) n p

all_equal-replicate : (n p : ℕ) → all_equal p (replicate n p) ≡ true
unfolding all_equal
all_equal-replicate zero p = refl
all_equal-replicate (suc n) p = ground (arith, all_equal-replicate n p)

all_equal_lem : (p : ℕ) (s : Text) → all_equal p s ≡ true → s ≡ replicate (length s) p
unfolding all_equal
all_equal_lem p [] h = refl
all_equal_lem p (c ∷ s) h = ground (arith, all_equal_lem p s)

pad_length : (n b : ℕ) → 1 ≤ b → (n + (b - n % b)) % b ≡ 0
pad_length n b h =
    let lt : n % b < b = mod-lt n h in
    let e : n % b + (b - n % b) ≡ b = omega (arith, lt) in
    sym (mod-add-mod n b (b - n % b)) ∙ ap (λ k. k % b) e ∙ mod_self b

-- A whole number of blocks, less `p` bytes, wants `p` bytes of padding.
unpad_length : (n b p : ℕ) → 1 ≤ p → p ≤ b → p ≤ n → n % b ≡ 0 → b - (n - p) % b ≡ p
unpad_length n b p h le fits e =
    let whole : b ≤ n = elim (dec_le b n) [
      | yes k ↦ k
      | no k ↦ absurd (omega (arith, mod-eq_of_lt {n = n} {m = b} (omega arith)))
    ] in
    let less : (n - b) % b ≡ 0 = sym (mod-eq-sub-mod whole) ∙ e in
    let split : n - p ≡ n - b + (b - p) = omega arith in
    let sum : (n - p) % b ≡ (b - p) % b =
      ap (λ k. k % b) split
      ∙ (sym (mod-add-mod (n - b) b (b - p))
          ∙ ap (λ k. (k + (b - p)) % b) less
          ∙ ap (λ k. k % b) (omega arith)) in
    elim (dec_lt (b - p) b) [
      | yes k ↦ omega (arith, sum, mod-eq_of_lt k)
      | no k ↦ absurd (omega arith)
    ]

module _ (b : ℕ) (lo : 1 ≤ b) (hi : b ≤ 255) where
  -- Unpadding a padded text gives the text back, whatever its length.
  unpad_padded :
      (s : Text) (n : ℕ)
      → suc n ≤ b
      → (length s + suc n) % b ≡ 0
      → pkcs7_unpad (s ++ replicate (suc n) (suc n)) b ≡ some s
  unfolding pkcs7_unpad
  unpad_padded s n le e =
      let p = suc n in
      let len : length (s ++ replicate p p) ≡ length s + p =
        length-append s (replicate p p) ∙ ap (◌+◌ (length s)) (length-replicate p p) in
      let cut : length (s ++ replicate p p) - p ≡ length s = omega (arith, len) in
      rw
        (
          last_byte-append_replicate s n p,
          cut,
          drop-append_exact s (replicate p p),
          take-append_exact s (replicate p p),
          all_equal-replicate p p,
          len,
        )
        (ground (arith, e))

  unpad_bytes :
      (s : Text) (p : ℕ)
      → 1 ≤ p
      → p ≤ b
      → (length s + p) % b ≡ 0
      → pkcs7_unpad (s ++ replicate p p) b ≡ some s
  unpad_bytes s zero h le e = absurd (omega arith)
  unpad_bytes s (suc n) h le e = unpad_padded s n le e

  pad_result :
      (s : Text) → pkcs7_pad s b ≡ some (s ++ replicate (b - length s % b) (b - length s % b))
  unfolding pkcs7_pad
  pad_result s = ground (arith, lo, hi)

  -- Unpadding a padded text gives the text back, for every block size from 1 to 255.
  pub unpad-pad : (s : Text) → (pkcs7_pad s b >>= λ t. pkcs7_unpad t b) ≡ some s
  unpad-pad s =
      let lt : length s % b < b = mod-lt (length s) lo in
      rw (pad_result s) (
        unpad_bytes s (b - length s % b) (omega (arith, lt)) (omega arith)
          (pad_length (length s) b lo))

  -- The padded text is a whole number of blocks, and longer than the text.
  pub length-pad :
      (s t : Text) → pkcs7_pad s b ≡ some t → (length t % b ≡ 0) × (length s < length t)
  length-pad s t h =
      let p = b - length s % b in
      let lt : length s % b < b = mod-lt (length s) lo in
      let e : s ++ replicate p p ≡ t = cc (pad_result s) in
      let len : length t ≡ length s + p =
        ap length (sym e)
        ∙ (length-append s (replicate p p) ∙ ap (◌+◌ (length s)) (length-replicate p p)) in
      (ap (λ k. k % b) len ∙ pad_length (length s) b lo, omega (arith, len, lt))

  accepted :
      (t s : Text)
      → pkcs7_unpad t b ≡ some s
      → (length t % b ≡ 0)
        × (1 ≤ last_byte t)
        × (last_byte t ≤ b)
        × (last_byte t ≤ length t)
        × (all_equal (last_byte t) (drop (length t - last_byte t) t) ≡ true)
        × (take (length t - last_byte t) t ≡ s)
  unfolding pkcs7_unpad
  accepted t s h = ground arith

  -- For every block size from 1 to 255, what is accepted is the padding of what is returned.
  pub unpad_canonical : (t s : Text) → pkcs7_unpad t b ≡ some s → pkcs7_pad s b ≡ some t
  unpad_canonical t s h =
      let (aligned, pos, le, fits, same, body) = accepted t s h in
      let p = last_byte t in
      let k = length t - p in
      let len : length s ≡ k = sym (ap length body) ∙ omega (arith, length-take k t) in
      let pad : b - length s % b ≡ p =
        ap (λ x. b - x % b) len ∙ unpad_length (length t) b p pos le fits aligned in
      let tail : drop k t ≡ replicate p p =
        all_equal_lem p (drop k t) same
        ∙ ap (λ x. replicate x p) (length-drop k t ∙ omega (arith, fits)) in
      pad_result s
      ∙ ap some (
          ap (λ x. s ++ replicate x x) pad
          ∙ (ap₂ ◌++◌ (sym body) (sym tail) ∙ take-append-drop k t))

IsBytes-replicate : (n p : ℕ) → p < 256 → IsBytes (replicate n p)
IsBytes-replicate zero p h = tt
IsBytes-replicate (suc n) p h = (h, IsBytes-replicate n p h)

-- Padding a text of bytes gives bytes.
pub pad-IsBytes :
    (b : ℕ) → 1 ≤ b → b ≤ 255 → (s t : Text) → IsBytes s → pkcs7_pad s b ≡ some t → IsBytes t
pad-IsBytes b lo hi s t v h =
    let p = b - length s % b in
    let e : s ++ replicate p p ≡ t = cc (pad_result b lo hi s) in
    subst IsBytes e
      (All-append (λ (c : ℕ). c < 256) s (replicate p p) v (IsBytes-replicate p p (omega arith)))

-- The AES-CBC codec, over a block mode that keeps lengths and bytes and whose two directions are
-- inverse on whole blocks.
pub record IsBlockMode (m : BlockMode) : Type 0 where
  pub length-encrypt :
      (key iv s : Text)
      → valid_key_and_iv key iv ≡ true
      → length s % block_size ≡ 0
      → length (m.encrypt_blocks key iv s) ≡ length s
  pub encrypt-IsBytes :
      (key iv s : Text)
      → valid_key_and_iv key iv ≡ true
      → length s % block_size ≡ 0
      → IsBytes s
      → IsBytes (m.encrypt_blocks key iv s)
  pub decrypt-encrypt :
      (key iv s : Text)
      → valid_key_and_iv key iv ≡ true
      → length s % block_size ≡ 0
      → m.decrypt_blocks key iv (m.encrypt_blocks key iv s) ≡ s

-- Whatever is encrypted under a key and an initial vector of a legal length is decrypted to itself,
-- for a block mode that keeps lengths and whose directions are inverse.
pub decrypt-encrypt_cbc :
    (m : BlockMode) (plain key iv : Text)
    → IsBlockMode m
    → valid_key_and_iv key iv ≡ true
    → (aes_cbc_encrypt m plain key iv >>= λ c. aes_cbc_decrypt m c key iv) ≡ some plain
unfolding aes_cbc_encrypt aes_cbc_decrypt
decrypt-encrypt_cbc m plain key iv v h =
    let lo : 1 ≤ block_size = omega arith in
    let hi : block_size ≤ 255 = omega arith in
    let back = unpad-pad block_size lo hi plain in
    elim (Option-cases (pkcs7_pad plain block_size)) [
      | inl e ↦ ground (arith, back, e)
      | inr (t, e) ↦
          let (aligned, longer) = length-pad block_size lo hi plain t e in
          ground (
            arith,
            h,
            e,
            back,
            aligned,
            longer,
            v.length-encrypt key iv t h aligned,
            v.decrypt-encrypt key iv t h aligned,
          )
    ]
