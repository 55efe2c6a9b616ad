-- ===== src/Codec/Uuid/Format.antt =====
-- The identifiers of native_uuid.go have the form of a random UUID.
use qoder_model_gateway.Base.{
  ℕ, zero, suc, ◌+◌, ◌/◌, ◌%◌, ◌<◌, ◌≡◌, refl, ap, ◌∙◌, Bool, true, false, ◌&&◌, ◌||◌, Option, none,
  some, [], ◌∷◌, ◌++◌, arith, ltb, leb, ◌==◌, length, get_elem?, take, drop, length-append,
  length-take, All, All-append, Text,
}
use mathlib.Core.List.{reverse, reverse-cons}
use qoder_model_gateway.Codec.Base64.RoundTrip.{all_below, all_below_sound, IsBytes}
use qoder_model_gateway.Codec.Uuid.{
  adjust, version_bits, variant_bits, reverse_mask_uuid, hex_digit, hex, hyphen, format_lower_uuid,
  runtime_ascii_key,
}

length-adjust : (i : ℕ) (f : ℕ → ℕ) (s : Text) → length (adjust i f s) ≡ length s
unfolding adjust
length-adjust i f [] = refl
length-adjust zero f (c ∷ s) = refl
length-adjust (suc i) f (c ∷ s) = ap suc (length-adjust i f s)

length-reverse : (s : Text) → length (reverse s) ≡ length s
length-reverse [] = refl
length-reverse (c ∷ s) =
    omega
      (arith, ap length (reverse-cons c s), length-append (reverse s) (c ∷ []), length-reverse s)

All-reverse : (s : Text) → IsBytes s → IsBytes (reverse s)
All-reverse [] h = tt
All-reverse (c ∷ s) h =
    rw (reverse-cons c s)
      (All-append (λ x. x < 256) (reverse s) (c ∷ []) (All-reverse s h.1) (h.0, tt))

length-hex : (s : Text) → length (hex s) ≡ length s + length s
unfolding hex
length-hex [] = omega arith
length-hex (c ∷ s) = omega (arith, length-hex s)

abbrev version_ok : ℕ → Bool
version_ok c = version_bits c / 16 == 4

abbrev variant_ok : ℕ → Bool
variant_ok c = (variant_bits c / 64 == 2) && ltb (variant_bits c) 256

version_table : all_below 256 version_ok ≡ true
unfolding all_below version_bits
version_table = refl

variant_table : all_below 256 variant_ok ≡ true
unfolding all_below variant_bits
variant_table = refl

abbrev pub is_variant_digit : Option ℕ → Bool
is_variant_digit none = false
is_variant_digit (some c) = (c == b'8') || ((c == b'9') || ((c == b'a') || (c == b'b')))

abbrev pub is_hex_digit : ℕ → Bool
is_hex_digit c = (leb b'0' c && leb c b'9') || (leb b'a' c && leb c b'f')

-- All but the hyphens.
unfoldable pub groups : Text → Text
groups s =
    take 8 s ++ (take 4 (drop 9 s) ++ (take 4 (drop 14 s) ++ (take 4 (drop 19 s) ++ drop 24 s)))

-- The form of a random UUID as text.
pub record IsUuid (s : Text) : Type 0 where
  pub size : length s ≡ 36
  pub first_hyphen : get_elem? s 8 ≡ some hyphen
  pub second_hyphen : get_elem? s 13 ≡ some hyphen
  pub third_hyphen : get_elem? s 18 ≡ some hyphen
  pub fourth_hyphen : get_elem? s 23 ≡ some hyphen
  pub digits : All (λ c. is_hex_digit c ≡ true) (groups s)
  pub version : get_elem? s 14 ≡ some b'4'
  pub variant : is_variant_digit (get_elem? s 19) ≡ true

version_digit : (c : ℕ) → c < 256 → hex_digit (version_bits c / 16) ≡ b'4'
unfolding hex_digit
version_digit c h =
    ground (arith, all_below_sound 256 (λ (x : ℕ). version_bits x / 16 == 4) version_table c h)

variant_digit : (c : ℕ) → c < 256 → is_variant_digit (some (hex_digit (variant_bits c / 16))) ≡ true
unfolding hex_digit
variant_digit c h = ground (
  arith,
  all_below_sound 256 (λ (x : ℕ). (variant_bits x / 64 == 2) && ltb (variant_bits x) 256)
      variant_table c h,
)

adjust-IsBytes :
    (i : ℕ) (f : ℕ → ℕ) (s : Text)
    → ((c : ℕ) → c < 256 → f c < 256)
    → IsBytes s
    → IsBytes (adjust i f s)
unfolding adjust
adjust-IsBytes i f [] g h = tt
adjust-IsBytes zero f (c ∷ s) g h = (g c h.0, h.1)
adjust-IsBytes (suc i) f (c ∷ s) g h = (h.0, adjust-IsBytes i f s g h.1)

version_bits-IsByte : (c : ℕ) → c < 256 → version_bits c < 256
version_bits-IsByte c h =
    let t = all_below_sound 256 version_ok version_table c h in ground (arith, t)

variant_bits-IsByte : (c : ℕ) → c < 256 → variant_bits c < 256
variant_bits-IsByte c h =
    let t = all_below_sound 256 variant_ok variant_table c h in ground (arith, t)

hex_digit-is_hex : (n : ℕ) → n < 16 → is_hex_digit (hex_digit n) ≡ true
unfolding hex_digit
hex_digit-is_hex n h = ground (arith, h)

hex-digits : (s : Text) → IsBytes s → All (λ c. is_hex_digit c ≡ true) (hex s)
unfolding hex
hex-digits [] h = tt
hex-digits (c ∷ s) h =
    let b : c < 256 = h.0 in
    (
      hex_digit-is_hex (c / 16) (omega (arith, b)),
      (hex_digit-is_hex (c % 16) (omega arith), hex-digits s h.1),
    )

format_bytes :
    (v : Text)
    → length v ≡ 16
    → IsBytes v
    → IsUuid (format_lower_uuid (adjust 8 variant_bits (adjust 6 version_bits v)))
unfolding format_lower_uuid adjust hex groups
format_bytes (a ∷ b ∷ c ∷ d ∷ e ∷ f ∷ g ∷ h ∷ i ∷ j ∷ k ∷ l ∷ m ∷ n ∷ o ∷ p ∷ []) len bs =
    let v : Text = a ∷ b ∷ c ∷ d ∷ e ∷ f ∷ g ∷ h ∷ i ∷ j ∷ k ∷ l ∷ m ∷ n ∷ o ∷ p ∷ [] in
    record {
      size = refl;
      first_hyphen = refl;
      second_hyphen = refl;
      third_hyphen = refl;
      fourth_hyphen = refl;
      digits = hex-digits (adjust 8 variant_bits (adjust 6 version_bits v)) (
          adjust-IsBytes 8 variant_bits (adjust 6 version_bits v) variant_bits-IsByte
            (adjust-IsBytes 6 version_bits v version_bits-IsByte bs));
      version = ap some (version_digit g (omega (arith, bs)));
      variant = variant_digit i (omega (arith, bs));
    }
format_bytes _ len bs = absurd (omega (arith, len))

-- Every identifier made from sixteen bytes has the form of a version 4 UUID.
pub format-reverse_mask :
    (raw : Text)
    → length raw ≡ 16
    → IsBytes raw
    → IsUuid (format_lower_uuid (reverse_mask_uuid raw))
unfolding reverse_mask_uuid
format-reverse_mask raw len h =
    format_bytes (reverse raw) (length-reverse raw ∙ len) (All-reverse raw h)

-- The key that is made from such an identifier has the sixteen bytes of an AES key.
pub length-runtime_ascii_key :
    (raw : Text) → length raw ≡ 16 → length (runtime_ascii_key (reverse_mask_uuid raw)) ≡ 16
unfolding runtime_ascii_key reverse_mask_uuid
length-runtime_ascii_key raw h =
    let v = adjust 8 variant_bits (adjust 6 version_bits (reverse raw)) in
    omega (
      arith,
      length-hex (take 8 v),
      length-take 8 v,
      length-adjust 8 variant_bits (adjust 6 version_bits (reverse raw)),
      length-adjust 6 version_bits (reverse raw),
      length-reverse raw,
    )

hex_digit-IsByte : (n : ℕ) → n < 16 → hex_digit n < 256
unfolding hex_digit
hex_digit-IsByte n h = ground (arith, h)

hex-IsBytes : (s : Text) → IsBytes s → IsBytes (hex s)
unfolding hex
hex-IsBytes [] h = tt
hex-IsBytes (c ∷ s) h =
    let b : c < 256 = h.0 in
    (
      hex_digit-IsByte (c / 16) (omega (arith, b)),
      (hex_digit-IsByte (c % 16) (omega arith), hex-IsBytes s h.1),
    )

take-IsBytes : (n : ℕ) (s : Text) → IsBytes s → IsBytes (take n s)
take-IsBytes zero s h = tt
take-IsBytes (suc n) [] h = tt
take-IsBytes (suc n) (c ∷ s) h = (h.0, take-IsBytes n s h.1)

pub runtime_ascii_key-IsBytes :
    (raw : Text) → IsBytes raw → IsBytes (runtime_ascii_key (reverse_mask_uuid raw))
unfolding runtime_ascii_key reverse_mask_uuid
runtime_ascii_key-IsBytes raw h =
    let v = adjust 6 version_bits (reverse raw) in
    hex-IsBytes _ (
      take-IsBytes 8 _ (
        adjust-IsBytes 8 variant_bits v variant_bits-IsByte
          (adjust-IsBytes 6 version_bits (reverse raw) version_bits-IsByte (All-reverse raw h))))
