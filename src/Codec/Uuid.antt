-- ===== src/Codec/Uuid.antt =====
-- native_uuid.go: identifiers made of sixteen random bytes.
pub mod Format
use Prim.Native.Nat.{bit_and, bit_or}
use mathlib.Core.List.{reverse}
use qoder_model_gateway.Base.{
  ℕ, zero, suc, ◌+◌, ◌-◌, ◌*◌, ◌/◌, ◌%◌, ◌^◌, ◌≤◌, ◌<◌, ◌≡◌, refl, sym, ap, ◌∙◌, ◌≢◌, ◌↔◌, ◌⊎◌, inl,
  inr, Bool, true, false, not, ◌&&◌, ◌||◌, Option, none, some, List, [], ◌∷◌, ◌++◌, map, append-nil,
  append_assoc, arith, ltb, leb, ◌==◌, if◌then◌else◌, ltb→lt, lt→ltb, leb→le, ==_iff, Bool-cases,
  Option-cases, is_some, ◌>>=◌, length, get_elem?, take, drop, replicate, is_nil, get_last?,
  length-append, take-append-drop, length-take, length-drop, length-replicate, take-append_exact,
  drop-append_exact, All, All-append, Text, codes, text_eq, text_eq_iff, text_eq_refl, has_prefix,
  trim_prefix, has_prefix-append, has_suffix, trim_suffix, join, is_space, trim_left, trim_right,
  trim_space,
}

-- `value[i] = f(value[i])`; an index out of range changes nothing.
unfoldable pub adjust : ℕ → (ℕ → ℕ) → Text → Text
adjust i f [] = []
adjust zero f (c ∷ s) = f c ∷ s
adjust (suc i) f (c ∷ s) = c ∷ adjust i f s

unfoldable pub version_bits : ℕ → ℕ
version_bits c = bit_or (bit_and c 0x0f) 0x40

unfoldable pub variant_bits : ℕ → ℕ
variant_bits c = bit_or (bit_and c 0x3f) 0x80

-- The copying loop reverses the bytes.
unfoldable pub reverse_mask_uuid : Text → Text
reverse_mask_uuid raw = adjust 8 variant_bits (adjust 6 version_bits (reverse raw))

unfoldable pub hex_digit : ℕ → ℕ
hex_digit n = if ltb n 10 then b'0' + n else b'a' + (n - 10)

-- `hex.Encode`.
unfoldable pub hex : Text → Text
hex [] = []
hex (c ∷ s) = hex_digit (c / 16) ∷ hex_digit (c % 16) ∷ hex s

abbrev pub hyphen : ℕ
hyphen = b'-'

unfoldable pub format_lower_uuid : Text → Text
format_lower_uuid v =
    hex (take 4 v)
    ++ hyphen
      ∷ (hex (take 2 (drop 4 v))
          ++ hyphen
            ∷ (hex (take 2 (drop 6 v))
                ++ hyphen ∷ (hex (take 2 (drop 8 v)) ++ hyphen ∷ hex (take 6 (drop 10 v)))))

unfoldable pub runtime_ascii_key : Text → Text
runtime_ascii_key v = hex (take 8 v)
