-- ===== src/Codec/Base64.antt =====
-- `encoding/base64` as native_body_codec.go and native_codec_helpers.go use it: strict, padded, over
-- an alphabet of 64 digits. Line breaks, which Go's decoder skips, are refused by the callers before.
pub mod RoundTrip
pub mod Clean
use qoder_model_gateway.Base.{
  ℕ, zero, suc, ◌+◌, ◌-◌, ◌*◌, ◌/◌, ◌%◌, ◌^◌, ◌≤◌, ◌<◌, ◌≡◌, refl, sym, ap, ◌∙◌, ◌≢◌, ◌↔◌, ◌⊎◌, inl,
  inr, Bool, true, false, not, ◌&&◌, ◌||◌, Option, none, some, List, [], ◌∷◌, ◌++◌, map, append-nil,
  append_assoc, arith, ltb, leb, ◌==◌, if◌then◌else◌, ltb→lt, lt→ltb, leb→le, ==_iff, Bool-cases,
  Option-cases, is_some, ◌>>=◌, length, get_elem?, take, drop, replicate, is_nil, get_last?,
  length-append, take-append-drop, length-take, length-drop, length-replicate, take-append_exact,
  drop-append_exact, All, All-append, Text, codes, text_eq, text_eq_iff, text_eq_refl, has_prefix,
  trim_prefix, has_prefix-append, has_suffix, trim_suffix, join, is_space, trim_left, trim_right,
  trim_space,
}

-- The digits of an encoding, and its padding byte.
pub record Alphabet : Type 0 where
  pub letters : Text
  pub pad : ℕ

unfoldable pub letter_at : Text → ℕ → ℕ
letter_at [] i = 0
letter_at (c ∷ cs) zero = c
letter_at (c ∷ cs) (suc i) = letter_at cs i

unfoldable pub index_from : Text → ℕ → ℕ → Option ℕ
index_from [] c i = none
index_from (d ∷ ds) c i = let rest = index_from ds c (suc i) in if c == d then some i else rest

module _ (a : Alphabet) where
  unfoldable pub digit : ℕ → ℕ
  digit i = letter_at a.letters i

  unfoldable pub index : ℕ → Option ℕ
  index c = index_from a.letters c 0

  unfoldable pub encode : Text → Text
  encode [] = []
  encode (x ∷ []) = digit (x / 4) ∷ digit (x % 4 * 16) ∷ a.pad ∷ a.pad ∷ []
  encode (x ∷ y ∷ []) =
      digit (x / 4) ∷ digit (x % 4 * 16 + y / 16) ∷ digit (y % 16 * 4) ∷ a.pad ∷ []
  encode (x ∷ y ∷ z ∷ rest) =
      digit (x / 4)
      ∷ digit (x % 4 * 16 + y / 16)
      ∷ digit (y % 16 * 4 + z / 64)
      ∷ digit (z % 64)
      ∷ encode rest

  -- The bytes of a group whose digits are known; with padding the spare bits must be 0.
  unfoldable pub group_one : ℕ → ℕ → Option Text
  group_one p q = if q % 16 == 0 then some ((p * 4 + q / 16) ∷ []) else none

  unfoldable pub group_two : ℕ → ℕ → ℕ → Option Text
  group_two p q r =
      if r % 4 == 0 then some ((p * 4 + q / 16) ∷ (q % 16 * 16 + r / 4) ∷ []) else none

  unfoldable pub group_three : ℕ → ℕ → ℕ → ℕ → Text
  group_three p q r s = (p * 4 + q / 16) ∷ (q % 16 * 16 + r / 4) ∷ (r % 4 * 64 + s) ∷ []

  unfoldable pub last_group : ℕ → ℕ → ℕ → Option Text
  last_group p q c = if c == a.pad then group_one p q else (index c >>= λ r. group_two p q r)

  -- Four digits, of which only the last group of the text may end with padding; `more` is what the
  -- groups behind it give.
  unfoldable pub decode_group : ℕ → ℕ → ℕ → ℕ → Bool → Option Text → Option Text
  decode_group c d e f last more = index c >>= λ p. index d >>= λ q.
      if (f == a.pad) && last
      then last_group p q e
      else (index e >>= λ r. index f >>= λ s. more >>= λ bytes. some (group_three p q r s ++ bytes))

  unfoldable pub decode : Text → Option Text
  decode [] = some []
  decode (c ∷ d ∷ e ∷ f ∷ rest) = decode_group c d e f (is_nil rest) (decode rest)
  decode _ = none

unfoldable pub has_line_break : Text → Bool
has_line_break [] = false
has_line_break (c ∷ s) = ((c == 13) || (c == 10)) || has_line_break s

abbrev pub std_alphabet : Alphabet
std_alphabet = record {
  letters = codes "ABCDEFGHIJKLMNOPQRSTUVWXYZabcdefghijklmnopqrstuvwxyz0123456789+/";
  pad = b'=';
}
