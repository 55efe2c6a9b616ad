-- ===== src/Codec/Base64/Clean.antt =====
-- An encoded text has no line break, over an alphabet without them.
use qoder_model_gateway.Base.{
  ℕ, ◌<◌, ◌≡◌, refl, Bool, true, false, not, ◌||◌, [], ◌∷◌, arith, ◌==◌, All, Text,
}
use qoder_model_gateway.Codec.Base64.{Alphabet, digit, encode, has_line_break}
use qoder_model_gateway.Codec.Base64.RoundTrip.{IsBytes, all_below, all_below_sound}

abbrev pub is_break : ℕ → Bool
is_break c = (c == 13) || (c == 10)

abbrev pub IsClean : Text → Type 0
IsClean = All (λ c. is_break c ≡ false)

pub record IsUnbroken (a : Alphabet) : Type 0 where
  pub digit-clean : (i : ℕ) → i < 64 → is_break (digit a i) ≡ false
  pub pad-clean : is_break a.pad ≡ false

unfoldable pub unbroken : Alphabet → ℕ → Bool
unbroken a i = not (is_break (digit a i))

pub checked-IsUnbroken :
    (a : Alphabet) → all_below 64 (unbroken a) ≡ true → is_break a.pad ≡ false → IsUnbroken a
unfolding unbroken
checked-IsUnbroken a h p = record {
  digit-clean = λ i lt. ground (arith, all_below_sound 64 (unbroken a) h i lt);
  pad-clean = p;
}

pub IsClean-has_line_break : (s : Text) → IsClean s → has_line_break s ≡ false
unfolding has_line_break
IsClean-has_line_break [] h = refl
IsClean-has_line_break (c ∷ s) h = rw (h.0, IsClean-has_line_break s h.1) refl

module _ (a : Alphabet) (v : IsUnbroken a) where
  pub encode-IsClean : (s : Text) → IsBytes s → IsClean (encode a s)
  unfolding encode
  encode-IsClean [] h = tt
  encode-IsClean (x ∷ []) h = (
    v.digit-clean _ (omega arith),
    (v.digit-clean _ (omega arith), (v.pad-clean, (v.pad-clean, tt))),
  )
  encode-IsClean (x ∷ y ∷ []) h = (
    v.digit-clean _ (omega arith),
    (v.digit-clean _ (omega arith), (v.digit-clean _ (omega arith), (v.pad-clean, tt))),
  )
  encode-IsClean (x ∷ y ∷ z ∷ rest) h = (
    v.digit-clean _ (omega arith),
    (
      v.digit-clean _ (omega arith),
      (v.digit-clean _ (omega arith), (v.digit-clean _ (omega arith), encode-IsClean rest h.1.1.1)),
    ),
  )
