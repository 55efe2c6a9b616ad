-- ===== src/Codec/Body/RoundTrip.antt =====
-- The body codec of native_body_codec.go: what is encoded is decoded to itself, and nothing else is
-- accepted.
use qoder_model_gateway.Base.{
  ℕ, zero, suc, ◌-◌, ◌/◌, ◌≡◌, refl, false, some, [], ◌∷◌, length, take, drop, All-append, Text,
  text_eq_refl,
}
use qoder_model_gateway.Codec.Base64.{Alphabet, digit, encode as encode64}
use qoder_model_gateway.Codec.Base64
use qoder_model_gateway.Codec.Base64.RoundTrip.{
  IsAlphabet, IsBytes, checked-IsAlphabet, all_below, finds, avoids,
}
use qoder_model_gateway.Codec.Base64.RoundTrip
use qoder_model_gateway.Codec.Base64.Clean.{
  is_break, IsClean, IsUnbroken, unbroken, checked-IsUnbroken, encode-IsClean,
  IsClean-has_line_break,
}
use qoder_model_gateway.Codec.Body.{body_alphabet, swap_outer_thirds, encode, canonical, decode}
use qoder_model_gateway.Codec.Body.Swap.{swap_outer_thirds_twice}

body-IsAlphabet : IsAlphabet body_alphabet
unfolding all_below finds avoids Base64.index Base64.digit Base64.index_from Base64.letter_at
body-IsAlphabet = checked-IsAlphabet body_alphabet refl refl

body-IsUnbroken : IsUnbroken body_alphabet
unfolding all_below unbroken Base64.digit Base64.letter_at
body-IsUnbroken = checked-IsUnbroken body_alphabet refl refl

All-take : (n : ℕ) (s : Text) → IsClean s → IsClean (take n s)
All-take zero s h = tt
All-take (suc n) [] h = tt
All-take (suc n) (c ∷ s) h = (h.0, All-take n s h.1)

All-drop : (n : ℕ) (s : Text) → IsClean s → IsClean (drop n s)
All-drop zero s h = h
All-drop (suc n) [] h = tt
All-drop (suc n) (c ∷ s) h = All-drop n s h.1

swap-IsClean : (s : Text) → IsClean s → IsClean (swap_outer_thirds s)
unfolding swap_outer_thirds
swap-IsClean s h =
    let n = length s in
    let q = n / 3 in
    let clean = λ (c : ℕ). is_break c ≡ false in
    All-append clean (drop (n - q) s) _ (All-drop (n - q) s h) (
      All-append clean (take (n - q - q) (drop q s)) (take q s)
        (All-take (n - q - q) (drop q s) (All-drop q s h)) (All-take q s h))

-- Every body of bytes is decoded from its encoding.
pub decode-encode : (r : Text) → IsBytes r → decode (encode r) ≡ some r
unfolding decode canonical encode
decode-encode r h =
    rw
      (
        IsClean-has_line_break _
            (swap-IsClean _ (encode-IsClean body_alphabet body-IsUnbroken r h)),
        (swap_outer_thirds_twice (encode64 body_alphabet r)).0,
        RoundTrip.decode-encode body_alphabet body-IsAlphabet r h,
        text_eq_refl (swap_outer_thirds (encode64 body_alphabet r)),
      )
      refl
