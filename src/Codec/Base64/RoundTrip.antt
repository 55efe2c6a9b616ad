-- ===== src/Codec/Base64/RoundTrip.antt =====
-- Decoding an encoded text gives the text back, over every alphabet of 64 different digits.
use qoder_model_gateway.Base.{
  ℕ, zero, suc, ◌+◌, ◌*◌, ◌/◌, ◌%◌, ◌<◌, ◌≡◌, refl, Bool, true, false, not, ◌&&◌, none, some, [],
  ◌∷◌, arith, ◌==◌, is_nil, All, Text,
}
use qoder_model_gateway.Codec.Base64.{
  Alphabet, digit, index, encode, group_one, group_two, group_three, last_group, decode_group,
  decode,
}

-- Every digit is found again, and none is the padding.
pub record IsAlphabet (a : Alphabet) : Type 0 where
  pub index-digit : (i : ℕ) → i < 64 → index a (digit a i) ≡ some i
  pub digit-ne-pad : (i : ℕ) → i < 64 → (digit a i == a.pad) ≡ false

-- Checks by evaluation over a range.
unfoldable pub all_below : ℕ → (ℕ → Bool) → Bool
all_below zero test = true
all_below (suc k) test = all_below k test && test k

pub all_below_sound :
    (k : ℕ) (test : ℕ → Bool) → all_below k test ≡ true → (i : ℕ) → i < k → test i ≡ true
unfolding all_below
all_below_sound zero test h i lt = absurd (omega arith)
all_below_sound (suc k) test h i lt =
    ground (arith, λ (below : all_below k test ≡ true). all_below_sound k test below i)

unfoldable pub finds : Alphabet → ℕ → Bool
finds a i = elim (index a (digit a i)) [ none ↦ false | some j ↦ j == i ]

unfoldable pub avoids : Alphabet → ℕ → Bool
avoids a i = not (digit a i == a.pad)

pub checked-IsAlphabet :
    (a : Alphabet) → all_below 64 (finds a) ≡ true → all_below 64 (avoids a) ≡ true → IsAlphabet a
unfolding finds avoids
checked-IsAlphabet a h k = record {
  index-digit = λ i lt. ground (arith, all_below_sound 64 (finds a) h i lt);
  digit-ne-pad = λ i lt. ground (arith, all_below_sound 64 (avoids a) k i lt);
}

-- All bytes of a text are below 256.
abbrev pub IsBytes : Text → Type 0
IsBytes = All (λ c. c < 256)

module _ (a : Alphabet) (v : IsAlphabet a) where
  group_one-digits :
      (x : ℕ)
      → x < 256
      → decode_group a (digit a (x / 4)) (digit a (x % 4 * 16)) a.pad a.pad true (some [])
        ≡ some (x ∷ [])
  unfolding decode_group last_group group_one
  group_one-digits x h =
      rw (v.index-digit (x / 4) (omega arith), v.index-digit (x % 4 * 16) (omega arith))
        (ground arith)

  group_two-digits :
      (x y : ℕ)
      → x < 256
      → y < 256
      → decode_group a
          (digit a (x / 4))
          (digit a (x % 4 * 16 + y / 16))
          (digit a (y % 16 * 4))
          a.pad
          true
          (some [])
        ≡ some (x ∷ y ∷ [])
  unfolding decode_group last_group group_two
  group_two-digits x y h k =
      rw
        (
          v.index-digit (x / 4) (omega arith),
          v.index-digit (x % 4 * 16 + y / 16) (omega arith),
          v.index-digit (y % 16 * 4) (omega arith),
          v.digit-ne-pad (y % 16 * 4) (omega arith),
        )
        (ground arith)

  group_three-digits :
      (x y z : ℕ) (last : Bool) (more : Text)
      → x < 256
      → y < 256
      → z < 256
      → decode_group a
          (digit a (x / 4))
          (digit a (x % 4 * 16 + y / 16))
          (digit a (y % 16 * 4 + z / 64))
          (digit a (z % 64))
          last
          (some more)
        ≡ some (x ∷ y ∷ z ∷ more)
  unfolding decode_group group_three
  group_three-digits x y z last more h k l =
      rw
        (
          v.index-digit (x / 4) (omega arith),
          v.index-digit (x % 4 * 16 + y / 16) (omega arith),
          v.digit-ne-pad (z % 64) (omega arith),
          v.index-digit (y % 16 * 4 + z / 64) (omega arith),
          v.index-digit (z % 64) (omega arith),
        )
        (ground arith)

  pub decode-encode : (s : Text) → IsBytes s → decode a (encode a s) ≡ some s
  unfolding decode encode
  decode-encode [] h = refl
  decode-encode (x ∷ []) h = group_one-digits x h.0
  decode-encode (x ∷ y ∷ []) h = group_two-digits x y h.0 h.1.0
  decode-encode (x ∷ y ∷ z ∷ rest) h =
      rw (decode-encode rest h.1.1.1)
        (group_three-digits x y z (is_nil (encode a rest)) rest h.0 h.1.0 h.1.1.0)
