-- ===== src/Runtime/Padding/Form.antt =====
-- The form of a padded message (native_runtime_fields.go), that a receiver reads it back, and that the
-- redrawing ends.
use qoder_model_gateway.Base.{
  ℕ, zero, suc, ◌+◌, ◌-◌, ◌*◌, ◌^◌, ◌≤◌, ◌<◌, ◌≡◌, refl, sym, ◌∙◌, Option, none, some, [], ◌∷◌,
  ◌++◌, arith, leb, if◌then◌else◌, length, length-append, All, All-append, Text, codes,
}
use mathlib.Core.Path.{subst}
use qoder_model_gateway.Codec.Errors.{ok}
use qoder_model_gateway.Codec.Base64.RoundTrip.{IsBytes}
use qoder_model_gateway.Runtime.Padding.{
  Entropy, read, redraw_action, first_byte, redraw, put_byte, fill, encoded_message, set_bytes,
  PublicKey, encrypt_encoded, with_padding, pad_message, rsa_encrypt_pkcs1_v15_exact,
}

-- What PKCS #1 v1.5 says of a receiver: a zero, a two, at least eight bytes that are not zero, a zero, and
-- the rest is the message.
unfoldable pub after_zero : ℕ → Text → Option (ℕ × Text)
after_zero n [] = none
after_zero n (zero ∷ s) = some (n, s)
after_zero n (suc c ∷ s) = after_zero (suc n) s

abbrev long_enough : Option (ℕ × Text) → Option Text
long_enough none = none
long_enough (some t) = if leb 8 t.0 then some t.1 else none

unfoldable pub receive : Text → Option Text
receive (zero ∷ suc (suc zero) ∷ s) = long_enough (after_zero 0 s)
receive _ = none

abbrev pub IsNonzero : Text → Type 0
IsNonzero = All (λ c. 0 < c)

after_zero_lem :
    (n : ℕ) (p m : Text) → IsNonzero p → after_zero n (p ++ 0 ∷ m) ≡ some (n + length p, m)
unfolding after_zero
after_zero_lem n [] m h = ground arith
after_zero_lem n (zero ∷ p) m h = absurd (omega arith)
after_zero_lem n (suc c ∷ p) m h = ground (arith, after_zero_lem (suc n) p m h.1)

receive-encoded_message :
    (p m : Text) → IsNonzero p → 8 ≤ length p → receive (encoded_message p m) ≡ some m
unfolding receive encoded_message
receive-encoded_message p m h l = ground (arith, after_zero_lem 0 p m h)

times_le : (c d p : ℕ) → c ≤ d → c * p ≤ d * p
times_le zero d p h = omega arith
times_le (suc c) zero p h = absurd (omega arith)
times_le (suc c) (suc d) p h = let q = times_le c d p (omega arith) in ground (arith, q)

-- A number that its bytes stand for is below the power of 256 that their count gives.
byte_sum : (c p v : ℕ) → c < 256 → v < p → c * p + v < 256 * p
byte_sum c p v h l = let q = times_le c 255 p (omega arith) in omega arith

pub set_bytes_bound : (s : Text) → IsBytes s → set_bytes s < 256 ^ length s
unfolding set_bytes
set_bytes_bound [] h = ground arith
set_bytes_bound (c ∷ s) h =
    let q = byte_sum c (256 ^ length s) (set_bytes s) h.0 (set_bytes_bound s h.1) in
    ground (arith, q)

length-encoded_message : (p m : Text) → length (encoded_message p m) ≡ length p + length m + 3
unfolding encoded_message
length-encoded_message p m = ground (arith, length-append p (0 ∷ m))

set_bytes-zero : (t : Text) → set_bytes (0 ∷ t) ≡ set_bytes t
unfolding set_bytes
set_bytes-zero t = ground arith

encoded_message-IsBytes : (p m : Text) → IsBytes p → IsBytes m → IsBytes (encoded_message p m)
unfolding encoded_message
encoded_message-IsBytes p m h k =
    (omega arith, (omega arith, All-append (λ c. c < 256) p (0 ∷ m) h (omega arith, k)))

encoded_message_bound :
    (p m : Text)
    → IsBytes p
    → IsBytes m
    → set_bytes (encoded_message p m) < 256 ^ (length p + length m + 2)
unfolding encoded_message set_bytes
encoded_message_bound p m h k =
    let t : Text = 2 ∷ (p ++ 0 ∷ m) in
    let b : IsBytes t = (omega arith, All-append (λ c. c < 256) p (0 ∷ m) h (omega arith, k)) in
    let len : length t ≡ length p + length m + 2 = ground (arith, length-append p (0 ∷ m)) in
    subst (λ x. set_bytes (0 ∷ t) < 256 ^ x) len
      (subst (λ y. y < 256 ^ length t) (sym (set_bytes-zero t)) (set_bytes_bound t b))

-- The entropy gives the bytes that are asked for, and of the single bytes that it gives one after the
-- other one is soon not zero: the fuel is enough.
pub record IsEntropy (e : Entropy) (fuel : ℕ) (bytes : ℕ → ℕ → Text) : Type 0 where
  pub gives : (k n : ℕ) → e k n ≡ ok (bytes k n)
  pub full : (k n : ℕ) → length (bytes k n) ≡ n
  pub are_bytes : (k n : ℕ) → IsBytes (bytes k n)
  pub soon : (k : ℕ) → (j : ℕ) × ((j < fuel) × (0 < first_byte (bytes (k + j) 1)))

redraw-suc : (e : Entropy) (fuel k c : ℕ) → redraw e fuel k (suc c) ≡ some (ok (suc c, k))
unfolding redraw
redraw-suc e zero k c = refl
redraw-suc e (suc fuel) k c = refl

abbrev Redrawn : Entropy → ℕ → ℕ → ℕ → Type 0
Redrawn e fuel k c =
    (d : ℕ) × (i : ℕ) × (redraw e fuel k c ≡ some (ok (d, i))) × (0 < d) × (d < 256)

first_byte_bound : (s : Text) → IsBytes s → first_byte s < 256
first_byte_bound [] h = omega arith
first_byte_bound (c ∷ s) h = h.0

module _ (e : Entropy) (most : ℕ) (bytes : ℕ → ℕ → Text) (v : IsEntropy e most bytes) where
  read-gives : (action : Text) (k n : ℕ) → read e action k n ≡ ok (bytes k n)
  unfolding read
  read-gives action k n = rw (v.gives k n, read) refl

  redraw_nonzero : (fuel k c : ℕ) → 0 < c → c < 256 → Redrawn e fuel k c
  redraw_nonzero fuel k zero h b = absurd (omega arith)
  redraw_nonzero fuel k (suc c) h b = (suc c, k, redraw-suc e fuel k c, h, b)

  redraw_ends :
      (fuel j k c : ℕ) → j < fuel → 0 < first_byte (bytes (k + j) 1) → c < 256 → Redrawn e fuel k c
  unfolding redraw
  redraw_ends fuel j k (suc c) l h b = redraw_nonzero fuel k (suc c) (omega arith) b
  redraw_ends zero j k zero l h b = absurd (omega arith)
  redraw_ends (suc fuel) zero k zero l h b =
      let r =
        redraw_nonzero fuel (suc k) (first_byte (bytes k 1))
          (subst (λ x. 0 < first_byte (bytes x 1)) (omega arith) h)
          (first_byte_bound (bytes k 1) (v.are_bytes k 1)) in
      (r.0, r.1, ground (arith, read-gives redraw_action k 1, r.2), r.3, r.4)
  redraw_ends (suc fuel) (suc j) k zero l h b =
      let r =
        redraw_ends fuel j (suc k) (first_byte (bytes k 1)) (omega arith)
          (subst (λ x. 0 < first_byte (bytes x 1)) (omega arith) h)
          (first_byte_bound (bytes k 1) (v.are_bytes k 1)) in
      (r.0, r.1, ground (arith, read-gives redraw_action k 1, r.2), r.3, r.4)

  abbrev Filled : ℕ → Text → Type 0
  Filled k s =
      (t : Text) × (i : ℕ) × (fill e most k s ≡ some (ok (t, i)))
      × IsNonzero t
      × IsBytes t
      × (length t ≡ length s)

  fill_ends : (k : ℕ) (s : Text) → IsBytes s → Filled k s
  unfolding fill put_byte
  fill_ends k [] h = ([], k, refl, tt, tt, refl)
  fill_ends k (c ∷ s) h =
      let o = v.soon k in
      let r = redraw_ends most o.0 k c o.1.0 o.1.1 h.0 in
      let f = fill_ends r.1 s h.1 in
      (r.0 ∷ f.0, f.1, ground (arith, r.2, f.2), (r.3, f.3), (r.4, f.4), ground (arith, f.5))

  -- The padded message, and what it is.
  abbrev Padded : ℕ → ℕ → Text → Type 0
  Padded k size m =
      (em : Text) × (pad_message e most k size m ≡ some (ok em))
      × (receive em ≡ some m)
      × (length em ≡ size)
      × (set_bytes em < 256 ^ (size - 1))
      × IsBytes em

  pad_message_ends : (k size : ℕ) (m : Text) → IsBytes m → 11 + length m ≤ size → Padded k size m
  unfolding pad_message with_padding encoded_message
  pad_message_ends k size m h l =
      let n = size - length m - 3 in
      let p = bytes k n in
      let f = fill_ends (suc k) p (v.are_bytes k n) in
      let len : length f.0 ≡ size - length m - 3 = f.5 ∙ v.full k n in
      let em = encoded_message f.0 m in
      (
        em,
        ground (arith, read-gives (codes "read runtime RSA padding entropy") k n, f.2, l),
        receive-encoded_message f.0 m f.3 (omega arith),
        length-encoded_message f.0 m ∙ (omega arith),
        subst (λ x. set_bytes em < 256 ^ x) (omega arith) (encoded_message_bound f.0 m f.4 h),
        encoded_message-IsBytes f.0 m f.4 h,
      )

-- The padding always ends and is right: with entropy that gives bytes, and a byte that is not zero within
-- the fuel, a message that fits is encrypted by the exponentiation of a padded message, of the size of
-- the modulus and below it, from which a receiver reads the message.
pub rsa_encrypt_pkcs1_v15_exact_lem :
    (e : Entropy) (fuel k : ℕ) (bytes : ℕ → ℕ → Text) (p : PublicKey) (m : Text)
    → IsEntropy e fuel bytes
    → IsBytes m
    → 11 + length m ≤ p.size
    → 256 ^ (p.size - 1) ≤ p.modulus
    → 1 < p.exponent
    → (em : Text) × (rsa_encrypt_pkcs1_v15_exact e fuel k p m
        ≡ some (ok (p.exponentiate (set_bytes em))))
      × (receive em ≡ some m)
      × (length em ≡ p.size)
      × (set_bytes em < p.modulus)
      × IsBytes em
unfolding rsa_encrypt_pkcs1_v15_exact encrypt_encoded
rsa_encrypt_pkcs1_v15_exact_lem e fuel k bytes p m v h l g x =
    let r = pad_message_ends e fuel bytes v k p.size m h l in
    let b : set_bytes r.0 < p.modulus = omega (arith, r.4, g) in
    (r.0, ground (arith, r.1, b, x), r.2, r.3, b, r.5)
