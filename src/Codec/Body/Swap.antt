-- ===== src/Codec/Body/Swap.antt =====
-- `swapOuterThirds` of native_body_codec.go undoes itself.
use qoder_model_gateway.Base.{
  ℕ, ◌+◌, ◌-◌, ◌/◌, ◌≡◌, sym, ap, ◌∙◌, List, ◌++◌, append_assoc, arith, length, take, drop,
  length-append, take-append-drop, length-take, length-drop, take-append_exact, drop-append_exact,
  Text,
}
use mathlib.Core.Path.{ap₂}
use qoder_model_gateway.Codec.Body.{swap_outer_thirds}

take_at {ℓ} : {A : Type ℓ} (n : ℕ) (xs ys : List A) → n ≡ length xs → take n (xs ++ ys) ≡ xs
take_at n xs ys h = rw h (take-append_exact xs ys)

drop_at {ℓ} : {A : Type ℓ} (n : ℕ) (xs ys : List A) → n ≡ length xs → drop n (xs ++ ys) ≡ ys
drop_at n xs ys h = rw h (drop-append_exact xs ys)

length_parts : (a m b : Text) → length (a ++ (m ++ b)) ≡ length a + length m + length b
length_parts a m b = omega (arith, length-append a (m ++ b), length-append m b)

-- On a text cut into its outer thirds and the middle.
swap_parts :
    (a m b : Text) (q : ℕ)
    → length a ≡ q
    → length b ≡ q
    → length (a ++ (m ++ b)) / 3 ≡ q
    → swap_outer_thirds (a ++ (m ++ b)) ≡ b ++ (m ++ a)
unfolding swap_outer_thirds
swap_parts a m b q ha hb hq =
    let n = length_parts a m b in
    ap₂ ◌++◌
      (ap (drop _) (sym (append_assoc a m b))
        ∙ drop_at _ (a ++ m) b (omega (arith, n, ha, hb, hq, length-append a m)))
      (ap₂ ◌++◌
        (ap (take _) (drop_at _ a (m ++ b) (hq ∙ sym ha))
          ∙ take_at _ m b (omega (arith, n, ha, hb, hq)))
        (take_at _ a (m ++ b) (hq ∙ sym ha)))

-- Every text is made of its outer thirds and the middle.
cut_thirds :
    (s : Text)
    → (a : Text) × (m : Text) × (b : Text) × (s ≡ a ++ (m ++ b))
      × (length a ≡ length s / 3)
      × (length b ≡ length s / 3)
cut_thirds s =
    let q = length s / 3 in
    let rest = drop q s in
    (
      take q s,
      take (length s - q - q) rest,
      drop (length s - q - q) rest,
      sym (take-append-drop q s)
          ∙ ap (◌++◌ (take q s)) (sym (take-append-drop (length s - q - q) rest)),
      omega (arith, length-take q s),
      omega (arith, length-drop (length s - q - q) rest, length-drop q s),
    )

-- Swapping the outer thirds twice gives the text back, and keeps its length, for every text.
pub swap_outer_thirds_twice :
    (s : Text)
    → (swap_outer_thirds (swap_outer_thirds s) ≡ s) × (length (swap_outer_thirds s) ≡ length s)
swap_outer_thirds_twice s =
    let (a, m, b, e, ha, hb) = cut_thirds s in
    let n = length_parts a m b in
    let k = length_parts b m a in
    let len : length (a ++ (m ++ b)) ≡ length s = ap length (sym e) in
    let once = swap_parts a m b (length s / 3) ha hb (omega (arith, len)) in
    let back = swap_parts b m a (length s / 3) hb ha (omega (arith, n, k, len)) in
    (
      ap (λ x. swap_outer_thirds (swap_outer_thirds x)) e
          ∙ (ap swap_outer_thirds once ∙ (back ∙ sym e)),
      ap (λ x. length (swap_outer_thirds x)) e ∙ (ap length once ∙ omega (arith, n, k, len)),
    )
