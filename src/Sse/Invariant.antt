-- ===== src/Sse/Invariant.antt =====
-- The rule for invariants of a callback of `readSSE`.
use qoder_model_gateway.Base.{◌≡◌, refl, ◌⊎◌, inl, inr, List, [], ◌∷◌, Text}
use mathlib.Core.Path.{subst}
use qoder_model_gateway.Sse.{
  Frame, Turn, go_on, halt, Ending, eof, broken, LineResult, pending, complete, empty_frame, flush,
  read_line, read_end, read_lines, read_sse, lines,
}

-- A turn that reads on keeps `P`, one that stops reaches `Q`.
abbrev pub Ensures {ℓ κ} : {S : Type ℓ} → (S → Type κ) → (S → Type κ) → Turn S → Type κ
Ensures P Q (go_on s) = P s
Ensures P Q (halt s) = Q s

LineResult-cases :
    (r : LineResult) → ((f : Frame) × (r ≡ pending f)) ⊎ ((f : Frame) × (r ≡ complete f))
LineResult-cases (pending f) = inl (f, refl)
LineResult-cases (complete f) = inr (f, refl)

Turn-cases {ℓ} : {S : Type ℓ} (t : Turn S) → ((s : S) × (t ≡ go_on s)) ⊎ ((s : S) × (t ≡ halt s))
Turn-cases (go_on s) = inl (s, refl)
Turn-cases (halt s) = inr (s, refl)

module _ {ℓ κ} {S : Type ℓ} (P Q : S → Type κ) (fn : Frame → S → Turn S)
    (keep : (f : Frame) (s : S) → P s → Ensures P Q (fn f s)) where
  kept : (f : Frame) (s t : S) → P s → fn f s ≡ go_on t → P t
  kept f s t p e = subst (Ensures P Q) e (keep f s p)

  stopped : (f : Frame) (s t : S) → P s → fn f s ≡ halt t → Q t
  stopped f s t p e = subst (Ensures P Q) e (keep f s p)

  read_end_inv :
      (e : Ending) (f : Frame) (s : S) → P s → P (read_end fn e f s).0 ⊎ Q (read_end fn e f s).0
  unfolding read_end
  read_end_inv broken f s p = inl p
  read_end_inv eof f s p = elim (LineResult-cases (flush f)) [
    | inl (g, h) ↦ rw (h, read_end) (inl p)
    | inr (g, h) ↦
        rw (h, read_end)
          (elim (Turn-cases (fn g s)) [
            | inl (t, k) ↦ rw (k, read_end) (inl (kept g s t p k))
            | inr (t, k) ↦ rw (k, read_end) (inr (stopped g s t p k))
          ])
  ]

  read_lines_inv :
      (ls : List Text) (e : Ending) (f : Frame) (s : S)
      → P s
      → P (read_lines fn ls e f s).0 ⊎ Q (read_lines fn ls e f s).0
  unfolding read_lines
  read_lines_inv [] e f s p = read_end_inv e f s p
  read_lines_inv (l ∷ ls) e f s p = elim (LineResult-cases (read_line l f)) [
    | inl (g, h) ↦ rw (h, read_lines) (read_lines_inv ls e g s p)
    | inr (g, h) ↦
        rw (h, read_lines)
          (elim (Turn-cases (fn g s)) [
            | inl (t, k) ↦ rw (k, read_lines) (read_lines_inv ls e empty_frame t (kept g s t p k))
            | inr (t, k) ↦ rw (k, read_lines) (inr (stopped g s t p k))
          ])
  ]

  pub read_sse_inv :
      (body : Text) (e : Ending) (s : S)
      → P s
      → P (read_sse fn body e s).0 ⊎ Q (read_sse fn body e s).0
  unfolding read_sse
  read_sse_inv body e s p = read_lines_inv (lines body) e empty_frame s p
