-- ===== src/Native/Infer/Errors.antt =====
-- Which errors a protocol context (native_context.go, native_infer.go) returns.
use qoder_model_gateway.Base.{
  ◌≡◌, refl, inl, inr, Bool, true, ◌||◌, Option, some, arith, Option-cases, is_some, Text, codes,
}
use qoder_model_gateway.Codec.Errors.{
  Error, err, Result-cases, protocol_error_from, is_canceled, is_deadline,
}
use qoder_model_gateway.Native.Infer.{InferInput, Host, prepare_native_infer_request}
use qoder_model_gateway.Native.Context.{
  NativeContext, normalize_stage_error, prepare_infer_request, closed_error,
}

-- The cancellation, the passed deadline, or an error with a kind.
unfoldable pub is_classified : Error → Bool
is_classified e = is_canceled e || (is_deadline e || is_some (protocol_error_from e))

normalize_stage_error-classified :
    (stage : Text) (e : Error) → is_classified (normalize_stage_error stage e) ≡ true
unfolding is_classified normalize_stage_error is_canceled is_deadline protocol_error_from
normalize_stage_error-classified stage e = elim (Option-cases (protocol_error_from e)) [
  | inl h ↦ ground (arith, h)
  | inr (t, h) ↦ ground (arith, h)
]

closed_error-classified : is_classified closed_error ≡ true
unfolding is_classified is_canceled is_deadline protocol_error_from
closed_error-classified = refl

-- Whatever goes wrong while a request is prepared, the error that the context returns is the
-- cancellation, the passed deadline or a protocol error with a kind, if the caller's context only gives
-- these.
pub prepare_infer_request-classified :
    (h : Host) (c : Option Error) (i : InferInput) (n : NativeContext) (e : Error)
    → ((x : Error) → c ≡ some x → is_classified x ≡ true)
    → prepare_infer_request h c i n ≡ err e
    → is_classified e ≡ true
unfolding prepare_infer_request
prepare_infer_request-classified h c i n e hc r = elim (Option-cases c) [
  | inl g ↦ elim (Result-cases (prepare_native_infer_request h n.snapshot i)) [
    | inl (x, k) ↦ ground (
      arith,
      g,
      k,
      r,
      closed_error-classified,
      normalize_stage_error-classified (codes "prepare native inference request") x,
    )
    | inr (q, k) ↦ ground (arith, g, k, r, closed_error-classified)
  ]
  | inr (x, g) ↦ ground (arith, g, r, closed_error-classified, hc x g)
]
