-- ===== src/Native/Context.antt =====
-- native_context.go and protocol_services.go: the factory of contexts, a context with its life, and the
-- services. What a context calls to prepare a request is native_infer.go.
use qoder_model_gateway.Base.{
  ℕ, suc, Bool, true, false, not, Option, none, some, ◌++◌, if◌then◌else◌, is_nil, Text, codes,
}
use qoder_model_gateway.Codec.Errors.{
  invalid_input, backend_failure, context_closed, Error, canceled, deadline_exceeded, protocol,
  plain, wrapped, Result, ok, err, then_do, protocol_error_from, is_canceled, is_deadline,
  operation_failed,
}
use qoder_model_gateway.Codec.Credential.{check_context}
use qoder_model_gateway.Auth.User.{ProtocolUserInfo, RuntimeFieldInput, RuntimeFieldOutput}
use qoder_model_gateway.Native.Infer.{
  Snapshot, InferInput, PreparedRequest, Host, prepare_native_infer_request,
}

-- `normalizeNativeContextStageError`.
unfoldable pub normalize_stage_error : Text → Error → Error
normalize_stage_error stage e =
    if is_canceled e
    then canceled
    else if is_deadline e
    then deadline_exceeded
    else elim (protocol_error_from e) [
      | some t ↦ e
      | none ↦ protocol backend_failure operation_failed (wrapped stage e)
    ]

abbrev pub normalized {ℓ} : {A : Type ℓ} → Text → Result A → Result A
normalized stage (ok a) = ok a
normalized stage (err e) = err (normalize_stage_error stage e)

unfoldable pub invalid_native_context_input : Text → Error
invalid_native_context_input category =
    protocol invalid_input (codes "native protocol context input is invalid") (plain category)

abbrev pub need : Bool → Error → Option Error → Option Error
need b e rest = if b then rest else some e

-- `validateNativeContextFactoryInput`, for tags that are not nil.
unfoldable pub validate_factory_input : Bool → Snapshot → Option Error
validate_factory_input host_complete c =
    need host_complete
      (invalid_native_context_input
        (codes "native context fallback host dependencies are incomplete"))
      (need (not (is_nil c.machine_id))
        (invalid_native_context_input (codes "native context machine ID is empty"))
        (need (not (is_nil c.version))
          (invalid_native_context_input (codes "native context version is empty"))
          (need (not (is_nil c.user.uid))
            (invalid_native_context_input (codes "native context user ID is empty"))
            (need (not (is_nil c.scene.client_type))
              (invalid_native_context_input (codes "native context scene client type is empty"))
              (need (not (is_nil c.scene.business_product))
                (invalid_native_context_input
                  (codes "native context scene business product is empty"))
                (need (not (is_nil c.scene.business_type))
                  (invalid_native_context_input
                    (codes "native context scene business type is empty"))
                  (need (not (is_nil c.scene.scene))
                    (invalid_native_context_input (codes "native context scene name is empty"))
                    none)))))))

-- A context: what it was made with, and whether it is closed. `closeErr` is never set.
pub record NativeContext : Type 0 where
  pub snapshot : Snapshot
  pub closed : Bool

unfoldable pub generator_input : ProtocolUserInfo → RuntimeFieldInput
generator_input u = record {
  uid = u.uid;
  organization_id = u.organization_id;
  organization_tags = u.organization_tags;
  data_policy_agreed = u.data_policy_agreed;
}

-- `New`: the generator runs for its errors, and what it gives is dropped.
unfoldable pub new_context :
    Option Error
    → Bool
    → (RuntimeFieldInput → Result RuntimeFieldOutput)
    → Snapshot
    → Result NativeContext
new_context cancelation host_complete generate c = check_context cancelation (
    check_context (validate_factory_input host_complete c) (
      then_do
        (normalized (codes "initialize native context runtime fields")
          (generate (generator_input c.user)))
        (λ f. ok (record { snapshot = c; closed = false }))))

abbrev pub closed_error : Error
closed_error =
    protocol context_closed (codes "Qoder protocol context is closed")
      (plain (codes "native protocol context is closed"))

unfoldable pub prepare_infer_request :
    Host → Option Error → InferInput → NativeContext → Result PreparedRequest
prepare_infer_request h cancelation i c =
    if c.closed
    then err closed_error
    else check_context cancelation (
        normalized (codes "prepare native inference request")
          (prepare_native_infer_request h c.snapshot i))

-- `Close`, which gives no error and does nothing the second time.
unfoldable pub close : NativeContext → NativeContext
close c = record c { closed = true }

-- protocol_services.go: which capabilities are there.
pub record Capabilities : Type 0 where
  pub credentials : Bool
  pub runtime_fields : Bool
  pub model_cache : Bool
  pub context_factory : Bool

unfoldable pub missing : Text → Error
missing m =
    protocol backend_failure (codes "protocol services are incomplete")
      (plain (codes "required protocol capability " ++ (m ++ codes " is unavailable")))

unfoldable pub validate_protocol_services : Option Capabilities → Option Error
validate_protocol_services none = some (missing (codes "services"))
validate_protocol_services (some c) = need c.credentials (missing (codes "credentials")) (
    need c.runtime_fields (missing (codes "runtime-fields")) (
      need c.model_cache (missing (codes "model-cache"))
        (need c.context_factory (missing (codes "context-factory")) none)))

-- `protocolServices.Close` runs `closeFn` once and keeps its error.
pub record Services : Type 0 where
  pub close_done : Bool
  pub close_err : Option Error
  pub close_calls : ℕ

-- The error of `closeFn` of this call, where there is a `closeFn`.
unfoldable pub close_services : Option (Option Error) → Services → Option Error × Services
close_services f s = if s.close_done then (s.close_err, s) else elim f [
  | none ↦ (s.close_err, record s { close_done = true })
  | some none ↦ (s.close_err, record s { close_done = true; close_calls = suc s.close_calls })
  | some (some e) ↦
      let x = some (wrapped (codes "close protocol service failed") e) in
      (x, record s { close_done = true; close_err = x; close_calls = suc s.close_calls })
]
