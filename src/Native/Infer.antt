-- ===== src/Native/Infer.antt =====
-- native_infer.go: the request for the model, with its signature. The clock, the entropy, the context of
-- the call, MD5, `encoding/json` and the printing of numbers are parameters.
pub mod Server
pub mod Errors
use qoder_model_gateway.Base.{
  ℕ, zero, suc, ◌+◌, ◌-◌, ◌*◌, ◌/◌, ◌%◌, ◌^◌, ◌≤◌, ◌<◌, ◌≡◌, refl, sym, ap, ◌∙◌, ◌≢◌, ◌↔◌, ◌⊎◌, inl,
  inr, Bool, true, false, not, ◌&&◌, ◌||◌, Option, none, some, List, [], ◌∷◌, ◌++◌, map, append-nil,
  append_assoc, arith, ltb, leb, ◌==◌, if◌then◌else◌, ltb→lt, lt→ltb, leb→le, ==_iff, Bool-cases,
  Option-cases, is_some, ◌>>=◌, length, get_elem?, take, drop, replicate, is_nil, get_last?,
  length-append, take-append-drop, length-take, length-drop, length-replicate, take-append_exact,
  drop-append_exact, All, All-append, Text, codes, text_eq, text_eq_iff, text_eq_refl, has_prefix,
  trim_prefix, has_prefix-append, has_suffix, trim_suffix, join, is_space, trim_left, trim_right,
  trim_space,
}
use qoder_model_gateway.Base.Int.{ℤ}
use qoder_model_gateway.Codec.Errors.{
  Kind, invalid_input, auth_unavailable, entropy_failure, backend_failure, Error, canceled,
  deadline_exceeded, protocol, plain, wrapped, Result, ok, err, then_do, protocol_error_from,
  is_canceled, is_deadline, operation_failed,
}
use qoder_model_gateway.Codec.Credential.{check_context}
use qoder_model_gateway.Codec.Base64.{std_alphabet}
use qoder_model_gateway.Codec.Base64
use qoder_model_gateway.Codec.Body
use qoder_model_gateway.Codec.Uuid.{reverse_mask_uuid, format_lower_uuid, hex}
use qoder_model_gateway.Auth.User.{ProtocolUserInfo}

pub record Scene : Type 0 where
  pub client_type : Text
  pub business_product : Text
  pub business_type : Text
  pub scene : Text

-- `nativeContextSnapshot`, less the dependencies.
pub record Snapshot : Type 0 where
  pub machine_id : Text
  pub version : Text
  pub user : ProtocolUserInfo
  pub scene : Scene

pub record InferInput : Type 0 where
  pub endpoint : Text
  pub body : Text
  pub model_key : Text
  pub model_source : Text

-- The names of the fields are those of the source; `net/http` changes their case.
abbrev pub Header : Type 0
Header = List (Text × Text)

pub record PreparedRequest : Type 0 where
  pub url : Text
  pub header : Header
  pub body : Text

pub record Payload : Type 0 where
  pub version : Text
  pub request_id : Text
  pub info : Text
  pub cosy_version : Text
  pub ide_version : Text

-- `context_error` is `ctx.Err()` each time it is asked; `clock` gives Unix seconds.
pub record Host : Type 0 where
  pub context_error : ℕ → Option Error
  pub is_complete : Bool
  pub clock : Result ℤ
  pub entropy : Result Text
  pub format_int : ℤ → Text
  pub marshal : Payload → Result Text
  pub md5 : Text → Text

abbrev pub native_infer_path : Text
native_infer_path = codes "/algo/api/v2/service/pro/sse/agent_chat_generation"

abbrev pub cosy_signed_path : Text
cosy_signed_path = codes "/api/v2/service/pro/sse/agent_chat_generation"

abbrev pub native_infer_query : Text
native_infer_query = codes "?FetchKeys=llm_model_result&AgentId=agent_common&Encode=1"

unfoldable pub native_infer_url : Text → Text
native_infer_url endpoint = endpoint ++ (native_infer_path ++ native_infer_query)

abbrev auth_error : Text → Error
auth_error m = protocol auth_unavailable (codes "Qoder authentication is unavailable") (plain m)

unfoldable pub validate_native_infer_preparation : Host → Snapshot → Option Error
validate_native_infer_preparation h s =
    if is_nil s.user.encrypt_user_info
    then some (auth_error (codes "encrypted user information is empty"))
    else if is_nil s.user.key
    then some (auth_error (codes "runtime key is empty"))
    else if not h.is_complete
    then some (
        protocol backend_failure operation_failed
          (plain (codes "native inference host dependencies are incomplete")))
    else none

-- `nativeInferCancellation`, given `ctx.Err()`.
unfoldable pub native_infer_cancellation : Option Error → Error → Option Error
native_infer_cancellation (some c) e = some c
native_infer_cancellation none e =
    if is_canceled e then some canceled else if is_deadline e then some deadline_exceeded else none

-- How the errors of the clock and of the entropy are told.
unfoldable pub host_error : Option Error → Kind → Text → Text → Error → Error
host_error c kind public action e = elim (native_infer_cancellation c e) [
  | some x ↦ x
  | none ↦ elim (protocol_error_from e) [
    | some t ↦ e
    | none ↦ protocol kind public (wrapped action e)
  ]
]

abbrev pub host_result {ℓ} : {A : Type ℓ} → (Error → Error) → Result A → Result A
host_result f (ok a) = ok a
host_result f (err e) = err (f e)

unfoldable pub read_clock : Host → Result ℤ
read_clock h =
    let f =
      host_error (h.context_error 2) backend_failure operation_failed
        (codes "read native inference clock") in
    then_do (host_result f h.clock) (λ now. check_context (h.context_error 2) (ok now))

unfoldable pub read_entropy : Host → Result Text
read_entropy h =
    let f =
      host_error (h.context_error 3) entropy_failure (codes "Qoder protocol entropy is unavailable")
        (codes "read native inference request entropy") in
    then_do (host_result f h.entropy) (λ b. check_context (h.context_error 3) (ok b))

unfoldable pub native_infer_request_id : Text → Result Text
native_infer_request_id entropy =
    if length entropy == 16
    then ok (format_lower_uuid (reverse_mask_uuid entropy))
    else err (
        protocol invalid_input (codes "native inference input is invalid")
          (plain (codes "native infer request entropy length is invalid")))

unfoldable pub payload_of : Text → Text → Text → Payload
payload_of request_id info cosy_version = record {
  version = codes "v1";
  request_id = request_id;
  info = info;
  cosy_version = cosy_version;
  ide_version = [];
}

unfoldable pub native_infer_payload : Host → Text → Text → Text → Result Text
native_infer_payload h request_id info cosy_version =
    then_do (h.marshal (payload_of request_id info cosy_version))
      (λ raw. ok (Base64.encode std_alphabet raw))

abbrev pub newline : ℕ
newline = 10

unfoldable pub signed_text : Text → Text → Text → Text → Text
signed_text payload key seconds body =
    payload
    ++ newline ∷ (key ++ newline ∷ (seconds ++ newline ∷ (body ++ newline ∷ cosy_signed_path)))

unfoldable pub native_infer_signature : Host → Text → Text → Text → Text → Text
native_infer_signature h payload key seconds body =
    hex (h.md5 (signed_text payload key seconds body))

abbrev pub bearer : Text
bearer = codes "Bearer COSY."

abbrev pub dot : ℕ
dot = b'.'

abbrev when : Bool → Header → Header
when b h = if b then h else []

unfoldable pub native_infer_headers : Text → Text → Snapshot → InferInput → Header
native_infer_headers authorization seconds s i =
    (codes "Accept", codes "text/event-stream")
    ∷ (codes "Authorization", authorization)
    ∷ (codes "Cache-Control", codes "no-cache")
    ∷ (codes "Connection", codes "keep-alive")
    ∷ (codes "Content-Type", codes "application/json")
    ∷ (codes "Cosy-Business-Product", s.scene.business_product)
    ∷ (codes "Cosy-Business-Type", s.scene.business_type)
    ∷ (codes "Cosy-ClientType", s.scene.client_type)
    ∷ (
      codes "Cosy-Data-Policy",
      if s.user.data_policy_agreed then codes "agree" else codes "disagree",
    )
    ∷ (codes "Cosy-Date", seconds)
    ∷ (codes "Cosy-Key", s.user.key)
    ∷ (codes "Cosy-MachineId", s.machine_id)
    ∷ (codes "Cosy-MachineToken", s.machine_id)
    ∷ (codes "Cosy-MachineType", codes "5")
    ∷ (when (not (is_nil s.user.organization_id))
          ((codes "Cosy-Organization-Id", s.user.organization_id) ∷ [])
        ++ (when (not (is_nil s.user.organization_tags))
              ((codes "Cosy-Organization-Tags", join s.user.organization_tags (codes ",")) ∷ [])
            ++ ((codes "Cosy-Scene", s.scene.scene)
                ∷ (codes "Cosy-User", s.user.uid)
                ∷ (codes "Cosy-Version", s.version)
                ∷ (codes "Login-Version", codes "v2")
                ∷ when (not (is_nil i.model_key)) (
                    (codes "X-Model-Key", i.model_key)
                    ∷ (codes "X-Model-Source", i.model_source)
                    ∷ []))))

unfoldable pub signed_request : Host → Snapshot → InferInput → Text → Text → PreparedRequest
signed_request h s i seconds payload =
    let body = Body.encode i.body in
    let signature = native_infer_signature h payload s.user.key seconds body in
    record {
      url = native_infer_url i.endpoint;
      header = native_infer_headers (bearer ++ (payload ++ dot ∷ signature)) seconds s i;
      body = body;
    }

-- What follows the reading of the clock and of the entropy.
unfoldable pub sign : Host → Snapshot → InferInput → ℤ → Text → Result PreparedRequest
sign h s i now entropy = then_do (native_infer_request_id entropy) (λ id.
    then_do (native_infer_payload h id s.user.encrypt_user_info s.version)
      (λ payload. ok (signed_request h s i (h.format_int now) payload)))

unfoldable pub read_and_sign : Host → Snapshot → InferInput → Result PreparedRequest
read_and_sign h s i =
    then_do (read_clock h) (λ now. then_do (read_entropy h) (λ e. sign h s i now e))

-- `prepareNativeInferRequest`; the encoding of a body does not fail.
unfoldable pub prepare_native_infer_request : Host → Snapshot → InferInput → Result PreparedRequest
prepare_native_infer_request h s i = check_context (h.context_error 0) (
    check_context (validate_native_infer_preparation h s)
      (check_context (h.context_error 1) (read_and_sign h s i)))
