-- ===== src/Tests/Native.antt =====
-- Runs of the preparation of a request at concrete inputs.
use qoder_model_gateway.Base.{
  ◌≡◌, refl, true, Option, none, some, [], arith, length, take, replicate, Text, codes,
}
use mathlib.Core.Path.{subst}
use qoder_model_gateway.Base.Int.{pos}
use qoder_model_gateway.Codec.Errors.{Error, ok}
use qoder_model_gateway.Codec.Base64.{std_alphabet}
use qoder_model_gateway.Codec.Base64
use qoder_model_gateway.Codec.Base64.RoundTrip.{IsBytes}
use qoder_model_gateway.Codec.Uuid.{reverse_mask_uuid, format_lower_uuid}
use qoder_model_gateway.Native.Infer.{
  Snapshot, InferInput, PreparedRequest, Payload, Host, native_infer_url, payload_of,
  signed_request, prepare_native_infer_request, validate_native_infer_preparation, read_and_sign,
  read_clock, read_entropy, sign, native_infer_request_id, native_infer_payload,
}
use qoder_model_gateway.Native.Infer.Server.{accept, prepare_native_infer_request-accept}
use qoder_model_gateway.Native.Infer.Errors.{is_classified, prepare_infer_request-classified}
use qoder_model_gateway.Native.Context.{NativeContext, prepare_infer_request, closed_error}

abbrev host : Host
host = record {
  context_error = λ k. none;
  is_complete = true;
  clock = ok (pos 50);
  entropy = ok (replicate 16 7);
  format_int = λ n. codes "50";
  marshal = λ p. ok (codes "{}");
  md5 = λ t. take 16 t;
}

marshal-IsBytes : (p : Payload) (raw : Text) → host.marshal p ≡ ok raw → IsBytes raw
marshal-IsBytes p raw h =
    let b : IsBytes (codes "{}") = omega arith in
    let e : codes "{}" ≡ raw = ground (arith, h) in subst IsBytes e b

abbrev snapshot : Snapshot
snapshot = record {
  machine_id = codes "m";
  version = codes "1.1.34";
  user = record {
    uid = codes "u";
    encrypt_user_info = codes "e";
    key = codes "k";
    organization_id = [];
    organization_tags = [];
    data_policy_agreed = true;
  };
  scene = record {
    client_type = codes "5";
    business_product = codes "cli";
    business_type = codes "agent";
    scene = codes "assistant";
  };
}

abbrev input : InferInput
input = record {
  endpoint = codes "https://x";
  body = codes "{\"a\":1}";
  model_key = codes "auto";
  model_source = codes "system";
}

abbrev request : PreparedRequest
request = signed_request host snapshot input (codes "50") (Base64.encode std_alphabet (codes "{}"))

prepare_native_infer_request-accept_example :
    (b : Text) × (raw : Text) × (host.entropy ≡ ok b)
    × (length b ≡ 16)
    × (host.marshal
          (payload_of (format_lower_uuid (reverse_mask_uuid b)) (codes "e") (codes "1.1.34"))
        ≡ ok raw)
    × (accept host.md5 request ≡ some (raw, codes "{\"a\":1}"))
    × (request.url ≡ native_infer_url (codes "https://x"))
unfolding prepare_native_infer_request validate_native_infer_preparation read_and_sign read_clock
    read_entropy sign native_infer_request_id native_infer_payload
prepare_native_infer_request-accept_example =
    prepare_native_infer_request-accept host snapshot input request marshal-IsBytes (omega arith)
      refl

abbrev closed_context : NativeContext
closed_context = record { snapshot = snapshot; closed = true }

never_fails : (x : Error) → ◌≡◌ {A = Option Error} none (some x) → is_classified x ≡ true
never_fails x h = ground (arith, h)

prepare_infer_request-classified_example : is_classified closed_error ≡ true
unfolding prepare_infer_request
prepare_infer_request-classified_example =
    prepare_infer_request-classified host none input closed_context closed_error never_fails refl
