-- ===== src/Native/Infer/Server.antt =====
-- What a server does with a request of native_infer.go, written without looking at how it is made: it
-- checks the signature by the key, the date and the body of the request, and reads payload and body.
use qoder_model_gateway.Base.{
  ℕ, ◌<◌, ◌≡◌, refl, ap, ◌∙◌, inl, inr, Bool, true, false, not, Option, none, some, [], ◌∷◌, ◌++◌,
  arith, ◌==◌, if◌then◌else◌, ◌>>=◌, length, drop, All, Text, codes, text_eq, text_eq_refl,
  has_prefix, join,
}
use qoder_model_gateway.Base.Int.{ℤ}
use qoder_model_gateway.Codec.Errors.{ok, Result-cases}
use qoder_model_gateway.Codec.Base64.{Alphabet, std_alphabet, digit}
use qoder_model_gateway.Codec.Base64
use qoder_model_gateway.Codec.Base64.RoundTrip.{IsBytes, all_below, all_below_sound}
use qoder_model_gateway.Codec.Body
use qoder_model_gateway.Codec.Body.RoundTrip
use qoder_model_gateway.Codec.Credential.{decode_strict_std_base64}
use qoder_model_gateway.Codec.Credential.RoundTrip.{decode_strict-encode}
use qoder_model_gateway.Codec.Uuid.{hex, reverse_mask_uuid, format_lower_uuid}
use qoder_model_gateway.Native.Infer.{
  Snapshot, InferInput, Header, PreparedRequest, Payload, Host, native_infer_url, read_clock,
  read_entropy, native_infer_request_id, payload_of, native_infer_payload, newline,
  cosy_signed_path, signed_text, native_infer_signature, bearer, dot, native_infer_headers,
  signed_request, sign, read_and_sign, prepare_native_infer_request,
}

unfoldable pub lookup : Text → Header → Option Text
lookup k [] = none
lookup k (x ∷ h) = let rest = lookup k h in if text_eq k x.0 then some x.1 else rest

-- The text before the first dot, and the text after it.
unfoldable pub split_dot : Text → Option (Text × Text)
split_dot [] = none
split_dot (c ∷ s) =
    let rest = split_dot s in
    if c == dot then some ([], s) else elim rest [ none ↦ none | some t ↦ some (c ∷ t.0, t.1) ]

unfoldable pub strip : Text → Text → Option Text
strip p s = if has_prefix s p then some (drop (length p) s) else none

-- What was signed.
unfoldable pub expected : (Text → Text) → Text → Text → Text → Text → Text
expected md5 payload key date body =
    hex (md5 (join (payload ∷ key ∷ date ∷ body ∷ cosy_signed_path ∷ []) (newline ∷ [])))

unfoldable pub check_signature : (Text → Text) → Text → Text → Text → Text × Text → Option Text
check_signature md5 key date body t =
    if text_eq t.1 (expected md5 t.0 key date body) then decode_strict_std_base64 t.0 else none

-- The payload and the body, if the request is accepted.
unfoldable pub accept : (Text → Text) → PreparedRequest → Option (Text × Text)
accept md5 r = lookup (codes "Authorization") r.header >>= λ a.
    lookup (codes "Cosy-Key") r.header >>= λ key. lookup (codes "Cosy-Date") r.header >>= λ date.
    strip bearer a >>= λ s. split_dot s >>= λ t.
    check_signature md5 key date r.body t >>= λ payload.
    Body.decode r.body >>= λ body. some (payload, body)

abbrev HasNoDot : Text → Type 0
HasNoDot = All (λ c. (c == dot) ≡ false)

split_dot_lem : (p s : Text) → HasNoDot p → split_dot (p ++ dot ∷ s) ≡ some (p, s)
unfolding split_dot
split_dot_lem [] s h = refl
split_dot_lem (c ∷ p) s h = ground (arith, h.0, split_dot_lem p s h.1)

unfoldable no_dot : ℕ → Bool
no_dot i = not (digit std_alphabet i == dot)

all_no_dot : all_below 64 no_dot ≡ true
unfolding all_below no_dot Base64.digit Base64.letter_at
all_no_dot = refl

digit_no_dot : (i : ℕ) → i < 64 → (digit std_alphabet i == dot) ≡ false
unfolding no_dot
digit_no_dot i h = ground (arith, all_below_sound 64 no_dot all_no_dot i h)

encode-HasNoDot : (s : Text) → IsBytes s → HasNoDot (Base64.encode std_alphabet s)
unfolding Base64.encode
encode-HasNoDot [] h = tt
encode-HasNoDot (x ∷ []) h =
    (digit_no_dot _ (omega arith), (digit_no_dot _ (omega arith), (refl, (refl, tt))))
encode-HasNoDot (x ∷ y ∷ []) h = (
  digit_no_dot _ (omega arith),
  (digit_no_dot _ (omega arith), (digit_no_dot _ (omega arith), (refl, tt))),
)
encode-HasNoDot (x ∷ y ∷ z ∷ rest) h = (
  digit_no_dot _ (omega arith),
  (
    digit_no_dot _ (omega arith),
    (digit_no_dot _ (omega arith), (digit_no_dot _ (omega arith), encode-HasNoDot rest h.1.1.1)),
  ),
)

strip-bearer : (s : Text) → strip bearer (bearer ++ s) ≡ some s
unfolding strip has_prefix
strip-bearer s = refl

lookup_authorization :
    (a d : Text) (s : Snapshot) (i : InferInput)
    → (lookup (codes "Authorization") (native_infer_headers a d s i) ≡ some a)
      × (lookup (codes "Cosy-Key") (native_infer_headers a d s i) ≡ some s.user.key)
      × (lookup (codes "Cosy-Date") (native_infer_headers a d s i) ≡ some d)
unfolding lookup native_infer_headers text_eq
lookup_authorization a d s i = (refl, refl, refl)

expected-signature :
    (h : Host) (p k d b : Text) → native_infer_signature h p k d b ≡ expected h.md5 p k d b
unfolding expected native_infer_signature signed_text join
expected-signature h p k d b = refl

-- How a request came to be.
record Origin (h : Host) (s : Snapshot) (i : InferInput) (r : PreparedRequest) : Type 0 where
  now : ℤ
  bytes : Text
  raw : Text
  read : h.entropy ≡ ok bytes
  full : length bytes ≡ 16
  marshalled :
      h.marshal (
        payload_of (format_lower_uuid (reverse_mask_uuid bytes)) s.user.encrypt_user_info s.version)
      ≡ ok raw
  made : r ≡ signed_request h s i (h.format_int now) (Base64.encode std_alphabet raw)

sign-Origin :
    (h : Host) (s : Snapshot) (i : InferInput) (r : PreparedRequest) (now : ℤ) (b : Text)
    → h.entropy ≡ ok b
    → sign h s i now b ≡ ok r
    → Origin h s i r
unfolding sign native_infer_request_id native_infer_payload
sign-Origin h s i r now b e g =
    let p =
      payload_of (format_lower_uuid (reverse_mask_uuid b)) s.user.encrypt_user_info s.version in
    elim (Result-cases (h.marshal p)) [
      | inl (x, k) ↦ absurd (ground (arith, k, g))
      | inr (raw, k) ↦ record {
        now = now;
        bytes = b;
        raw = raw;
        read = e;
        full = ground (arith, k, g);
        marshalled = k;
        made = ground (arith, k, g);
      }
    ]

read_and_sign-Origin :
    (h : Host) (s : Snapshot) (i : InferInput) (r : PreparedRequest)
    → read_and_sign h s i ≡ ok r
    → Origin h s i r
unfolding read_and_sign read_clock read_entropy
read_and_sign-Origin h s i r g = elim (Result-cases h.clock) [
  | inl (x, k) ↦ absurd (ground (arith, k, g))
  | inr (now, k) ↦ elim (Result-cases h.entropy) [
    | inl (x, l) ↦ absurd (ground (arith, k, l, g))
    | inr (b, l) ↦ sign-Origin h s i r now b l (ground (arith, k, l, g))
  ]
]

prepare-read_and_sign :
    (h : Host) (s : Snapshot) (i : InferInput) (r : PreparedRequest)
    → prepare_native_infer_request h s i ≡ ok r
    → read_and_sign h s i ≡ ok r
unfolding prepare_native_infer_request
prepare-read_and_sign h s i r g = ground (arith, g)

check_signature-signature :
    (h : Host) (p k d b : Text)
    → check_signature h.md5 k d b (p, native_infer_signature h p k d b) ≡ decode_strict_std_base64 p
unfolding check_signature
check_signature-signature h p k d b =
    rw (expected-signature h p k d b, text_eq_refl (expected h.md5 p k d b)) refl

accept-signed_request :
    (h : Host) (s : Snapshot) (i : InferInput) (d raw : Text)
    → IsBytes raw
    → IsBytes i.body
    → accept h.md5 (signed_request h s i d (Base64.encode std_alphabet raw)) ≡ some (raw, i.body)
unfolding accept signed_request
accept-signed_request h s i d raw v w =
    let p = Base64.encode std_alphabet raw in
    let sig = native_infer_signature h p s.user.key d (Body.encode i.body) in
    let l = lookup_authorization (bearer ++ (p ++ dot ∷ sig)) d s i in
    rw
      (
        l.0,
        l.1,
        l.2,
        strip-bearer (p ++ dot ∷ sig),
        split_dot_lem p sig (encode-HasNoDot raw v),
        check_signature-signature h p s.user.key d (Body.encode i.body),
        decode_strict-encode raw v,
        Body.RoundTrip.decode-encode i.body w,
      )
      refl

-- When a request is prepared, sixteen bytes of entropy were read, and a server that checks the signature
-- by the key, the date and the body of the request accepts it, and reads from it the payload with the
-- identifier made of those bytes and the very body of the input; if the payload and the body are bytes.
pub prepare_native_infer_request-accept :
    (h : Host) (s : Snapshot) (i : InferInput) (r : PreparedRequest)
    → ((p : Payload) (raw : Text) → h.marshal p ≡ ok raw → IsBytes raw)
    → IsBytes i.body
    → prepare_native_infer_request h s i ≡ ok r
    → (b : Text) × (raw : Text) × (h.entropy ≡ ok b)
      × (length b ≡ 16)
      × (h.marshal (
            payload_of (format_lower_uuid (reverse_mask_uuid b)) s.user.encrypt_user_info s.version)
          ≡ ok raw)
      × (accept h.md5 r ≡ some (raw, i.body))
      × (r.url ≡ native_infer_url i.endpoint)
unfolding signed_request
prepare_native_infer_request-accept h s i r v w g =
    let o = read_and_sign-Origin h s i r (prepare-read_and_sign h s i r g) in
    (
      o.bytes,
      o.raw,
      o.read,
      o.full,
      o.marshalled,
      ap (accept h.md5) o.made
          ∙ accept-signed_request h s i (h.format_int o.now) o.raw (v _ o.raw o.marshalled) w,
      ap (λ (x : PreparedRequest). x.url) o.made,
    )
