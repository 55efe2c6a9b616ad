-- ===== src/Anthropic/Session.antt =====
-- proxy.go: `streamAnthropic`, the handler of one streamed Messages reply over the frames of the
-- upstream body. What `encoding/json` and `fmt` compute is a parameter.
pub mod Order
use qoder_model_gateway.Base.{
  ℕ, zero, suc, ◌+◌, ◌-◌, ◌*◌, ◌/◌, ◌%◌, ◌^◌, ◌≤◌, ◌<◌, ◌≡◌, refl, sym, ap, ◌∙◌, ◌≢◌, ◌↔◌, ◌⊎◌, inl,
  inr, Bool, true, false, not, ◌&&◌, ◌||◌, Option, none, some, List, [], ◌∷◌, ◌++◌, map, append-nil,
  append_assoc, arith, ltb, leb, ◌==◌, if◌then◌else◌, ltb→lt, lt→ltb, leb→le, ==_iff, Bool-cases,
  Option-cases, is_some, ◌>>=◌, length, get_elem?, take, drop, replicate, is_nil, get_last?,
  length-append, take-append-drop, length-take, length-drop, length-replicate, take-append_exact,
  drop-append_exact, All, All-append, Text, codes, text_eq, text_eq_iff, text_eq_refl, has_prefix,
  trim_prefix, has_prefix-append, has_suffix, trim_suffix, join, is_space, trim_left, trim_right,
  trim_space,
}
use qoder_model_gateway.Base.Int.{ℤ, pos}
use qoder_model_gateway.Upstream.{Chunk, ChunkError}
use qoder_model_gateway.Sse.{Frame, Turn, go_on, halt, Ending, Outcome, read_sse}
use qoder_model_gateway.Anthropic.Event.{Event, error}
use qoder_model_gateway.Anthropic.Stream.{StreamState, fresh, emit, finish, handle_chunk}

-- `sseEnvelope`, less the fields that nothing reads.
pub record Envelope : Type 0 where
  pub body : Text
  pub status_code_value : ℤ

-- `json.Unmarshal` into the envelope and the chunk (`none` is an error), the `message` field of an
-- error body (empty when it cannot be read), and `%d`.
pub record Decoder : Type 0 where
  pub envelope : Text → Option Envelope
  pub chunk : Text → Option Chunk
  pub message : Text → Text
  pub format_int : ℤ → Text

-- native_local.go: `nativePublicError`; the flag is `nativeLockedDown`.
unfoldable pub native_public_error : Bool → Text → Text
native_public_error locked m =
    if locked
    then codes
        "Qoder model inference failed. Check the original Qoder CLI login and account model availability."
    else m

abbrev pub is_ok_status : ℤ → Bool
is_ok_status (pos n) = (n == 0) || (n == 200)
is_ok_status _ = false

-- What one frame asks for, before the stream's state is looked at; both `streamAnthropic` and
-- `upstreamChunks` decode frames so.
pub data Message : Type 0 where
  finished skipped : Message
  failed : Text → Message
  arrived : Chunk → Message

-- The state of the handler: the stream's, and `protoErr`.
pub record Session : Type 0 where
  pub stream : StreamState
  pub proto_err : Option Text

module _ (j : Decoder) where
  unfoldable pub status_error : Envelope → Text
  status_error env =
      let m = j.message env.body in
      if is_nil m then codes "upstream error status " ++ j.format_int env.status_code_value else m

  unfoldable pub chunk_message : Chunk → Message
  chunk_message c = elim c.error [
    | none ↦ arrived c
    | some e ↦ if is_nil e.message then arrived c else failed e.message
  ]

  unfoldable pub body_message : Envelope → Message
  body_message env =
      if is_nil env.body
      then skipped
      else elim (j.chunk env.body) [ none ↦ skipped | some c ↦ chunk_message c ]

  unfoldable pub payload_message : Text → Message
  payload_message payload = elim (j.envelope payload) [
    | none ↦ skipped
    | some env ↦
        if is_ok_status env.status_code_value then body_message env else failed (status_error env)
  ]

  unfoldable pub frame_message : Frame → Message
  frame_message f =
      let payload = trim_space f.payload in
      if text_eq f.event (codes "finish")
      then finished
      else if is_nil payload
      then skipped
      else payload_message payload

-- What follows the reading: the reply is finished if it was started and neither stopped nor failed.
unfoldable pub end_session : Session → Session
end_session r =
    if not r.stream.stopped && (not (is_some r.proto_err) && r.stream.started)
    then record r { stream = finish r.stream }
    else r

module _ (j : Decoder) (locked : Bool) where
  unfoldable pub handle_message : Message → StreamState → Turn Session
  handle_message finished s = halt (record { stream = finish s; proto_err = none })
  handle_message skipped s = go_on (record { stream = s; proto_err = none })
  handle_message (failed m) s =
      let p = native_public_error locked m in
      halt (record { stream = emit (error p) s; proto_err = some p })
  handle_message (arrived c) s =
      let t = handle_chunk c s in
      let r : Session = record { stream = t; proto_err = none } in
      if t.stopped then halt r else go_on r

  -- The callback that `streamAnthropic` hands to `readSSE`.
  unfoldable pub handle_frame : Frame → Session → Turn Session
  handle_frame f r = handle_message (frame_message j f) r.stream

  unfoldable pub stream_anthropic : Text → Text → Text → Ending → Session
  stream_anthropic id model body e =
      end_session
        (read_sse handle_frame body e (record { stream = fresh id model; proto_err = none })).0
