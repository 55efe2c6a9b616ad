-- ===== src/Chunks.antt =====
-- openai.go: `upstreamChunks`, which turns an upstream body into the chunks that the OpenAI and the
-- Responses handlers consume, and the error that the handlers look at when the chunks have ended. The
-- cancellation of the request is left out.
use qoder_model_gateway.Base.{Option, none, some, List, [], ◌∷◌, ◌++◌, Text}
use qoder_model_gateway.Upstream.{Chunk}
use qoder_model_gateway.Sse.{
  Frame, Turn, go_on, halt, Ending, Outcome, closed, read_error, read_sse,
}
use qoder_model_gateway.Anthropic.Session.{Decoder, Message, frame_message}

-- The chunks sent so far, and the one place of `errc`.
pub record Received : Type 0 where
  pub chunks : List Chunk
  pub errc : Option Text

module _ (j : Decoder) where
  unfoldable pub receive : Message → Received → Turn Received
  receive Message.finished r = halt r
  receive Message.skipped r = go_on r
  receive (Message.failed m) r = halt (record r { errc = some m })
  receive (Message.arrived c) r = go_on (record r { chunks = r.chunks ++ c ∷ [] })

  unfoldable pub receive_frame : Frame → Received → Turn Received
  receive_frame f r = receive (frame_message j f) r

  -- A read error is reported unless an error is there already.
  unfoldable pub report : Text → Received × Outcome → Received
  report m (r, closed) = r
  report m (r, read_error) = elim r.errc [ none ↦ record r { errc = some m } | some e ↦ r ]

  -- The text is that of an error of the transport.
  unfoldable pub upstream_chunks : Text → Text → Ending → Received
  upstream_chunks m body e =
      report m (read_sse receive_frame body e (record { chunks = []; errc = none }))
