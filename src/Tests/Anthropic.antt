-- ===== src/Tests/Anthropic.antt =====
-- Runs of the Anthropic conversion and of the event stream reader of proxy.go.
use qoder_model_gateway.Base.{
  ◌≡◌, refl, ◌∙◌, true, false, none, some, List, [], ◌∷◌, Text, codes, text_eq, has_prefix,
  trim_prefix, is_space, trim_left, trim_right, trim_space,
}
use qoder_model_gateway.Base.Int.{pos}
use qoder_model_gateway.Upstream.{Chunk, Delta, finish_of, ToolCallDelta}
use qoder_model_gateway.Sse.{
  Frame, pending, complete, empty_frame, go_on, eof, closed, halt, read_sse, write_frames,
  read_lines, read_end, lines, lines_from, read_line, read_field, flush, add_data,
}
use qoder_model_gateway.Sse.RoundTrip.{IsEvent, read_sse-write_frames, collect}
use qoder_model_gateway.Anthropic.Event.{before, observe_all}
use qoder_model_gateway.Anthropic.Stream.{
  fresh, handle_chunk, handle_choice, end_choice, charge, close_block, content_delta,
  reasoning_delta, emit, emit_delta, open_block, start_block, send_message_start, tool_calls,
  tool_call, tool_start, tool_arguments,
}
use qoder_model_gateway.Anthropic.Stream.Order.{fresh-IsLive, started-finish}
use qoder_model_gateway.Anthropic.Session.{
  Decoder, Message, Session, handle_frame, stream_anthropic, end_session, frame_message,
  payload_message, body_message, chunk_message, handle_message,
}
use qoder_model_gateway.Anthropic.Session.Order.{
  IsComplete, stream_anthropic_order, finish_before_start,
}

abbrev tool_delta : ToolCallDelta
tool_delta = record {
  id = codes "call_1";
  index = 0;
  type = codes "function";
  name = codes "grep";
  arguments = codes "{}";
}

abbrev delta : Delta
delta = record {
  role = codes "assistant";
  content = codes "hi";
  reasoning_content = codes "hm";
  tool_calls = tool_delta ∷ [];
}

abbrev chunk : Chunk
chunk = record {
  id = codes "c1";
  object = codes "chunk";
  created = pos 0;
  model = codes "m";
  choices = record { index = 0; delta = delta; finish_reason = some (codes "tool_calls") } ∷ [];
  usage = none;
  error = none;
}

-- Every payload is an envelope of the chunk above.
abbrev decoder : Decoder
decoder = record {
  envelope = λ p. some (record { body = p; status_code_value = pos 200 });
  chunk = λ b. some chunk;
  message = λ b. [];
  format_int = λ n. [];
}

abbrev frames : List Frame
frames =
    record { event = codes "message"; payload = codes "{}" }
    ∷ record { event = codes "finish"; payload = [] }
    ∷ []

message-IsEvent : IsEvent (codes "message")
unfolding trim_space trim_left trim_right is_space
message-IsEvent = record {
  nonempty = refl;
  one_line = (refl, (refl, (refl, (refl, (refl, (refl, (refl, tt)))))));
  trimmed = refl;
}

finish-IsEvent : IsEvent (codes "finish")
unfolding trim_space trim_left trim_right is_space
finish-IsEvent = record {
  nonempty = refl;
  one_line = (refl, (refl, (refl, (refl, (refl, (refl, tt))))));
  trimmed = refl;
}

read_sse-write_frames_example : read_sse collect (write_frames frames) eof [] ≡ (frames, closed)
read_sse-write_frames_example = read_sse-write_frames frames (
  record { event_ok = message-IsEvent; payload_ok = (refl, (refl, tt)) },
  (record { event_ok = finish-IsEvent; payload_ok = tt }, tt),
)

abbrev wire : Text
wire = codes "data:{}\n\n"

abbrev outcome : Session
outcome = stream_anthropic decoder true (codes "msg_1") (codes "m") wire eof

lines-wire : lines wire ≡ codes "data:{}" ∷ [] ∷ []
unfolding lines lines_from
lines-wire = refl

abbrev wire_frame : Frame
wire_frame = record { event = []; payload = codes "{}" }

first_line : read_line (codes "data:{}") empty_frame ≡ pending wire_frame
unfolding trim_left read_line read_field trim_right is_space has_prefix trim_prefix add_data flush
first_line = refl

second_line : read_line [] wire_frame ≡ complete wire_frame
unfolding read_line read_field trim_right flush trim_left
second_line = refl

wire_message : frame_message decoder wire_frame ≡ Message.arrived chunk
unfolding frame_message payload_message body_message chunk_message trim_space trim_left trim_right
    is_space text_eq
wire_message = refl

abbrev unstarted : Session
unstarted = record { stream = fresh (codes "msg_1") (codes "m"); proto_err = none }

abbrev after_wire : Session
after_wire = record { stream = handle_chunk chunk unstarted.stream; proto_err = none }

after_wire_start : (after_wire.stream.started ≡ true) × (after_wire.stream.stopped ≡ false)
unfolding handle_chunk handle_choice end_choice charge close_block content_delta reasoning_delta
    emit emit_delta open_block start_block send_message_start tool_calls tool_call tool_start
    tool_arguments finish_of text_eq
after_wire_start = (refl, refl)

wire_step : handle_frame decoder true wire_frame unstarted ≡ go_on after_wire
unfolding handle_frame handle_message
wire_step = rw (wire_message, after_wire_start.1) refl

wire_start : outcome.stream.started ≡ true
unfolding stream_anthropic end_session read_sse read_lines read_end flush handle_chunk handle_choice
    end_choice
wire_start =
    rw
      (
        lines-wire, first_line, second_line, wire_step, after_wire_start.1, after_wire_start.0,
        read_lines,
      )
      (started-finish after_wire.stream ∙ after_wire_start.0)

stream_anthropic_order_example : IsComplete outcome.stream.written
stream_anthropic_order_example =
    stream_anthropic_order decoder true (codes "msg_1") (codes "m") wire eof wire_start

finish_before_start_example :
    (t : Session) × (handle_frame decoder true
        (record { event = codes "finish"; payload = [] })
        unstarted
      ≡ halt t)
    × (observe_all before t.stream.written ≡ none)
finish_before_start_example =
    finish_before_start decoder true (record { event = codes "finish"; payload = [] }) unstarted
      (record { live = fresh-IsLive (codes "msg_1") (codes "m"); no_error = refl }) refl refl
