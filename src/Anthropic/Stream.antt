-- ===== src/Anthropic/Stream.antt =====
-- proxy.go: `streamState`, the state of one streamed Messages reply, and its methods. The writer is
-- the list of events written so far; counters do not wrap below 2 ^ 63 blocks.
pub mod Order
pub mod Deltas
use qoder_model_gateway.Base.{
  ℕ, ◌+◌, Bool, true, false, not, ◌&&◌, ◌||◌, List, [], ◌∷◌, ◌++◌, Option, none, some, Text, codes,
  text_eq, if◌then◌else◌, is_nil,
}
use qoder_model_gateway.Upstream.{
  Chunk, Choice, ToolCallDelta, Usage, Account, no_account, set_usage, map_stop_reason, finish_of,
}
use qoder_model_gateway.Anthropic.Event.{
  Kind, thinking, text, tool_use, same_kind, Payload, empty_thinking, empty_text, empty_tool, Event,
  message_start, block_start, block_delta, block_stop, message_delta, message_stop,
}

-- `block_type` is `none` for the empty string of the source.
pub record StreamState : Type 0 where
  pub msg_id : Text
  pub model : Text
  pub block_type : Option Kind
  pub block_index : ℕ
  pub tool_id : Text
  pub tool_name : Text
  pub started : Bool
  pub stopped : Bool
  pub account : Account
  pub stop_reason : Text
  pub written : List Event

abbrev pub fresh : Text → Text → StreamState
fresh id name = record {
  msg_id = id;
  model = name;
  block_type = none;
  block_index = 0;
  tool_id = [];
  tool_name = [];
  started = false;
  stopped = false;
  account = no_account;
  stop_reason = [];
  written = [];
}

abbrev pub is_open : Option Kind → Kind → Bool
is_open none k = false
is_open (some j) k = same_kind j k

unfoldable pub emit : Event → StreamState → StreamState
emit e s = if s.stopped then s else record s { written = s.written ++ e ∷ [] }

unfoldable pub send_message_start : StreamState → StreamState
send_message_start s =
    if s.started then s else emit (message_start s.msg_id s.model) (record s { started = true })

unfoldable pub close_block : StreamState → StreamState
close_block s = elim s.block_type [
  | none ↦ s
  | some k ↦
      let t = emit (block_stop s.block_index) s in
      record t { block_type = none; block_index = t.block_index + 1 }
]

-- Always begins a new block, also when one of the same kind is open.
unfoldable pub start_block : Kind → Payload → StreamState → StreamState
start_block k p s =
    let t = close_block (send_message_start s) in
    emit (block_start t.block_index p) (record t { block_type = some k })

unfoldable pub open_block : Kind → Payload → StreamState → StreamState
open_block k p s =
    let t = send_message_start s in if is_open t.block_type k then t else start_block k p t

unfoldable pub emit_delta : Kind → Text → StreamState → StreamState
emit_delta k d s = emit (block_delta s.block_index k d) s

unfoldable pub finish : StreamState → StreamState
finish s =
    if s.stopped
    then s
    else let t = close_block s in
      let u = if is_nil t.stop_reason then record t { stop_reason = codes "end_turn" } else t in
      let v = emit message_stop (emit (message_delta u.stop_reason u.account) u) in
      record v { stopped = true }

-- The start of a block for a tool call: an id always starts one, a name only when none is open.
unfoldable pub tool_start : ToolCallDelta → StreamState → StreamState
tool_start tc s =
    if not (is_nil tc.id) || (not (is_nil tc.name) && not (is_open s.block_type tool_use))
    then (let i = if is_nil tc.id then s.tool_id else tc.id in
        let n = if is_nil tc.name then s.tool_name else tc.name in
        start_block tool_use (empty_tool i n) (record s { tool_id = i; tool_name = n }))
    else s

unfoldable pub tool_arguments : Text → StreamState → StreamState
tool_arguments args s =
    if is_nil args
    then s
    else emit_delta tool_use args (
        if is_open s.block_type tool_use
        then s
        else start_block tool_use (empty_tool s.tool_id s.tool_name) s)

unfoldable pub tool_call : ToolCallDelta → StreamState → StreamState
tool_call tc s = tool_arguments tc.arguments (tool_start tc s)

unfoldable pub tool_calls : List ToolCallDelta → StreamState → StreamState
tool_calls [] s = s
tool_calls (tc ∷ tcs) s = tool_calls tcs (tool_call tc s)

unfoldable pub reasoning_delta : Text → StreamState → StreamState
reasoning_delta d s =
    if is_nil d then s else emit_delta thinking d (open_block thinking empty_thinking s)

unfoldable pub content_delta : Text → StreamState → StreamState
content_delta d s = if is_nil d then s else emit_delta text d (open_block text empty_text s)

unfoldable pub charge : Option Usage → StreamState → StreamState
charge none s = s
charge (some u) s = record s { account = set_usage u }

unfoldable pub end_choice : Option Text → Option Usage → StreamState → StreamState
end_choice none u s = s
end_choice (some r) u s = close_block (charge u (record s { stop_reason = map_stop_reason r }))

unfoldable pub handle_choice : List Choice → Option Usage → StreamState → StreamState
handle_choice [] u s = charge u s
handle_choice (ch ∷ rest) u s = end_choice (finish_of ch) u (
    tool_calls ch.delta.tool_calls
      (content_delta ch.delta.content (reasoning_delta ch.delta.reasoning_content s)))

unfoldable pub handle_chunk : Chunk → StreamState → StreamState
handle_chunk c s = handle_choice c.choices c.usage s

unfoldable pub handle_chunks : List Chunk → StreamState → StreamState
handle_chunks [] s = s
handle_chunks (c ∷ cs) s = handle_chunks cs (handle_chunk c s)
