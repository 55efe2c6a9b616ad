-- ===== src/Anthropic/Collect.antt =====
-- proxy.go: `collectAnthropic`, the whole Messages reply of a request that does not stream.
pub mod Agreement
use qoder_model_gateway.Base.{
  ℕ, zero, suc, ◌+◌, ◌-◌, ◌*◌, ◌/◌, ◌%◌, ◌^◌, ◌≤◌, ◌<◌, ◌≡◌, refl, sym, ap, ◌∙◌, ◌≢◌, ◌↔◌, ◌⊎◌, inl,
  inr, Bool, true, false, not, ◌&&◌, ◌||◌, Option, none, some, List, [], ◌∷◌, ◌++◌, map, append-nil,
  append_assoc, arith, ltb, leb, ◌==◌, if◌then◌else◌, ltb→lt, lt→ltb, leb→le, ==_iff, Bool-cases,
  Option-cases, is_some, ◌>>=◌, length, get_elem?, take, drop, replicate, is_nil, get_last?,
  length-append, take-append-drop, length-take, length-drop, length-replicate, take-append_exact,
  drop-append_exact, All, All-append, Text, codes, text_eq, text_eq_iff, text_eq_refl, has_prefix,
  trim_prefix, has_prefix-append, has_suffix, trim_suffix, join, is_space, trim_left, trim_right,
  trim_space,
}
use qoder_model_gateway.Upstream.{
  Chunk, Choice, ToolCallDelta, Usage, Account, no_account, set_usage, map_stop_reason, finish_of,
}
use qoder_model_gateway.Sse.{Frame, Turn, go_on, halt, Ending, read_sse}
use qoder_model_gateway.Anthropic.Session.{Decoder, Message, payload_message}

pub record Tool : Type 0 where
  pub id : Text
  pub name : Text
  pub args : Text

-- The variables of the handler; `first_err` is empty while there is no error.
pub record Collected : Type 0 where
  pub text : Text
  pub thinking : Text
  pub tools : List Tool
  pub cur_tool : Option Tool
  pub stop_reason : Text
  pub account : Account
  pub first_err : Text

abbrev pub nothing : Collected
nothing = record {
  text = [];
  thinking = [];
  tools = [];
  cur_tool = none;
  stop_reason = codes "end_turn";
  account = no_account;
  first_err = [];
}

unfoldable pub flush_tool : Collected → Collected
flush_tool s = elim s.cur_tool [
  | none ↦ s
  | some t ↦ record s { tools = s.tools ++ t ∷ []; cur_tool = none }
]

unfoldable pub begin_tool : ToolCallDelta → Collected → Collected
begin_tool tc s =
    if not (is_nil tc.id) || not (is_nil tc.name)
    then record (flush_tool s) {
      cur_tool = some (record { id = tc.id; name = tc.name; args = [] });
    }
    else s

-- Arguments that come before any tool are dropped.
unfoldable pub add_arguments : Text → Collected → Collected
add_arguments a s = if is_nil a then s else elim s.cur_tool [
  | none ↦ s
  | some t ↦ record s { cur_tool = some (record t { args = t.args ++ a }) }
]

unfoldable pub add_tool_call : ToolCallDelta → Collected → Collected
add_tool_call tc s = add_arguments tc.arguments (begin_tool tc s)

unfoldable pub add_tool_calls : List ToolCallDelta → Collected → Collected
add_tool_calls [] s = s
add_tool_calls (tc ∷ tcs) s = add_tool_calls tcs (add_tool_call tc s)

unfoldable pub add_usage : Option Usage → Collected → Collected
add_usage none s = s
add_usage (some u) s = record s { account = set_usage u }

unfoldable pub add_finish : Option Text → Option Usage → Collected → Collected
add_finish none u s = s
add_finish (some r) u s = add_usage u (record s { stop_reason = map_stop_reason r })

-- `WriteString` of an empty text writes nothing.
unfoldable pub add_choice : List Choice → Option Usage → Collected → Collected
add_choice [] u s = add_usage u s
add_choice (ch ∷ rest) u s = add_finish (finish_of ch) u (
    add_tool_calls ch.delta.tool_calls (record s {
      thinking = s.thinking ++ ch.delta.reasoning_content;
      text = s.text ++ ch.delta.content;
    }))

unfoldable pub add_chunk : Chunk → Collected → Collected
add_chunk c s = add_choice c.choices c.usage s

unfoldable pub add_chunks : List Chunk → Collected → Collected
add_chunks [] s = s
add_chunks (c ∷ cs) s = add_chunks cs (add_chunk c s)

-- A block of the reply's `content`; the input of a tool is a JSON text.
pub data Content : Type 0 where
  thinking text : Text → Content
  tool_use : Text → Text → Text → Content

pub data Reply : Type 0 where
  failure : ℕ → Text → Reply
  message : Text → Text → List Content → Text → Account → Reply

module _ (valid : Text → Bool) where
  -- `json.Valid` is the parameter.
  unfoldable pub tool_content : Tool → Content
  tool_content t =
      tool_use t.id t.name (if not (is_nil t.args) && valid t.args then t.args else codes "{}")

  unfoldable pub contents : Collected → List Content
  contents s =
      (if is_nil s.thinking then [] else Content.thinking s.thinking ∷ [])
      ++ ((if is_nil s.text then [] else Content.text s.text ∷ []) ++ map tool_content s.tools)

module _ (j : Decoder) where
  -- Here an empty payload is skipped before the event is looked at.
  unfoldable pub collect_message : Frame → Message
  collect_message f =
      let payload = trim_space f.payload in
      if is_nil payload
      then Message.skipped
      else if text_eq f.event (codes "finish")
      then Message.finished
      else payload_message j payload

  unfoldable pub take_message : Message → Collected → Turn Collected
  take_message Message.finished s = halt s
  take_message Message.skipped s = go_on s
  take_message (Message.failed m) s = halt (record s { first_err = m })
  take_message (Message.arrived c) s = go_on (add_chunk c s)

  unfoldable pub collect_frame : Frame → Collected → Turn Collected
  collect_frame f s = take_message (collect_message f) s

  -- The error of `readSSE` is not looked at.
  unfoldable pub collect_anthropic : (Text → Bool) → Text → Text → Text → Ending → Reply
  collect_anthropic valid id model body e =
      let s = flush_tool (read_sse collect_frame body e nothing).0 in
      if is_nil s.first_err
      then message id model (contents valid s) s.stop_reason s.account
      else failure 502 s.first_err
