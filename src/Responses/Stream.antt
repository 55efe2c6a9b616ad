-- ===== src/Responses/Stream.antt =====
-- responses.go: `respStreamState`, the state of one streamed Responses reply, with its methods, and
-- `streamResponses`. The writer is the list of events written so far; `newUUIDShort` is a parameter
-- that gives the identifier of each draw.
pub mod Order
pub mod Whole
use qoder_model_gateway.Base.{
  ℕ, zero, suc, ◌+◌, ◌-◌, ◌*◌, ◌/◌, ◌%◌, ◌^◌, ◌≤◌, ◌<◌, ◌≡◌, refl, sym, ap, ◌∙◌, ◌≢◌, ◌↔◌, ◌⊎◌, inl,
  inr, Bool, true, false, not, ◌&&◌, ◌||◌, Option, none, some, List, [], ◌∷◌, ◌++◌, map, append-nil,
  append_assoc, arith, ltb, leb, ◌==◌, if◌then◌else◌, ltb→lt, lt→ltb, leb→le, ==_iff, Bool-cases,
  Option-cases, is_some, ◌>>=◌, length, get_elem?, take, drop, replicate, is_nil, get_last?,
  length-append, take-append-drop, length-take, length-drop, length-replicate, take-append_exact,
  drop-append_exact, All, All-append, Text, codes, text_eq, text_eq_iff, text_eq_refl, has_prefix,
  trim_prefix, has_prefix-append, has_suffix, trim_suffix, join, is_space, trim_left, trim_right,
  trim_space,
}
use qoder_model_gateway.Base.Int.{add64}
use qoder_model_gateway.Upstream.{
  Chunk, Choice, ToolCallDelta, Usage, Account, no_account, set_usage, finish_of,
}
use qoder_model_gateway.Responses.Event.{
  Kind, reasoning, message, function_call, same_kind, Item, reasoning_item, message_item, call_item,
  Summary, Body, created, in_progress, item_added, part_added, delta, text_done, part_done,
  item_done, completed, failed, Event,
}

-- `cur_kind` is `none` for the empty string of the source.
pub record RespStreamState : Type 0 where
  pub resp_id : Text
  pub model : Text
  pub seq : ℕ
  pub out_index : ℕ
  pub cur_kind : Option Kind
  pub cur_item_id : Text
  pub fc_call_id : Text
  pub fc_name : Text
  pub text_buf : Text
  pub reason_buf : Text
  pub args_buf : Text
  pub items : List Item
  pub account : Account
  pub stop_reason : Text
  pub drawn : ℕ
  pub written : List Event

abbrev pub fresh : Text → Text → RespStreamState
fresh id name = record {
  resp_id = id;
  model = name;
  seq = 0;
  out_index = 0;
  cur_kind = none;
  cur_item_id = [];
  fc_call_id = [];
  fc_name = [];
  text_buf = [];
  reason_buf = [];
  args_buf = [];
  items = [];
  account = no_account;
  stop_reason = [];
  drawn = 0;
  written = [];
}

unfoldable pub emit : Body → RespStreamState → RespStreamState
emit b s = record s {
  seq = suc s.seq;
  written = s.written ++ record { sequence_number = suc s.seq; body = b } ∷ [];
}

-- The end of an item of a kind: the events, and the item for the summary.
unfoldable pub close_part : Kind → Text → RespStreamState → RespStreamState
close_part k full s =
    emit (part_done s.out_index s.cur_item_id k full)
      (emit (text_done s.out_index s.cur_item_id k full) s)

unfoldable pub end_item : Item → RespStreamState → RespStreamState
end_item it s =
    let t = emit (item_done s.out_index it) s in
    record t { items = t.items ++ it ∷ []; out_index = t.out_index + 1; cur_kind = none }

unfoldable pub close_kind : Kind → RespStreamState → RespStreamState
close_kind reasoning s =
    end_item (reasoning_item s.cur_item_id s.reason_buf) (close_part reasoning s.reason_buf s)
close_kind message s =
    end_item (message_item s.cur_item_id s.text_buf) (close_part message s.text_buf s)
close_kind function_call s =
    end_item (call_item s.cur_item_id s.fc_call_id s.fc_name s.args_buf)
      (emit (text_done s.out_index s.cur_item_id function_call s.args_buf) s)

unfoldable pub close_item : RespStreamState → RespStreamState
close_item s = elim s.cur_kind [ none ↦ s | some k ↦ close_kind k s ]

abbrev pub is_current : Kind → Option Kind → Bool
is_current k none = false
is_current k (some l) = same_kind l k

-- `nil` becomes `null` when no item was finished.
abbrev pub output_of : List Item → Option (List Item)
output_of [] = none
output_of (it ∷ its) = some (it ∷ its)

module _ (new_uuid : ℕ → Text) where
  unfoldable pub begin_item : Kind → Text → RespStreamState → RespStreamState
  begin_item k prefix s = record s {
    cur_kind = some k;
    cur_item_id = prefix ++ new_uuid s.drawn;
    drawn = suc s.drawn;
  }

  unfoldable pub open_reasoning : RespStreamState → RespStreamState
  open_reasoning s =
      if is_current reasoning s.cur_kind
      then s
      else let t = begin_item reasoning (codes "rs_") (close_item s) in
        let u =
          emit (item_added t.out_index (reasoning_item t.cur_item_id []))
            (record t { reason_buf = [] }) in
        emit (part_added u.out_index u.cur_item_id reasoning) u

  unfoldable pub open_message : RespStreamState → RespStreamState
  open_message s =
      if is_current message s.cur_kind
      then s
      else let t = begin_item message (codes "msg_") (close_item s) in
        let u =
          emit (item_added t.out_index (message_item t.cur_item_id []))
            (record t { text_buf = [] }) in
        emit (part_added u.out_index u.cur_item_id message) u

  -- Always begins a new item.
  unfoldable pub open_function_call : Text → Text → RespStreamState → RespStreamState
  open_function_call id name s =
      let t = begin_item function_call (codes "fc_") (close_item s) in
      emit (item_added t.out_index (call_item t.cur_item_id id name []))
        (record t { fc_call_id = id; fc_name = name; args_buf = [] })

  unfoldable pub reasoning_delta : Text → RespStreamState → RespStreamState
  reasoning_delta d s =
      if is_nil d
      then s
      else let t = open_reasoning s in
        emit (delta t.out_index t.cur_item_id reasoning d)
          (record t { reason_buf = t.reason_buf ++ d })

  unfoldable pub content_delta : Text → RespStreamState → RespStreamState
  content_delta d s =
      if is_nil d
      then s
      else let t = open_message s in
        emit (delta t.out_index t.cur_item_id message d) (record t { text_buf = t.text_buf ++ d })

  -- An id or a name always begins a new call; what is missing is taken from the last call.
  unfoldable pub tool_start : ToolCallDelta → RespStreamState → RespStreamState
  tool_start tc s =
      if not (is_nil tc.id) || not (is_nil tc.name)
      then open_function_call (if is_nil tc.id then s.fc_call_id else tc.id)
          (if is_nil tc.name then s.fc_name else tc.name) s
      else s

  unfoldable pub tool_arguments : Text → RespStreamState → RespStreamState
  tool_arguments args s =
      if is_nil args
      then s
      else let t =
          if is_current function_call s.cur_kind
          then s
          else open_function_call s.fc_call_id s.fc_name s in
        emit (delta t.out_index t.cur_item_id function_call args)
          (record t { args_buf = t.args_buf ++ args })

  unfoldable pub tool_calls : List ToolCallDelta → RespStreamState → RespStreamState
  tool_calls [] s = s
  tool_calls (tc ∷ tcs) s = tool_calls tcs (tool_arguments tc.arguments (tool_start tc s))

  unfoldable pub charge : Option Usage → RespStreamState → RespStreamState
  charge none s = s
  charge (some u) s = record s { account = set_usage u }

  unfoldable pub end_choice : Option Text → Option Usage → RespStreamState → RespStreamState
  end_choice none u s = s
  end_choice (some r) u s = charge u (record s { stop_reason = r })

  unfoldable pub handle_choice : List Choice → Option Usage → RespStreamState → RespStreamState
  handle_choice [] u s = charge u s
  handle_choice (ch ∷ rest) u s = end_choice (finish_of ch) u (
      tool_calls ch.delta.tool_calls
        (content_delta ch.delta.content (reasoning_delta ch.delta.reasoning_content s)))

  unfoldable pub handle_chunks : List Chunk → RespStreamState → RespStreamState
  handle_chunks [] s = s
  handle_chunks (c ∷ cs) s = handle_chunks cs (handle_choice c.choices c.usage s)

  abbrev pub summary : RespStreamState → Summary
  summary t =
      let a = t.account in
      record {
        output = output_of t.items;
        incomplete = text_eq t.stop_reason (codes "length");
        account = a;
        total_tokens =
            add64 (add64 (add64 a.input_tokens a.cache_write) a.cache_read) a.output_tokens;
      }

  unfoldable pub complete : RespStreamState → RespStreamState
  complete s = let t = close_item s in emit (completed (summary t)) t

  unfoldable pub start_reply : Text → RespStreamState → RespStreamState
  start_reply model s = emit (in_progress s.resp_id model) (emit (created s.resp_id model) s)

  -- The failure is the error that the reading of the chunks left, when its text is not empty.
  unfoldable pub end_reply : Option Text → RespStreamState → RespStreamState
  end_reply none s = complete s
  end_reply (some m) s = if is_nil m then complete s else emit (failed m) s

  -- `streamResponses`; the first draw names the response.
  unfoldable pub stream_responses : Text → List Chunk → Option Text → RespStreamState
  stream_responses model cs err =
      let s = record (fresh (codes "resp_" ++ new_uuid 0) model) { drawn = 1 } in
      end_reply err (handle_chunks cs (start_reply model s))
