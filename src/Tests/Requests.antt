-- ===== src/Tests/Requests.antt =====
-- Runs of the request conversions.
use qoder_model_gateway.Base.{
  ltb, ◌||◌, ◌⊎◌, ◌≡◌, refl, true, false, none, some, List, [], ◌∷◌, ◌==◌, if◌then◌else◌, codes,
  text_eq,
}
use qoder_model_gateway.Request.Message.{
  UpMessage, user, assistant, tool, flat, message_of, text_part,
}
use qoder_model_gateway.Request.Marker.{ensure_cache_marker}
use qoder_model_gateway.Request.Marker.Laws.{
  marker_at_end, markers, has_place, unmark, ensure_cache_marker_lem,
}
use qoder_model_gateway.Request.Messages.{
  Block, AnthropicMsg, text_block, select, blocks_from_raw, messages_to_upstream,
  message_to_upstream,
}
use qoder_model_gateway.Request.Messages
use qoder_model_gateway.Request.Messages.Order.{
  follows, has_results, results_follow, messages_to_upstream_order,
}
use qoder_model_gateway.Request.Input.{RespInputItem, convert_items}
use qoder_model_gateway.Request.Input
use qoder_model_gateway.Request.Input.Calls.{all_calls, item_calls, convert_items_calls}

abbrev prompt : List UpMessage
prompt =
    message_of user (flat (codes "hi")) (text_part (codes "hi") none ∷ [])
    ∷ message_of tool (flat (codes "r")) []
    ∷ []

ensure_cache_marker_example :
    (markers (ensure_cache_marker prompt)
      ≡ (if markers prompt == 0 then (if has_place prompt then 1 else 0) else markers prompt))
    × ((markers prompt ≡ 0) ⊎ (ensure_cache_marker prompt ≡ prompt))
    × ((ltb 0 (markers prompt) || marker_at_end (ensure_cache_marker prompt)) ≡ true)
    × (unmark (ensure_cache_marker prompt) ≡ unmark prompt)
    × (ensure_cache_marker (ensure_cache_marker prompt) ≡ ensure_cache_marker prompt)
ensure_cache_marker_example = ensure_cache_marker_lem prompt

abbrev result_block : Block
result_block = record (text_block []) { type = codes "tool_result"; tool_use_id = codes "t1" }

-- Every content is a text and the result of a tool.
abbrev json : Messages.Json
json = record {
  string = λ t. none;
  blocks = λ t. some (text_block (codes "so") ∷ result_block ∷ []);
  base64_ok = λ t. true;
}

abbrev conversation : List AnthropicMsg
conversation =
    record { role = assistant; content = codes "[]" }
    ∷ record { role = user; content = codes "[]" }
    ∷ []

conversation_follows : results_follow json false conversation ≡ true
unfolding results_follow has_results blocks_from_raw select text_eq
conversation_follows = refl

abbrev sent : List UpMessage
sent = elim (messages_to_upstream json conversation) [ none ↦ [] | some us ↦ us ]

conversation-sent : messages_to_upstream json conversation ≡ some sent
unfolding messages_to_upstream message_to_upstream blocks_from_raw
conversation-sent = refl

messages_to_upstream_order_example : follows false sent ≡ true
messages_to_upstream_order_example =
    messages_to_upstream_order json false conversation sent conversation_follows conversation-sent

abbrev call_item : RespInputItem
call_item = record {
  type = codes "function_call";
  role = [];
  content = [];
  call_id = codes "c1";
  name = codes "grep";
  arguments = codes "{}";
  output = [];
}

abbrev resp_json : Input.Json
resp_json = record {
  string = λ t. some t;
  items = λ t. none;
  parts = λ t. none;
  compact_parts = λ t. none;
}

abbrev items : List RespInputItem
items =
    call_item
    ∷ record call_item { call_id = codes "c2" }
    ∷ record call_item { type = codes "message"; role = user; content = codes "hi" }
    ∷ []

convert_items_calls_example : all_calls (convert_items resp_json [] items).1 ≡ item_calls items
convert_items_calls_example = convert_items_calls resp_json [] items
