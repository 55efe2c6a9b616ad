-- ===== src/Request/Messages.antt =====
-- convert.go: `messagesToUpstream` and what it calls. `encoding/json` and `encoding/base64` are
-- parameters; `none` is the error of a content that cannot be read.
pub mod Order
use qoder_model_gateway.Base.{
  ℕ, zero, suc, ◌+◌, ◌-◌, ◌*◌, ◌/◌, ◌%◌, ◌^◌, ◌≤◌, ◌<◌, ◌≡◌, refl, sym, ap, ◌∙◌, ◌≢◌, ◌↔◌, ◌⊎◌, inl,
  inr, Bool, true, false, not, ◌&&◌, ◌||◌, Option, none, some, List, [], ◌∷◌, ◌++◌, map, append-nil,
  append_assoc, arith, ltb, leb, ◌==◌, if◌then◌else◌, ltb→lt, lt→ltb, leb→le, ==_iff, Bool-cases,
  Option-cases, is_some, ◌>>=◌, length, get_elem?, take, drop, replicate, is_nil, get_last?,
  length-append, take-append-drop, length-take, length-drop, length-replicate, take-append_exact,
  drop-append_exact, All, All-append, Text, codes, text_eq, text_eq_iff, text_eq_refl, has_prefix,
  trim_prefix, has_prefix-append, has_suffix, trim_suffix, join, is_space, trim_left, trim_right,
  trim_space,
}
use qoder_model_gateway.Request.Message.{
  CacheControl, UpPart, UpToolCall, Content, absent, same_parts, flat, UpMessage, user, assistant,
  tool, text_type, message_of, text_part, image_part,
}
use qoder_model_gateway.Request.Marker.{ensure_cache_marker}

pub record Source : Type 0 where
  pub type : Text
  pub media_type : Text
  pub «data» : Text
  pub url : Text

-- `anthropicBlock`; a raw JSON field is its text, empty when it is missing.
pub record Block : Type 0 where
  pub type : Text
  pub text : Text
  pub id : Text
  pub name : Text
  pub input : Text
  pub tool_use_id : Text
  pub content : Text
  pub source : Option Source
  pub cache_control : Option CacheControl

pub record AnthropicMsg : Type 0 where
  pub role : Text
  pub content : Text

-- A JSON text read as a string, or as a list of blocks, and base64 that can be read.
pub record Json : Type 0 where
  pub string : Text → Option Text
  pub blocks : Text → Option (List Block)
  pub base64_ok : Text → Bool

abbrev pub text_block : Text → Block
text_block t = record {
  type = text_type;
  text = t;
  id = [];
  name = [];
  input = [];
  tool_use_id = [];
  content = [];
  source = none;
  cache_control = none;
}

abbrev pub is_text : Block → Bool
is_text b = text_eq b.type text_type

abbrev pub is_tool_result : Block → Bool
is_tool_result b = text_eq b.type (codes "tool_result")

unfoldable pub select : (Block → Bool) → List Block → List Block
select p [] = []
select p (b ∷ bs) = let rest = select p bs in if p b then b ∷ rest else rest

-- A block of a user message: its part, its text, and whether it is an image.
unfoldable pub image_url_of : Source → Text
image_url_of s =
    if text_eq s.type (codes "base64")
    then codes "data:" ++ (s.media_type ++ (codes ";base64," ++ s.«data»))
    else s.url

abbrev pub is_image : Block → Bool
is_image b = text_eq b.type (codes "image") && is_some b.source

unfoldable pub user_part : Block → List UpPart
user_part b =
    if is_text b
    then text_part b.text b.cache_control ∷ []
    else if text_eq b.type (codes "image")
    then elim b.source [ none ↦ [] | some s ↦ image_part (image_url_of s) b.cache_control ∷ [] ]
    else []

unfoldable pub user_parts : List Block → List UpPart
user_parts [] = []
user_parts (b ∷ bs) = user_part b ++ user_parts bs

unfoldable pub texts : List Block → List Text
texts [] = []
texts (b ∷ bs) = let rest = texts bs in if is_text b then b.text ∷ rest else rest

unfoldable pub has_image : List Block → Bool
has_image [] = false
has_image (b ∷ bs) = is_image b || has_image bs

unfoldable pub user_content_from_blocks : List Block → Content × List UpPart
user_content_from_blocks bs =
    let parts = user_parts bs in
    (if has_image bs then same_parts else flat (join (texts bs) (codes "\n")), parts)

-- The assistant's blocks.
unfoldable pub tool_use_call : Block → UpToolCall
tool_use_call b = record {
  id = b.id;
  type = codes "function";
  name = b.name;
  arguments = if is_nil b.input then codes "{}" else b.input;
}

unfoldable pub assistant_parts : List Block → List UpPart
assistant_parts [] = []
assistant_parts (b ∷ bs) =
    let rest = assistant_parts bs in
    if is_text b then text_part b.text b.cache_control ∷ rest else rest

unfoldable pub assistant_calls : List Block → List UpToolCall
assistant_calls [] = []
assistant_calls (b ∷ bs) =
    let rest = assistant_calls bs in
    if text_eq b.type (codes "tool_use") then tool_use_call b ∷ rest else rest

unfoldable pub assistant_message : List Block → UpMessage
assistant_message bs =
    let joined = join (texts bs) [] in
    let calls = assistant_calls bs in
    let content =
      if not (is_nil joined) then flat joined else if is_nil calls then absent else flat [] in
    record (message_of assistant content (assistant_parts bs)) { tool_calls = calls }

module _ (j : Json) where
  unfoldable pub blocks_from_raw : Text → Option (List Block)
  blocks_from_raw raw =
      if is_nil raw
      then some []
      else elim (j.string raw) [ some s ↦ some (text_block s ∷ []) | none ↦ j.blocks raw ]

  unfoldable pub result_texts : List Block → List Text
  result_texts [] = []
  result_texts (b ∷ bs) =
      let rest = result_texts bs in
      if is_text b then b.text ∷ rest else elim b.source [
        | none ↦ rest
        | some s ↦
            if text_eq b.type (codes "image")
              && (text_eq s.type (codes "base64") && j.base64_ok s.«data»)
            then codes "[image omitted]" ∷ rest
            else rest
      ]

  unfoldable pub tool_result_text : Text → Text
  tool_result_text raw = if is_nil raw then [] else elim (j.string raw) [
    | some s ↦ s
    | none ↦ elim (blocks_from_raw raw) [
      | none ↦ raw
      | some bs ↦ join (result_texts bs) (codes "\n")
    ]
  ]

  unfoldable pub tool_message : Block → UpMessage
  tool_message b = record (message_of tool (flat (tool_result_text b.content)) []) {
    tool_call_id = b.tool_use_id;
  }

  unfoldable pub normal_messages : Bool → List Block → List UpMessage
  normal_messages no_results normal =
      let (content, parts) = user_content_from_blocks normal in
      if not (is_nil normal) || no_results then message_of user content parts ∷ [] else []

  -- The results of tools come first, then the rest of the message, if there is any.
  unfoldable pub user_messages : List Block → List UpMessage
  user_messages bs =
      let results = select is_tool_result bs in
      map tool_message results
      ++ normal_messages (is_nil results) (select (λ b. not (is_tool_result b)) bs)

  unfoldable pub message_to_upstream : AnthropicMsg → Option (List UpMessage)
  message_to_upstream m =
      (blocks_from_raw m.content >>= λ bs.
      some (if text_eq m.role user then user_messages bs else assistant_message bs ∷ []))

  unfoldable pub messages_to_upstream : List AnthropicMsg → Option (List UpMessage)
  messages_to_upstream [] = some []
  messages_to_upstream (m ∷ ms) =
      (message_to_upstream m >>= λ now. (messages_to_upstream ms >>= λ rest. some (now ++ rest)))

  -- The messages of `buildUpstreamBody`.
  unfoldable pub build_messages : List AnthropicMsg → Option (List UpMessage)
  build_messages ms = messages_to_upstream ms >>= λ us. some (ensure_cache_marker us)

  unfoldable pub system_texts : List Block → List Text
  system_texts [] = []
  system_texts (b ∷ bs) =
      let rest = system_texts bs in if is_text b && not (is_nil b.text) then b.text ∷ rest else rest

  unfoldable pub system_to_string : Text → Text
  system_to_string raw = if is_nil raw then [] else elim (j.string raw) [
    | some s ↦ s
    | none ↦ elim (blocks_from_raw raw) [
      | none ↦ []
      | some bs ↦ join (system_texts bs) (codes "\n\n")
    ]
  ]

-- `budgetToEffort`; a budget that is not positive is 0 here.
unfoldable pub budget_to_effort : ℕ → Text
budget_to_effort budget =
    if budget == 0
    then codes "none"
    else if leb budget 1024
    then codes "low"
    else if leb budget 8192
    then codes "medium"
    else if leb budget 24576
    then codes "high"
    else if leb budget 49152
    then codes "xhigh"
    else codes "max"
