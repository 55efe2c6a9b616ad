-- ===== src/Request/Input.antt =====
-- openai.go: `oaiToUpstream`; responses.go: `respToUpstream` and what it calls. What `encoding/json`
-- reads is a parameter; `none` is the error of an input that cannot be read.
pub mod Calls
use qoder_model_gateway.Base.{
  ℕ, zero, suc, ◌+◌, ◌-◌, ◌*◌, ◌/◌, ◌%◌, ◌^◌, ◌≤◌, ◌<◌, ◌≡◌, refl, sym, ap, ◌∙◌, ◌≢◌, ◌↔◌, ◌⊎◌, inl,
  inr, Bool, true, false, not, ◌&&◌, ◌||◌, Option, none, some, List, [], ◌∷◌, ◌++◌, map, append-nil,
  append_assoc, arith, ltb, leb, ◌==◌, if◌then◌else◌, ltb→lt, lt→ltb, leb→le, ==_iff, Bool-cases,
  Option-cases, is_some, ◌>>=◌, length, get_elem?, take, drop, replicate, is_nil, get_last?,
  length-append, take-append-drop, length-take, length-drop, length-replicate, take-append_exact,
  drop-append_exact, All, All-append, Text, codes, text_eq, text_eq_iff, text_eq_refl, has_prefix,
  trim_prefix, has_prefix-append, has_suffix, trim_suffix, join, is_space, trim_left, trim_right,
  trim_space,
}
use qoder_model_gateway.Request.Message.{
  UpPart, UpToolCall, UpContentPart, Content, absent, flat, image_parts, UpMessage, user, assistant,
  tool, text_type, image_type, message_of, text_part, image_part,
}
use qoder_model_gateway.Request.Marker.{ensure_cache_marker}

pub record OaiMessage : Type 0 where
  pub role : Text
  pub content : Content
  pub name : Text
  pub tool_calls : List UpToolCall
  pub tool_call_id : Text

abbrev pub is_system : Text → Bool
is_system role = text_eq role (codes "system") || text_eq role (codes "developer")

abbrev pub string_of : Content → Option Text
string_of (flat t) = some t
string_of _ = none

unfoldable pub oai_parts : OaiMessage → List UpPart
oai_parts m = elim (string_of m.content) [
  | none ↦ []
  | some t ↦ if not (is_nil t) && not (text_eq m.role tool) then text_part t none ∷ [] else []
]

abbrev or_empty : Content → Content
or_empty absent = flat []
or_empty c = c

unfoldable pub oai_message : OaiMessage → UpMessage
oai_message m = record {
  role = m.role;
  content = if is_nil m.tool_calls then m.content else or_empty m.content;
  contents = oai_parts m;
  tool_calls = m.tool_calls;
  tool_call_id = m.tool_call_id;
  name = m.name;
}

unfoldable pub system_parts : List OaiMessage → List Text
system_parts [] = []
system_parts (m ∷ ms) =
    let rest = system_parts ms in
    if is_system m.role
    then elim (string_of m.content) [ none ↦ rest | some t ↦ t ∷ rest ]
    else rest

unfoldable pub plain_messages : List OaiMessage → List UpMessage
plain_messages [] = []
plain_messages (m ∷ ms) =
    let rest = plain_messages ms in if is_system m.role then rest else oai_message m ∷ rest

unfoldable pub oai_to_upstream : List OaiMessage → Text × List UpMessage
oai_to_upstream ms =
    (join (system_parts ms) (codes "\n\n"), ensure_cache_marker (plain_messages ms))

unfoldable pub normalize_effort : Text → Text
normalize_effort e =
    if text_eq e (codes "minimal")
    then codes "low"
    else if text_eq e (codes "none")
        || (text_eq e (codes "low")
            || (text_eq e (codes "medium")
                || (text_eq e (codes "high")
                    || (text_eq e (codes "xhigh") || text_eq e (codes "max")))))
    then e
    else []

pub record RespInputItem : Type 0 where
  pub type : Text
  pub role : Text
  pub content : Text
  pub call_id : Text
  pub name : Text
  pub arguments : Text
  pub output : Text

pub record RespContentPart : Type 0 where
  pub type : Text
  pub text : Text
  pub image_url : Text

-- A part as `isCompactRespMessage` reads it, with what is missing told from what is empty.
pub record CompactPart : Type 0 where
  pub type : Text
  pub text : Option Text
  pub image_url : Option Text

-- A JSON text read as a string, as input items, and as content parts of the two forms.
pub record Json : Type 0 where
  pub string : Text → Option Text
  pub items : Text → Option (List RespInputItem)
  pub parts : Text → Option (List RespContentPart)
  pub compact_parts : Text → Option (List CompactPart)

abbrev pub is_text_type : Text → Bool
is_text_type t =
    text_eq t (codes "input_text") || (text_eq t (codes "output_text") || text_eq t text_type)

abbrev pub is_image_type : Text → Bool
is_image_type t = text_eq t (codes "input_image")

unfoldable pub compact_part : CompactPart → Bool
compact_part p =
    if is_text_type p.type
    then is_some p.text
    else if is_image_type p.type
    then elim p.image_url [ none ↦ false | some u ↦ not (is_nil (trim_space u)) ]
    else false

unfoldable pub compact_parts_ok : List CompactPart → Bool
compact_parts_ok [] = true
compact_parts_ok (p ∷ ps) = compact_part p && compact_parts_ok ps

abbrev pub is_compact_role : Text → Bool
is_compact_role r = text_eq r user || (text_eq r assistant || is_system r)

unfoldable pub text_of_parts : List RespContentPart → Text
text_of_parts [] = []
text_of_parts (p ∷ ps) = (if is_text_type p.type then p.text else []) ++ text_of_parts ps

unfoldable pub any_image : List RespContentPart → Bool
any_image [] = false
any_image (p ∷ ps) = is_image_type p.type || any_image ps

unfoldable pub oai_part : RespContentPart → List UpContentPart
oai_part p =
    if is_text_type p.type
    then record { type = text_type; text = p.text; image_url = none } ∷ []
    else if is_image_type p.type
    then record { type = image_type; text = []; image_url = some p.image_url } ∷ []
    else []

unfoldable pub oai_content : List RespContentPart → List UpContentPart
oai_content [] = []
oai_content (p ∷ ps) = oai_part p ++ oai_content ps

unfoldable pub upstream_part : RespContentPart → List UpPart
upstream_part p =
    if is_text_type p.type
    then text_part p.text none ∷ []
    else if is_image_type p.type
    then image_part p.image_url none ∷ []
    else []

unfoldable pub upstream_parts : List RespContentPart → List UpPart
upstream_parts [] = []
upstream_parts (p ∷ ps) = upstream_part p ++ upstream_parts ps

-- The variables of the loop of `respToUpstream`.
pub record Progress : Type 0 where
  pub sys_parts : List Text
  pub msgs : List UpMessage
  pub pending_assistant : Option UpMessage

unfoldable pub flush_assistant : Progress → Progress
flush_assistant s = elim s.pending_assistant [
  | none ↦ s
  | some m ↦ record s { msgs = s.msgs ++ m ∷ []; pending_assistant = none }
]

abbrev pub call_of : RespInputItem → UpToolCall
call_of it = record {
  id = it.call_id;
  type = codes "function";
  name = it.name;
  arguments = it.arguments;
}

unfoldable pub add_call : RespInputItem → Progress → Progress
add_call it s =
    let m : UpMessage = elim s.pending_assistant [
      | none ↦ message_of assistant (flat []) []
      | some m ↦ m
    ] in
    record s {
      pending_assistant = some (record m { tool_calls = m.tool_calls ++ call_of it ∷ [] });
    }

abbrev pub push_message : UpMessage → Progress → Progress
push_message m s = record s { msgs = s.msgs ++ m ∷ [] }

module _ (j : Json) where
  unfoldable pub parse_resp_parts : Text → List RespContentPart
  parse_resp_parts raw = if is_nil raw then [] else elim (j.string raw) [
    | some s ↦ record { type = text_type; text = s; image_url = [] } ∷ []
    | none ↦ elim (j.parts raw) [ none ↦ [] | some ps ↦ ps ]
  ]

  unfoldable pub resp_parts_text : Text → Text
  resp_parts_text raw = text_of_parts (parse_resp_parts raw)

  unfoldable pub resp_parts_to_oai : Text → Content
  resp_parts_to_oai raw =
      let ps = parse_resp_parts raw in
      if any_image ps then image_parts (oai_content ps) else flat (text_of_parts ps)

  unfoldable pub resp_parts_to_upstream : Text → List UpPart
  resp_parts_to_upstream raw = upstream_parts (parse_resp_parts raw)

  unfoldable pub is_compact_resp_message : RespInputItem → Bool
  is_compact_resp_message it =
      let raw = trim_space it.content in
      if not (is_compact_role it.role)
      then false
      else if is_nil raw || text_eq raw (codes "null")
      then false
      else elim (j.string it.content) [
        | some t ↦ true
        | none ↦ elim (j.compact_parts it.content) [
          | none ↦ false
          | some ps ↦ not (is_nil ps) && compact_parts_ok ps
        ]
      ]

  unfoldable pub resp_message : RespInputItem → UpMessage
  resp_message it =
      let txt = resp_parts_text it.content in
      let content = if text_eq it.role assistant then flat txt else resp_parts_to_oai it.content in
      let contents =
        if text_eq it.role user
        then resp_parts_to_upstream it.content
        else if is_nil txt
        then []
        else text_part txt none ∷ [] in
      message_of it.role content contents

  unfoldable pub add_message : RespInputItem → Progress → Progress
  add_message it s =
      let t = flush_assistant s in
      if is_system it.role
      then record t { sys_parts = t.sys_parts ++ resp_parts_text it.content ∷ [] }
      else push_message (resp_message it) t

  abbrev pub output_of : RespInputItem → UpMessage
  output_of it = record (message_of tool (flat it.output) []) { tool_call_id = it.call_id }

  unfoldable pub add_item : RespInputItem → Progress → Progress
  add_item it s =
      if is_nil it.type
      then (if is_compact_resp_message it then add_message it s else flush_assistant s)
      else if text_eq it.type (codes "message")
      then add_message it s
      else if text_eq it.type (codes "function_call")
      then add_call it s
      else if text_eq it.type (codes "function_call_output")
      then push_message (output_of it) (flush_assistant s)
      else if text_eq it.type (codes "reasoning") || text_eq it.type (codes "item_reference")
      then s
      else flush_assistant s

  unfoldable pub add_items : List RespInputItem → Progress → Progress
  add_items [] s = s
  add_items (it ∷ its) s = add_items its (add_item it s)

  unfoldable pub convert_items : List Text → List RespInputItem → Text × List UpMessage
  convert_items sys its =
      let s =
        flush_assistant
          (add_items its (record { sys_parts = sys; msgs = []; pending_assistant = none })) in
      (join s.sys_parts (codes "\n\n"), ensure_cache_marker s.msgs)

  unfoldable pub resp_to_upstream : Text → Text → Option (Text × List UpMessage)
  resp_to_upstream instructions input =
      let sys : List Text = if is_nil instructions then [] else instructions ∷ [] in
      if is_nil input then some (join sys (codes "\n\n"), []) else elim (j.string input) [
        | some t ↦ some (
          join sys (codes "\n\n"),
          ensure_cache_marker (message_of user (flat t) (text_part t none ∷ []) ∷ []),
        )
        | none ↦ elim (j.items input) [ none ↦ none | some its ↦ some (convert_items sys its) ]
      ]
