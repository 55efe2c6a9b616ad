-- ===== src/Request/Message.antt =====
-- convert.go: the messages that go upstream.
use qoder_model_gateway.Base.{
  not, ◌&&◌, Option, none, some, List, [], ◌∷◌, ltb, if◌then◌else◌, length, take, is_nil, Text,
  codes, text_eq,
}

pub record CacheControl : Type 0 where
  pub type : Text

pub record UpPart : Type 0 where
  pub type : Text
  pub text : Text
  pub image_url : Option Text
  pub cache_control : Option CacheControl

pub record UpToolCall : Type 0 where
  pub id : Text
  pub type : Text
  pub name : Text
  pub arguments : Text

pub record UpContentPart : Type 0 where
  pub type : Text
  pub text : Text
  pub image_url : Option Text

-- The `any` of the field `Content`: nil, a string, the very slice of `Contents`, the parts that the
-- Responses API gives, or another JSON value by its text. `same_parts` is the slice itself, so a change
-- of a part shows in both fields.
pub data Content : Type 0 where
  absent same_parts : Content
  flat : Text → Content
  image_parts : List UpContentPart → Content
  other : Text → Content

pub record UpMessage : Type 0 where
  pub role : Text
  pub content : Content
  pub contents : List UpPart
  pub tool_calls : List UpToolCall
  pub tool_call_id : Text
  pub name : Text

abbrev pub user : Text
user = codes "user"

abbrev pub assistant : Text
assistant = codes "assistant"

abbrev pub tool : Text
tool = codes "tool"

abbrev pub text_type : Text
text_type = codes "text"

abbrev pub image_type : Text
image_type = codes "image_url"

-- A message with the zero value in all other fields.
abbrev pub message_of : Text → Content → List UpPart → UpMessage
message_of role content contents = record {
  role = role;
  content = content;
  contents = contents;
  tool_calls = [];
  tool_call_id = [];
  name = [];
}

abbrev pub text_part : Text → Option CacheControl → UpPart
text_part t c = record { type = text_type; text = t; image_url = none; cache_control = c }

abbrev pub image_part : Text → Option CacheControl → UpPart
image_part u c = record { type = image_type; text = []; image_url = some u; cache_control = c }

abbrev first_text : List UpContentPart → Option Text
first_text [] = none
first_text (p ∷ ps) =
    let rest = first_text ps in
    if text_eq p.type text_type && not (is_nil p.text) then some p.text else rest

-- What one message has for `lastUserText`.
unfoldable pub user_text : UpMessage → Option Text
user_text m = elim m.content [
  | absent ↦ none
  | same_parts ↦ none
  | flat t ↦ if is_nil t then none else some t
  | image_parts ps ↦ first_text ps
  | other t ↦ none
]

-- From the last message backwards; the empty text when there is none.
unfoldable pub find_user_text : List UpMessage → Option Text
find_user_text [] = none
find_user_text (m ∷ ms) = elim (find_user_text ms) [
  | some t ↦ some t
  | none ↦ if text_eq m.role user then user_text m else none
]

unfoldable pub last_user_text : List UpMessage → Text
last_user_text ms = elim (find_user_text ms) [ none ↦ [] | some t ↦ t ]

-- The `name` of `businessInfoWithSources`.
unfoldable pub business_name : List UpMessage → Text
business_name ms =
    let name = last_user_text ms in if ltb 10 (length name) then take 10 name else name
