-- ===== src/Responses/Collect.antt =====
-- responses.go: `collectResponses`, the whole reply of a request that does not stream. `newUUIDShort` is
-- a parameter that gives the identifier of each draw.
pub mod Empty
use qoder_model_gateway.Base.{
  ℕ, zero, suc, ◌+◌, ◌-◌, ◌*◌, ◌/◌, ◌%◌, ◌^◌, ◌≤◌, ◌<◌, ◌≡◌, refl, sym, ap, ◌∙◌, ◌≢◌, ◌↔◌, ◌⊎◌, inl,
  inr, Bool, true, false, not, ◌&&◌, ◌||◌, Option, none, some, List, [], ◌∷◌, ◌++◌, map, append-nil,
  append_assoc, arith, ltb, leb, ◌==◌, if◌then◌else◌, ltb→lt, lt→ltb, leb→le, ==_iff, Bool-cases,
  Option-cases, is_some, ◌>>=◌, length, get_elem?, take, drop, replicate, is_nil, get_last?,
  length-append, take-append-drop, length-take, length-drop, length-replicate, take-append_exact,
  drop-append_exact, All, All-append, Text, codes, text_eq, text_eq_iff, text_eq_refl, has_prefix,
  trim_prefix, has_prefix-append, has_suffix, trim_suffix, join, is_space, trim_left, trim_right,
  trim_space,
}
use qoder_model_gateway.Base.Int.{add64}
use qoder_model_gateway.Upstream.{
  Chunk, Choice, ToolCallDelta, Usage, Account, no_account, set_usage, finish_of,
}
use qoder_model_gateway.Responses.Event.{Item, reasoning_item, message_item, call_item, Summary}

pub record FunctionCall : Type 0 where
  pub call_id : Text
  pub name : Text
  pub args : Text

pub record RespCollected : Type 0 where
  pub text : Text
  pub reasoning : Text
  pub fcs : List FunctionCall
  pub stop_reason : Text
  pub account : Account

abbrev pub nothing : RespCollected
nothing = record {
  text = [];
  reasoning = [];
  fcs = [];
  stop_reason = codes "stop";
  account = no_account;
}

-- The arguments go to the last call; before any call they are dropped.
unfoldable pub append_last : Text → List FunctionCall → List FunctionCall
append_last a [] = []
append_last a (f ∷ []) = record f { args = f.args ++ a } ∷ []
append_last a (f ∷ g ∷ fs) = f ∷ append_last a (g ∷ fs)

unfoldable pub add_call : ToolCallDelta → List FunctionCall → List FunctionCall
add_call tc fs =
    let started =
      if not (is_nil tc.id) || not (is_nil tc.name)
      then fs ++ record { call_id = tc.id; name = tc.name; args = [] } ∷ []
      else fs in
    append_last tc.arguments started

unfoldable pub add_calls : List ToolCallDelta → List FunctionCall → List FunctionCall
add_calls [] fs = fs
add_calls (tc ∷ tcs) fs = add_calls tcs (add_call tc fs)

-- Here a usage counts in whatever chunk it comes.
unfoldable pub charge : Option Usage → RespCollected → RespCollected
charge none s = s
charge (some u) s = record s { account = set_usage u }

unfoldable pub add_choice : List Choice → RespCollected → RespCollected
add_choice [] s = s
add_choice (ch ∷ rest) s = record s {
  reasoning = s.reasoning ++ ch.delta.reasoning_content;
  text = s.text ++ ch.delta.content;
  fcs = add_calls ch.delta.tool_calls s.fcs;
  stop_reason = elim (finish_of ch) [ none ↦ s.stop_reason | some r ↦ r ];
}

unfoldable pub add_chunks : List Chunk → RespCollected → RespCollected
add_chunks [] s = s
add_chunks (c ∷ cs) s = add_chunks cs (add_choice c.choices (charge c.usage s))

pub data RespReply : Type 0 where
  refused : ℕ → Text → RespReply
  response : Text → Summary → RespReply

module _ (new_uuid : ℕ → Text) where
  unfoldable pub call_items : ℕ → List FunctionCall → List Item
  call_items n [] = []
  call_items n (f ∷ fs) =
      call_item (codes "fc_" ++ new_uuid n) f.call_id f.name f.args ∷ call_items (suc n) fs

  -- The identifiers are drawn for the items that are there, in order.
  unfoldable pub items_of : RespCollected → List Item
  items_of s =
      let reasoned : List Item =
        if is_nil s.reasoning
        then []
        else reasoning_item (codes "rs_" ++ new_uuid 0) s.reasoning ∷ [] in
      let n = length reasoned in
      let said : List Item =
        if is_nil s.text then [] else message_item (codes "msg_" ++ new_uuid n) s.text ∷ [] in
      reasoned ++ (said ++ call_items (n + length said) s.fcs)

  unfoldable pub whole_response : RespCollected → RespReply
  whole_response s =
      let its = items_of s in
      let a = s.account in
      response (codes "resp_" ++ new_uuid (length its)) (record {
        output = some its;
        incomplete = text_eq s.stop_reason (codes "length");
        account = a;
        total_tokens =
            add64 (add64 (add64 a.input_tokens a.cache_write) a.cache_read) a.output_tokens;
      })

  unfoldable pub collect_responses : List Chunk → Option Text → RespReply
  collect_responses cs err =
      let r = whole_response (add_chunks cs nothing) in
      elim err [ none ↦ r | some m ↦ if is_nil m then r else refused 502 m ]
