-- ===== src/Request/Input/Calls.antt =====
-- No function call of a Responses input is lost, doubled or moved by `respToUpstream` of responses.go.
use qoder_model_gateway.Base.{
  ◌≡◌, refl, sym, ap, ◌∙◌, inl, inr, true, false, ◌||◌, Option, none, some, List, [], ◌∷◌, ◌++◌,
  append-nil, append_assoc, arith, if◌then◌else◌, Bool-cases, Option-cases, is_nil, Text, codes,
  text_eq, text_eq_iff,
}
use mathlib.Core.Path.{subst}
use qoder_model_gateway.Request.Message.{UpToolCall, UpMessage}
use qoder_model_gateway.Request.Marker.{ensure_cache_marker}
use qoder_model_gateway.Request.Marker.Laws.{unmark, ensure_cache_marker_lem}
use qoder_model_gateway.Request.Input.{
  is_system, Json, RespInputItem, Progress, flush_assistant, call_of, add_call, push_message,
  add_message, add_item, add_items, convert_items, resp_message, is_compact_resp_message, output_of,
}

-- The tool calls of messages in order.
unfoldable pub all_calls : List UpMessage → List UpToolCall
all_calls [] = []
all_calls (m ∷ ms) = m.tool_calls ++ all_calls ms

-- The calls that the items of an input make.
unfoldable pub item_calls : List RespInputItem → List UpToolCall
item_calls [] = []
item_calls (it ∷ its) =
    let rest = item_calls its in
    if text_eq it.type (codes "function_call") then call_of it ∷ rest else rest

all_calls-snoc :
    (ms : List UpMessage) (m : UpMessage) → all_calls (ms ++ m ∷ []) ≡ all_calls ms ++ m.tool_calls
unfolding all_calls
all_calls-snoc [] m = append-nil m.tool_calls
all_calls-snoc (n ∷ ms) m =
    ap (◌++◌ n.tool_calls) (all_calls-snoc ms m)
    ∙ sym (append_assoc n.tool_calls (all_calls ms) m.tool_calls)

all_calls-unmark : (ms : List UpMessage) → all_calls (unmark ms) ≡ all_calls ms
unfolding all_calls
all_calls-unmark [] = refl
all_calls-unmark (m ∷ ms) = ap (◌++◌ m.tool_calls) (all_calls-unmark ms)

-- The calls of the messages that are ready and of the one that is pending.
abbrev pending_calls : Option UpMessage → List UpToolCall
pending_calls none = []
pending_calls (some m) = m.tool_calls

abbrev held : Progress → List UpToolCall
held s = all_calls s.msgs ++ pending_calls s.pending_assistant

flush_none : (s : Progress) → s.pending_assistant ≡ none → flush_assistant s ≡ s
unfolding flush_assistant
flush_none s e = ground (arith, e)

flush_some :
    (m : UpMessage) (s : Progress)
    → s.pending_assistant ≡ some m
    → flush_assistant s ≡ record s { msgs = s.msgs ++ m ∷ []; pending_assistant = none }
unfolding flush_assistant
flush_some m s e = ground (arith, e)

-- Nothing is pending, and these are the calls.
record Holds (s : Progress) (cs : List UpToolCall) : Type 0 where
  idle : s.pending_assistant ≡ none
  calls : all_calls s.msgs ≡ cs

flush-Holds : (s : Progress) → Holds (flush_assistant s) (held s)
flush-Holds s = elim (Option-cases s.pending_assistant) [
  | inl e ↦
      subst (λ t. Holds t (held s)) (sym (flush_none s e))
        (record { idle = e; calls = rw e (sym (append-nil (all_calls s.msgs))) })
  | inr (m, e) ↦
      subst (λ t. Holds t (held s)) (sym (flush_some m s e))
        (record { idle = refl; calls = rw e (all_calls-snoc s.msgs m) })
]

Holds-held : (s : Progress) (cs : List UpToolCall) → Holds s cs → held s ≡ cs
Holds-held s cs v = rw v.idle (append-nil (all_calls s.msgs) ∙ v.calls)

-- A message without calls may follow.
push_held :
    (m : UpMessage) (s : Progress) (cs : List UpToolCall)
    → m.tool_calls ≡ []
    → Holds s cs
    → held (push_message m s) ≡ cs
push_held m s cs e v = rw v.idle (
    append-nil _
    ∙ (all_calls-snoc s.msgs m ∙ (ap (◌++◌ (all_calls s.msgs)) e ∙ (append-nil _ ∙ v.calls))))

held-add_call :
    (it : RespInputItem) (s : Progress) → held (add_call it s) ≡ held s ++ call_of it ∷ []
unfolding add_call
held-add_call it s = elim (Option-cases s.pending_assistant) [
  | inl e ↦ rw e (ap (λ x. x ++ call_of it ∷ []) (sym (append-nil (all_calls s.msgs))))
  | inr (m, e) ↦ rw e (sym (append_assoc (all_calls s.msgs) m.tool_calls (call_of it ∷ [])))
]

module _ (j : Json) where
  held-add_message : (it : RespInputItem) (s : Progress) → held (add_message j it s) ≡ held s
  unfolding add_message resp_message
  held-add_message it s =
      let v = flush-Holds s in
      elim (Bool-cases (is_system it.role)) [
        | inl e ↦ rw e (Holds-held (flush_assistant s) (held s) v)
        | inr e ↦ rw e (push_held (resp_message j it) (flush_assistant s) (held s) refl v)
      ]

  held-flush : (s : Progress) → held (flush_assistant s) ≡ held s
  held-flush s = Holds-held (flush_assistant s) (held s) (flush-Holds s)

  abbrev step_calls : RespInputItem → List UpToolCall
  step_calls it = if text_eq it.type (codes "function_call") then call_of it ∷ [] else []

  nil_call : (t : Text) → is_nil t ≡ true → text_eq t (codes "function_call") ≡ false
  unfolding text_eq
  nil_call [] h = refl
  nil_call (c ∷ t) h = absurd (ground (arith, h))

  message_call :
      (t : Text) → text_eq t (codes "message") ≡ true → text_eq t (codes "function_call") ≡ false
  message_call t h = rw ((text_eq_iff t (codes "message")).0 h) (unfold text_eq in refl)

  other_item_held :
      (it : RespInputItem) (s : Progress)
      → held (
          if text_eq it.type (codes "function_call_output")
          then push_message (output_of j it) (flush_assistant s)
          else if text_eq it.type (codes "reasoning") || text_eq it.type (codes "item_reference")
          then s
          else flush_assistant s)
        ≡ held s
  other_item_held it s = elim (Bool-cases (text_eq it.type (codes "function_call_output"))) [
    | inl a ↦ rw a (push_held (output_of j it) (flush_assistant s) (held s) refl (flush-Holds s))
    | inr a ↦
        elim (Bool-cases
          (text_eq it.type (codes "reasoning") || text_eq it.type (codes "item_reference"))) [
            | inl b ↦ rw (a, b) refl
            | inr b ↦ rw (a, b) (held-flush s)
          ]
  ]

  join_calls :
      (it : RespInputItem) (its : List RespInputItem)
      → step_calls it ++ item_calls its ≡ item_calls (it ∷ its)
  unfolding item_calls
  join_calls it its = elim (Bool-cases (text_eq it.type (codes "function_call"))) [
    | inl e ↦ rw e refl
    | inr e ↦ rw e refl
  ]

  -- Every item adds the calls that it makes, behind those that are held.
  held-add_item :
      (it : RespInputItem) (s : Progress) → held (add_item j it s) ≡ held s ++ step_calls it
  unfolding add_item
  held-add_item it s = elim (Bool-cases (is_nil it.type)) [
    | inl a ↦ elim (Bool-cases (is_compact_resp_message j it)) [
      | inl c ↦ rw (a, c, nil_call it.type a) (held-add_message it s ∙ sym (append-nil (held s)))
      | inr c ↦ rw (a, c, nil_call it.type a) (held-flush s ∙ sym (append-nil (held s)))
    ]
    | inr a ↦ elim (Bool-cases (text_eq it.type (codes "message"))) [
      | inl b ↦
          rw (a, b, message_call it.type b) (held-add_message it s ∙ sym (append-nil (held s)))
      | inr b ↦ elim (Bool-cases (text_eq it.type (codes "function_call"))) [
        | inl c ↦ rw (a, b, c) (held-add_call it s)
        | inr c ↦ rw (a, b, c) (other_item_held it s ∙ sym (append-nil (held s)))
      ]
    ]
  ]

  held-add_items :
      (its : List RespInputItem) (s : Progress)
      → held (add_items j its s) ≡ held s ++ item_calls its
  unfolding add_items item_calls
  held-add_items [] s = sym (append-nil (held s))
  held-add_items (it ∷ its) s =
      held-add_items its (add_item j it s)
      ∙ (ap (λ x. x ++ item_calls its) (held-add_item it s)
          ∙ (append_assoc (held s) (step_calls it) (item_calls its)
              ∙ ap (◌++◌ (held s)) (join_calls it its)))

  -- The messages that the items of a Responses input become carry exactly the function calls of these
  -- items, in order.
  pub convert_items_calls :
      (sys : List Text) (its : List RespInputItem)
      → all_calls (convert_items j sys its).1 ≡ item_calls its
  unfolding convert_items
  convert_items_calls sys its =
      let start : Progress = record { sys_parts = sys; msgs = []; pending_assistant = none } in
      let s = add_items j its start in
      let ms = (flush_assistant s).msgs in
      let whole : all_calls (ensure_cache_marker ms) ≡ all_calls ms =
        sym (all_calls-unmark (ensure_cache_marker ms))
        ∙ (ap all_calls (ensure_cache_marker_lem ms).3 ∙ all_calls-unmark ms) in
      whole ∙ ((flush-Holds s).calls ∙ (held-add_items its start ∙ unfold all_calls in refl))
