-- ===== src/Responses/Stream/Whole.antt =====
-- A streamed Responses reply of responses.go as a whole: every chunk keeps the order of the events,
-- and the last event ends the reply.
use qoder_model_gateway.Base.{
  ℕ, ◌≡◌, refl, inl, inr, not, ◌||◌, Option, none, some, List, [], ◌∷◌, ◌++◌, Bool-cases,
  Option-cases, is_nil, Text, codes,
}
use qoder_model_gateway.Upstream.{
  Chunk, Choice, ToolCallDelta, Usage, Account, set_usage, finish_of,
}
use qoder_model_gateway.Responses.Event.{
  Kind, reasoning, message, function_call, delta, completed, failed, ended, between, observe,
  nothing_seen, observe_event, observe_all,
}
use qoder_model_gateway.Responses.Stream.{
  RespStreamState, fresh, emit, summary, close_item, is_current, open_reasoning, open_message,
  open_function_call, reasoning_delta, content_delta, tool_start, tool_arguments, tool_calls,
  charge, end_choice, handle_choice, handle_chunks, complete, start_reply, end_reply,
  stream_responses,
}
use qoder_model_gateway.Responses.Stream.Order.{
  Sees, emit-Sees, phase_at, IsLive, IsInside, live_at, at-IsLive, emit_delta, between_items,
  open_function_call-IsInside, open_reasoning-IsInside, open_message-IsInside, current_kind,
}

phase_same :
    (o : Option Kind) (a : Account) (r : Text) (s : RespStreamState)
    → phase_at o (record s { account = a; stop_reason = r }) ≡ phase_at o s
phase_same none a r s = refl
phase_same (some reasoning) a r s = refl
phase_same (some message) a r s = refl
phase_same (some function_call) a r s = refl

-- The accounting is no part of what a client checks.
account-IsLive :
    (a : Account) (r : Text) (s : RespStreamState)
    → IsLive s
    → IsLive (record s { account = a; stop_reason = r })
account-IsLive a r s h = rw (phase_same s.cur_kind a r s) h

module _ (new_uuid : ℕ → Text) where
  reasoning_delta-IsLive :
      (d : Text) (s : RespStreamState) → IsLive s → IsLive (reasoning_delta new_uuid d s)
  unfolding reasoning_delta
  reasoning_delta-IsLive [] s h = h
  reasoning_delta-IsLive (c ∷ d) s h =
      let t = open_reasoning new_uuid s in
      let (v, e) = open_reasoning-IsInside new_uuid s h in
      let u : RespStreamState = record t { reason_buf = t.reason_buf ++ c ∷ d } in
      let now =
        emit_delta reasoning (c ∷ d) t.reason_buf t u (live_at (some reasoning) t e v) refl refl in
      let r = emit (delta t.out_index t.cur_item_id reasoning (c ∷ d)) u in
      at-IsLive (some reasoning) r (unfold emit in e) (unfold emit in now)

  content_delta-IsLive :
      (d : Text) (s : RespStreamState) → IsLive s → IsLive (content_delta new_uuid d s)
  unfolding content_delta
  content_delta-IsLive [] s h = h
  content_delta-IsLive (c ∷ d) s h =
      let t = open_message new_uuid s in
      let (v, e) = open_message-IsInside new_uuid s h in
      let u : RespStreamState = record t { text_buf = t.text_buf ++ c ∷ d } in
      let now =
        emit_delta message (c ∷ d) t.text_buf t u (live_at (some message) t e v) refl refl in
      let r = emit (delta t.out_index t.cur_item_id message (c ∷ d)) u in
      at-IsLive (some message) r (unfold emit in e) (unfold emit in now)

  tool_start-IsLive :
      (tc : ToolCallDelta) (s : RespStreamState) → IsLive s → IsLive (tool_start new_uuid tc s)
  tool_start-IsLive tc s h = elim (Bool-cases (not (is_nil tc.id) || not (is_nil tc.name))) [
    | inl e ↦ unfold tool_start in rw e (open_function_call-IsInside new_uuid _ _ s h).0
    | inr e ↦ unfold tool_start in rw e h
  ]

  more_arguments :
      (a : Text) (t : RespStreamState)
      → IsInside function_call t
      → IsLive (
          emit
            (delta t.out_index t.cur_item_id function_call a)
            (record t { args_buf = t.args_buf ++ a }))
  more_arguments a t v =
      let u : RespStreamState = record t { args_buf = t.args_buf ++ a } in
      let now =
        emit_delta function_call a t.args_buf t u (live_at (some function_call) t v.1 v.0) refl
          refl in
      let r = emit (delta t.out_index t.cur_item_id function_call a) u in
      at-IsLive (some function_call) r (unfold emit in v.1) (unfold emit in now)

  tool_arguments-IsLive :
      (a : Text) (s : RespStreamState) → IsLive s → IsLive (tool_arguments new_uuid a s)
  unfolding tool_arguments
  tool_arguments-IsLive [] s h = h
  tool_arguments-IsLive (c ∷ a) s h = elim (Bool-cases (is_current function_call s.cur_kind)) [
    | inl e ↦ rw e (more_arguments (c ∷ a) s (h, current_kind new_uuid function_call s.cur_kind e))
    | inr e ↦ rw e (
        more_arguments (c ∷ a) (open_function_call new_uuid s.fc_call_id s.fc_name s)
          (open_function_call-IsInside new_uuid s.fc_call_id s.fc_name s h))
  ]

  tool_calls-IsLive :
      (tcs : List ToolCallDelta) (s : RespStreamState)
      → IsLive s
      → IsLive (tool_calls new_uuid tcs s)
  unfolding tool_calls
  tool_calls-IsLive [] s h = h
  tool_calls-IsLive (tc ∷ tcs) s h =
      tool_calls-IsLive tcs (tool_arguments new_uuid tc.arguments (tool_start new_uuid tc s))
        (tool_arguments-IsLive tc.arguments _ (tool_start-IsLive tc s h))

  charge-IsLive : (u : Option Usage) (s : RespStreamState) → IsLive s → IsLive (charge new_uuid u s)
  unfolding charge
  charge-IsLive none s h = h
  charge-IsLive (some u) s h = account-IsLive (set_usage u) s.stop_reason s h

  end_choice-IsLive :
      (r : Option Text) (u : Option Usage) (s : RespStreamState)
      → IsLive s
      → IsLive (end_choice new_uuid r u s)
  unfolding end_choice
  end_choice-IsLive none u s h = h
  end_choice-IsLive (some r) u s h =
      charge-IsLive u (record s { stop_reason = r }) (account-IsLive s.account r s h)

  handle_choice-IsLive :
      (cs : List Choice) (u : Option Usage) (s : RespStreamState)
      → IsLive s
      → IsLive (handle_choice new_uuid cs u s)
  unfolding handle_choice
  handle_choice-IsLive [] u s h = charge-IsLive u s h
  handle_choice-IsLive (ch ∷ rest) u s h = end_choice-IsLive (finish_of ch) u _ (
      tool_calls-IsLive ch.delta.tool_calls _ (
        content_delta-IsLive ch.delta.content _
          (reasoning_delta-IsLive ch.delta.reasoning_content s h)))

  handle_chunks-IsLive :
      (cs : List Chunk) (s : RespStreamState) → IsLive s → IsLive (handle_chunks new_uuid cs s)
  unfolding handle_chunks
  handle_chunks-IsLive [] s h = h
  handle_chunks-IsLive (c ∷ cs) s h =
      handle_chunks-IsLive cs (handle_choice new_uuid c.choices c.usage s)
        (handle_choice-IsLive c.choices c.usage s h)

  start_reply-IsLive :
      (id model : Text) (n : ℕ) (name : Text)
      → IsLive (start_reply new_uuid name (record (fresh id model) { drawn = n }))
  unfolding start_reply emit observe_all observe_event observe
  start_reply-IsLive id model n name = refl

  -- What a client that checks the order has when a reply ended.
  abbrev IsEnded : RespStreamState → Type 0
  IsEnded s = Sees s ended s.items

  complete-IsEnded : (s : RespStreamState) → IsLive s → IsEnded (complete new_uuid s)
  unfolding complete observe emit
  complete-IsEnded s h =
      let t = close_item s in
      emit-Sees (completed (summary new_uuid t)) t (between t.out_index) ended t.items
        (between_items s h) refl

  fail-IsEnded : (m : Text) (s : RespStreamState) → IsLive s → IsEnded (emit (failed m) s)
  unfolding observe
  fail-IsEnded m s h = elim (Option-cases s.cur_kind) [
    | inl e ↦
        let now =
          emit-Sees (failed m) s (between s.out_index) ended s.items (live_at none s e h) refl in
        unfold emit in now
    | inr (k, e) ↦
        let now =
          emit-Sees (failed m) s (phase_at (some k) s) ended s.items (live_at (some k) s e h)
            refl in
        unfold emit in now
  ]

  end_reply-IsEnded :
      (err : Option Text) (s : RespStreamState) → IsLive s → IsEnded (end_reply new_uuid err s)
  unfolding end_reply
  end_reply-IsEnded none s h = complete-IsEnded s h
  end_reply-IsEnded (some []) s h = complete-IsEnded s h
  end_reply-IsEnded (some (c ∷ m)) s h = fail-IsEnded (c ∷ m) s h

  -- Whatever chunks arrive and whatever error ends them, a client that checks every event of a streamed
  -- Responses reply accepts it to its end: the sequence numbers rise by one from 1, each item has the
  -- next output index and one identifier, the text that ends it is the sum of its deltas, the reply
  -- ends once, and the finished items are those that the state lists.
  pub stream_responses_order :
      (model : Text) (cs : List Chunk) (err : Option Text)
      → observe_all nothing_seen (stream_responses new_uuid model cs err).written
        ≡ some (record {
          count = (stream_responses new_uuid model cs err).seq;
          phase = ended;
          items = (stream_responses new_uuid model cs err).items;
        })
  unfolding stream_responses
  stream_responses_order model cs err =
      end_reply-IsEnded err _
        (handle_chunks-IsLive cs _ (start_reply-IsLive (codes "resp_" ++ new_uuid 0) model 1 model))
