-- ===== src/Anthropic/Stream/Deltas.antt =====
-- What the deltas that `streamState` of proxy.go writes carry to a client.
use qoder_model_gateway.Base.{
  ◌≡◌, refl, sym, ap, ◌∙◌, inl, inr, true, false, not, ◌&&◌, ◌||◌, Option, some, List, [], ◌∷◌,
  ◌++◌, append-nil, append_assoc, arith, if◌then◌else◌, Bool-cases, is_nil, Text, codes,
}
use qoder_model_gateway.Upstream.{ToolCallDelta}
use qoder_model_gateway.Anthropic.Event.{
  Kind, thinking, text, tool_use, same_kind, Payload, Event, message_start, block_start,
  block_delta, block_stop, message_delta, message_stop, empty_thinking, empty_text, empty_tool,
}
use qoder_model_gateway.Anthropic.Stream.{
  StreamState, is_open, emit, send_message_start, close_block, start_block, open_block, emit_delta,
  finish, tool_start, tool_arguments, tool_call, tool_calls, reasoning_delta, content_delta,
}

-- The text that a client joins from the deltas of one kind of block.
abbrev pub delta_of : Kind → Event → Text
delta_of k (block_delta i d t) = if same_kind d k then t else []
delta_of k _ = []

unfoldable pub deltas : Kind → List Event → Text
deltas k [] = []
deltas k (e ∷ es) = delta_of k e ++ deltas k es

deltas-snoc :
    (k : Kind) (es : List Event) (e : Event) → deltas k (es ++ e ∷ []) ≡ deltas k es ++ delta_of k e
unfolding deltas
deltas-snoc k [] e = append-nil _
deltas-snoc k (x ∷ es) e = rw (deltas-snoc k es e) (sym (append_assoc (delta_of k x) _ _))

-- From `s` to `t` the client has received `d` more in blocks of kind `k`, and nothing else that the
-- reply is made of has changed.
pub record Adds (k : Kind) (s t : StreamState) (d : Text) : Type 0 where
  pub still : t.stopped ≡ s.stopped
  pub added : s.stopped ≡ false → deltas k t.written ≡ deltas k s.written ++ d
  pub same_account : t.account ≡ s.account
  pub same_reason : t.stop_reason ≡ s.stop_reason

module _ (k : Kind) where
  Adds-refl : (s : StreamState) → Adds k s s []
  Adds-refl s = record {
    still = refl;
    added = λ h. sym (append-nil _);
    same_account = refl;
    same_reason = refl;
  }

  Adds-trans :
      (s t u : StreamState) (d e : Text) → Adds k s t d → Adds k t u e → Adds k s u (d ++ e)
  Adds-trans s t u d e v w = record {
    still = w.still ∙ v.still;
    added = λ h. w.added (v.still ∙ h) ∙ ap (λ x. x ++ e) (v.added h) ∙ append_assoc _ d e;
    same_account = w.same_account ∙ v.same_account;
    same_reason = w.same_reason ∙ v.same_reason;
  }

  emit-Adds : (e : Event) (s : StreamState) → Adds k s (emit e s) (delta_of k e)
  unfolding emit
  emit-Adds e s = ground (arith, deltas-snoc k s.written e)

  send_message_start-Adds : (s : StreamState) → Adds k s (send_message_start s) []
  unfolding send_message_start
  send_message_start-Adds s =
      ground (
        arith,
        Adds-refl s,
        emit-Adds (message_start s.msg_id s.model) (record s { started = true }),
      )

  pub close_block-Adds : (s : StreamState) → Adds k s (close_block s) []
  unfolding close_block
  close_block-Adds s = ground (arith, Adds-refl s, emit-Adds (block_stop s.block_index) s)

  -- Changes of fields that are not part of the reply.
  block_type-Adds :
      (b : Option Kind) (s t : StreamState) (d : Text)
      → Adds k s t d
      → Adds k s (record t { block_type = b }) d
  block_type-Adds b s t d v = record {
    still = v.still;
    added = v.added;
    same_account = v.same_account;
    same_reason = v.same_reason;
  }

  start_block-Adds : (j : Kind) (p : Payload) (s : StreamState) → Adds k s (start_block j p s) []
  unfolding start_block
  start_block-Adds j p s =
      let t = send_message_start s in
      let u = close_block t in
      Adds-trans s u _ [] []
        (Adds-trans s t u [] [] (send_message_start-Adds s) (close_block-Adds t))
        (Adds-trans u (record u { block_type = some j }) _ [] []
          (block_type-Adds (some j) u u [] (Adds-refl u))
          (emit-Adds (block_start u.block_index p) _))

  open_block-Adds : (j : Kind) (p : Payload) (s : StreamState) → Adds k s (open_block j p s) []
  unfolding open_block
  open_block-Adds j p s =
      let t = send_message_start s in
      elim (Bool-cases (is_open t.block_type j)) [
        | inl h ↦ simp h (send_message_start-Adds s)
        | inr h ↦
            simp h (Adds-trans s t _ [] [] (send_message_start-Adds s) (start_block-Adds j p t))
      ]

  emit_delta-Adds :
      (j : Kind) (d : Text) (s : StreamState)
      → Adds k s (emit_delta j d s) (if same_kind j k then d else [])
  unfolding emit_delta
  emit_delta-Adds j d s = emit-Adds (block_delta s.block_index j d) s

  reasoning_delta-Adds :
      (d : Text) (s : StreamState)
      → Adds k s (reasoning_delta d s) (if same_kind thinking k then d else [])
  unfolding reasoning_delta
  reasoning_delta-Adds [] s = ground (arith, Adds-refl s)
  reasoning_delta-Adds (c ∷ d) s =
      let t = open_block thinking empty_thinking s in
      Adds-trans s t _ [] _ (open_block-Adds thinking empty_thinking s)
        (emit_delta-Adds thinking (c ∷ d) t)

  content_delta-Adds :
      (d : Text) (s : StreamState)
      → Adds k s (content_delta d s) (if same_kind text k then d else [])
  unfolding content_delta
  content_delta-Adds [] s = ground (arith, Adds-refl s)
  content_delta-Adds (c ∷ d) s =
      let t = open_block text empty_text s in
      Adds-trans s t _ [] _ (open_block-Adds text empty_text s) (emit_delta-Adds text (c ∷ d) t)

  named-Adds :
      (i n : Text) (s t : StreamState) (d : Text)
      → Adds k (record s { tool_id = i; tool_name = n }) t d
      → Adds k s t d
  named-Adds i n s t d v = record {
    still = v.still;
    added = v.added;
    same_account = v.same_account;
    same_reason = v.same_reason;
  }

  tool_start-Adds : (tc : ToolCallDelta) (s : StreamState) → Adds k s (tool_start tc s) []
  unfolding tool_start
  tool_start-Adds tc s =
      elim (Bool-cases
        (not (is_nil tc.id) || (not (is_nil tc.name) && not (is_open s.block_type tool_use)))) [
          | inl h ↦ simp h (named-Adds _ _ s _ [] (start_block-Adds tool_use _ _))
          | inr h ↦ simp h (Adds-refl s)
        ]

  tool_arguments-Adds :
      (d : Text) (s : StreamState)
      → Adds k s (tool_arguments d s) (if same_kind tool_use k then d else [])
  unfolding tool_arguments
  tool_arguments-Adds [] s = ground (arith, Adds-refl s)
  tool_arguments-Adds (c ∷ d) s = elim (Bool-cases (is_open s.block_type tool_use)) [
    | inl h ↦ simp h (emit_delta-Adds tool_use (c ∷ d) s)
    | inr h ↦
        let t = start_block tool_use (empty_tool s.tool_id s.tool_name) s in
        simp h (
          Adds-trans s t _ [] _ (start_block-Adds tool_use _ s)
            (emit_delta-Adds tool_use (c ∷ d) t))
  ]

-- All argument fragments of a chunk, joined.
unfoldable pub fragments : List ToolCallDelta → Text
fragments [] = []
fragments (tc ∷ tcs) = tc.arguments ++ fragments tcs

tool_calls-Adds :
    (k : Kind) (tcs : List ToolCallDelta) (s : StreamState)
    → Adds k s (tool_calls tcs s) (if same_kind tool_use k then fragments tcs else [])
unfolding tool_calls tool_call fragments
tool_calls-Adds k [] s = ground (arith, Adds-refl k s)
tool_calls-Adds k (tc ∷ tcs) s =
    let t = tool_start tc s in
    let u = tool_arguments tc.arguments t in
    let v : Adds k s u (if same_kind tool_use k then tc.arguments else []) =
      Adds-trans k s t u [] _ (tool_start-Adds k tc s) (tool_arguments-Adds k tc.arguments t) in
    let w = Adds-trans k s u _ _ _ v (tool_calls-Adds k tcs u) in
    elim (Bool-cases (same_kind tool_use k)) [
      | inl h ↦ simp h (simp h at w)
      | inr h ↦ simp h (simp h at w)
    ]

-- The three kinds of deltas of a choice, in the stream.
pub deltas_choice-Adds :
    (k : Kind) (r d : Text) (tcs : List ToolCallDelta) (s : StreamState)
    → Adds k s (tool_calls tcs (content_delta d (reasoning_delta r s))) (
        (if same_kind thinking k then r else [])
        ++ (if same_kind text k then d else [])
        ++ (if same_kind tool_use k then fragments tcs else []))
deltas_choice-Adds k r d tcs s =
    let a = reasoning_delta r s in
    let b = content_delta d a in
    Adds-trans k s b _ _ _
      (Adds-trans k s a b _ _ (reasoning_delta-Adds k r s) (content_delta-Adds k d a))
      (tool_calls-Adds k tcs b)

abbrev ended : Text → Text
ended r = if is_nil r then codes "end_turn" else r

finish-written :
    (s : StreamState)
    → s.stopped ≡ false
    → (finish s).written
      ≡ (close_block s).written ++ message_delta (ended s.stop_reason) s.account ∷ message_stop ∷ []
finish-written s h =
    let t = close_block s in
    let v = close_block-Adds thinking s in
    let still : t.stopped ≡ false = v.still ∙ h in
    let own : (finish s).written
        ≡ (t.written ++ message_delta (ended t.stop_reason) t.account ∷ []) ++ message_stop ∷ [] =
      elim (Bool-cases (is_nil t.stop_reason)) [
        | inl e ↦ unfold finish emit in simp (h, e, still) refl
        | inr e ↦ unfold finish emit in simp (h, e, still) refl
      ] in
    own
    ∙ (append_assoc t.written (message_delta (ended t.stop_reason) t.account ∷ [])
          (message_stop ∷ [])
        ∙ rw (v.same_reason, v.same_account) refl)

pub finish-deltas :
    (k : Kind) (s : StreamState)
    → s.stopped ≡ false
    → (deltas k (finish s).written ≡ deltas k s.written)
      × ((finish s).written
          ≡ (close_block s).written
            ++ message_delta
                (if is_nil s.stop_reason then codes "end_turn" else s.stop_reason)
                s.account
              ∷ message_stop
              ∷ [])
unfolding finish emit
finish-deltas k s h =
    let t = close_block s in
    let v = close_block-Adds k s in
    let u = finish-written s h in
    (
      ground (
        arith,
        v,
        v.added h,
        append-nil (deltas k s.written),
        append-nil (deltas k t.written),
        deltas-snoc k t.written (message_delta t.stop_reason t.account),
        deltas-snoc k t.written (message_delta (codes "end_turn") t.account),
        deltas-snoc k (t.written ++ message_delta t.stop_reason t.account ∷ []) message_stop,
        deltas-snoc k (t.written ++ message_delta (codes "end_turn") t.account ∷ []) message_stop,
      ),
      u,
    )
