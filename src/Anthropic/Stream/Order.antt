-- ===== src/Anthropic/Stream/Order.antt =====
-- The order of the events that `streamState` of proxy.go writes.
use qoder_model_gateway.Base.{
  ℕ, ◌≡◌, refl, ◌∙◌, inl, inr, true, false, not, ◌&&◌, ◌||◌, Option, none, some, List, [], ◌∷◌,
  ◌++◌, arith, Bool-cases, is_nil, Text, codes,
}
use qoder_model_gateway.Anthropic.Event.{
  message_stop, finished, message_delta, empty_tool, empty_text, empty_thinking, text, tool_use,
  thinking, same_kind, block_delta, block_start, payload_kind, block_stop, Payload, message_start,
  Kind, Phase, before, between, inside, observe, observe_all, observe_all-snoc,
}
use qoder_model_gateway.Anthropic.Stream.{
  finish, finish_of, handle_choice, is_nil, Choice, not, ◌∷◌, Usage, tool_call, ToolCallDelta, List,
  Chunk, fresh, tool_start, reasoning_delta, content_delta, end_choice, tool_arguments, open_block,
  start_block, handle_chunk, tool_calls, handle_chunks, charge, is_open, Text, close_block,
  emit_delta, StreamState, emit, send_message_start,
}

-- The phase that the state's flags stand for.
abbrev pub open_phase : Option Kind → ℕ → Phase
open_phase none n = between n
open_phase (some k) n = inside n k

abbrev pub phase_of : StreamState → Phase
phase_of s = elim s.started [ false ↦ before | true ↦ open_phase s.block_type s.block_index ]

-- The reply is not stopped, a client that read all events is in the phase of the flags, and no block
-- was opened before the start.
pub record IsLive (s : StreamState) : Type 0 where
  pub running : s.stopped ≡ false
  pub seen : observe_all before s.written ≡ some (phase_of s)
  pub unopened : s.started ≡ false → (s.block_type ≡ none) × (s.block_index ≡ 0)

send_message_start-IsLive : (s : StreamState) → IsLive s → IsLive (send_message_start s)
unfolding send_message_start emit observe
send_message_start-IsLive s v =
    ground (arith, observe_all-snoc before s.written (message_start s.msg_id s.model))

close_block-IsLive : (s : StreamState) → IsLive s → IsLive (close_block s)
unfolding close_block emit observe
close_block-IsLive s v =
    ground (arith, observe_all-snoc before s.written (block_stop s.block_index))

emit_block_start-IsLive :
    (k : Kind) (p : Payload) (s : StreamState)
    → payload_kind p ≡ k
    → s.started ≡ true
    → s.block_type ≡ none
    → IsLive s
    → IsLive (emit (block_start s.block_index p) (record s { block_type = some k }))
unfolding emit observe
emit_block_start-IsLive k p s e b h v =
    ground (arith, observe_all-snoc before s.written (block_start s.block_index p))

emit_delta-IsLive :
    (k : Kind) (d : Text) (s : StreamState)
    → is_open s.block_type k ≡ true
    → IsLive s
    → IsLive (emit_delta k d s)
unfolding emit_delta emit observe
emit_delta-IsLive k d s h v =
    ground (arith, observe_all-snoc before s.written (block_delta s.block_index k d))

-- What the steps of a block's start leave in the flags.
started-send_message_start : (s : StreamState) → (send_message_start s).started ≡ true
unfolding send_message_start emit
started-send_message_start s = ground arith

flags-close_block :
    (s : StreamState) → ((close_block s).started ≡ s.started) × ((close_block s).block_type ≡ none)
unfolding close_block emit
flags-close_block s = ground arith

start_block-IsLive :
    (k : Kind) (p : Payload) (s : StreamState)
    → payload_kind p ≡ k
    → IsLive s
    → IsLive (start_block k p s)
unfolding start_block
start_block-IsLive k p s e v =
    let t = send_message_start s in
    emit_block_start-IsLive k p (close_block t) e
      ((flags-close_block t).0 ∙ started-send_message_start s) (flags-close_block t).1
      (close_block-IsLive t (send_message_start-IsLive s v))

start_block_opens :
    (k : Kind) (p : Payload) (s : StreamState) → (start_block k p s).block_type ≡ some k
unfolding start_block emit
start_block_opens k p s = ground arith

same_kind_refl : (k : Kind) → same_kind k k ≡ true
same_kind_refl thinking = refl
same_kind_refl text = refl
same_kind_refl tool_use = refl

open_block-IsLive :
    (k : Kind) (p : Payload) (s : StreamState)
    → payload_kind p ≡ k
    → IsLive s
    → IsLive (open_block k p s) × (is_open (open_block k p s).block_type k ≡ true)
unfolding open_block
open_block-IsLive k p s e v =
    let t = send_message_start s in
    elim (Bool-cases (is_open t.block_type k)) [
      | inl h ↦ rw h (send_message_start-IsLive s v, h)
      | inr h ↦ rw h (
        start_block-IsLive k p t e (send_message_start-IsLive s v),
        rw (start_block_opens k p t) (same_kind_refl k),
      )
    ]

reasoning_delta-IsLive : (d : Text) (s : StreamState) → IsLive s → IsLive (reasoning_delta d s)
unfolding reasoning_delta
reasoning_delta-IsLive [] s v = v
reasoning_delta-IsLive (c ∷ d) s v =
    let o = open_block-IsLive thinking empty_thinking s refl v in
    emit_delta-IsLive thinking (c ∷ d) _ o.1 o.0

content_delta-IsLive : (d : Text) (s : StreamState) → IsLive s → IsLive (content_delta d s)
unfolding content_delta
content_delta-IsLive [] s v = v
content_delta-IsLive (c ∷ d) s v =
    let o = open_block-IsLive text empty_text s refl v in emit_delta-IsLive text (c ∷ d) _ o.1 o.0

-- The tool's id and name are no part of the order.
named-IsLive :
    (i n : Text) (s : StreamState) → IsLive s → IsLive (record s { tool_id = i; tool_name = n })
named-IsLive i n s v = record { running = v.running; seen = v.seen; unopened = v.unopened }

tool_start-IsLive : (tc : ToolCallDelta) (s : StreamState) → IsLive s → IsLive (tool_start tc s)
unfolding tool_start
tool_start-IsLive tc s v =
    elim (Bool-cases
      (not (is_nil tc.id) || (not (is_nil tc.name) && not (is_open s.block_type tool_use)))) [
        | inl h ↦ rw h (start_block-IsLive tool_use _ _ refl (named-IsLive _ _ s v))
        | inr h ↦ rw h v
      ]

tool_arguments-IsLive : (a : Text) (s : StreamState) → IsLive s → IsLive (tool_arguments a s)
unfolding tool_arguments
tool_arguments-IsLive [] s v = v
tool_arguments-IsLive (c ∷ a) s v = elim (Bool-cases (is_open s.block_type tool_use)) [
  | inl h ↦ rw h (emit_delta-IsLive tool_use (c ∷ a) s h v)
  | inr h ↦
      let p = empty_tool s.tool_id s.tool_name in
      rw h (
        emit_delta-IsLive tool_use (c ∷ a) _ (rw (start_block_opens tool_use p s) refl)
          (start_block-IsLive tool_use p s refl v))
]

tool_calls-IsLive :
    (tcs : List ToolCallDelta) (s : StreamState) → IsLive s → IsLive (tool_calls tcs s)
unfolding tool_calls tool_call
tool_calls-IsLive [] s v = v
tool_calls-IsLive (tc ∷ tcs) s v =
    tool_calls-IsLive tcs _ (tool_arguments-IsLive tc.arguments _ (tool_start-IsLive tc s v))

charge-IsLive : (u : Option Usage) (s : StreamState) → IsLive s → IsLive (charge u s)
unfolding charge
charge-IsLive none s v = v
charge-IsLive (some u) s v = record { running = v.running; seen = v.seen; unopened = v.unopened }

end_choice-IsLive :
    (r : Option Text) (u : Option Usage) (s : StreamState) → IsLive s → IsLive (end_choice r u s)
unfolding end_choice
end_choice-IsLive none u s v = v
end_choice-IsLive (some r) u s v =
    close_block-IsLive _
      (charge-IsLive u _ (record { running = v.running; seen = v.seen; unopened = v.unopened }))

pub handle_chunk-IsLive : (c : Chunk) (s : StreamState) → IsLive s → IsLive (handle_chunk c s)
unfolding handle_chunk
handle_chunk-IsLive c s v = go c.choices
  where
    go : (chs : List Choice) → IsLive (handle_choice chs c.usage s)
    go [] = unfold handle_choice in charge-IsLive c.usage s v
    go (ch ∷ rest) =
        unfold handle_choice in
        end_choice-IsLive (finish_of ch) c.usage _ (
          tool_calls-IsLive ch.delta.tool_calls _ (
            content_delta-IsLive ch.delta.content _
              (reasoning_delta-IsLive ch.delta.reasoning_content s v)))

pub handle_chunks-IsLive :
    (cs : List Chunk) (s : StreamState) → IsLive s → IsLive (handle_chunks cs s)
unfolding handle_chunks
handle_chunks-IsLive [] s v = v
handle_chunks-IsLive (c ∷ cs) s v = handle_chunks-IsLive cs _ (handle_chunk-IsLive c s v)

pub fresh-IsLive : (id name : Text) → IsLive (fresh id name)
unfolding observe_all
fresh-IsLive id name = record { running = refl; seen = refl; unopened = λ h. (refl, refl) }

summary_order :
    (s : StreamState) (r : Text) (n : ℕ)
    → observe_all before s.written ≡ some (between n)
    → observe_all before ((s.written ++ message_delta r s.account ∷ []) ++ message_stop ∷ [])
      ≡ some finished
unfolding observe
summary_order s r n h = ground (
  arith,
  observe_all-snoc before (s.written ++ message_delta r s.account ∷ []) message_stop,
  observe_all-snoc before s.written (message_delta r s.account),
)

-- A reply that was started ends properly, whatever block is open.
pub finish_order :
    (s : StreamState)
    → IsLive s
    → s.started ≡ true
    → (observe_all before (finish s).written ≡ some finished) × ((finish s).stopped ≡ true)
unfolding finish emit
finish_order s v h =
    let t = close_block s in
    let w = close_block-IsLive s v in
    let g = flags-close_block s in
    let e : observe_all before t.written ≡ some (between t.block_index) =
      w.seen ∙ ground (arith, g.0, g.1, h) in
    ground (
      arith,
      w.running,
      summary_order t t.stop_reason t.block_index e,
      summary_order t (codes "end_turn") t.block_index e,
    )

pub started-finish : (s : StreamState) → (finish s).started ≡ s.started
unfolding finish close_block emit
started-finish s = ground arith

pub finish_stops : (s : StreamState) → (finish s).stopped ≡ true
unfolding finish
finish_stops s = ground arith
