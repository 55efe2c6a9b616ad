-- ===== src/Anthropic/Session/Order.antt =====
-- The order of the events of a streamed Messages reply, for every upstream body (`streamAnthropic`
-- of proxy.go).
use qoder_model_gateway.Base.{
  ◌≡◌, refl, sym, ◌∙◌, ◌⊎◌, inl, inr, Bool, true, false, none, some, List, [], ◌∷◌, ◌++◌, arith,
  Bool-cases, is_some, Text, codes, text_eq_refl,
}
use qoder_model_gateway.Sse.{Frame, halt, Ending}
use qoder_model_gateway.Sse.Invariant.{Ensures, read_sse_inv}
use qoder_model_gateway.Anthropic.Event.{
  before, finished, failed, observe, observe_all, observe_all-snoc, Event, error, message_delta,
  message_stop,
}
use qoder_model_gateway.Anthropic.Stream.{StreamState, fresh, emit, finish, close_block}
use qoder_model_gateway.Anthropic.Stream.Order.{
  IsLive, handle_chunk-IsLive, fresh-IsLive, finish_stops, finish_order, started-finish,
}
use qoder_model_gateway.Anthropic.Session.{
  Decoder, Message, Session, frame_message, handle_message, handle_frame, end_session,
  stream_anthropic,
}

-- While the body is read.
pub record IsReading (r : Session) : Type 0 where
  pub live : IsLive r.stream
  pub no_error : r.proto_err ≡ none

-- The events written so far end a reply, or an error event ended them.
abbrev pub IsComplete : List Event → Type 0
IsComplete es = (observe_all before es ≡ some finished) ⊎ (observe_all before es ≡ some failed)

-- When the callback stopped the reading.
pub record IsHalted (r : Session) : Type 0 where
  pub done : (r.stream.stopped ≡ true) ⊎ (is_some r.proto_err ≡ true)
  pub complete : r.stream.started ≡ true → IsComplete r.stream.written

error_order :
    (m : Text) (s : StreamState)
    → IsLive s
    → observe_all before (emit (error m) s).written ≡ some failed
unfolding emit observe
error_order m s v = ground (arith, observe_all-snoc before s.written (error m))

end_reading :
    (r : Session)
    → IsReading r
    → (end_session r).stream.started ≡ true
    → IsComplete (end_session r).stream.written
unfolding end_session
end_reading r v h = elim (Bool-cases r.stream.started) [
  | inl e ↦ ground (arith, v.live.running, v.no_error, finish_order r.stream v.live e)
  | inr e ↦ ground (arith, v.live.running, v.no_error, e)
]

end_halted :
    (r : Session)
    → IsHalted r
    → (end_session r).stream.started ≡ true
    → IsComplete (end_session r).stream.written
unfolding end_session
end_halted r v h = ground (arith, v.complete)

module _ (j : Decoder) (locked : Bool) where
  handle_message_keeps :
      (m : Message) (s : StreamState)
      → IsLive s
      → Ensures IsReading IsHalted (handle_message j locked m s)
  unfolding handle_message
  handle_message_keeps Message.finished s v = record {
    done = inl (finish_stops s);
    complete = λ h. inl (finish_order s v (sym (started-finish s) ∙ h)).0;
  }
  handle_message_keeps Message.skipped s v = record { live = v; no_error = refl }
  handle_message_keeps (Message.failed m) s v = record {
    done = inr refl;
    complete = λ h. inr (error_order _ s v);
  }
  handle_message_keeps (Message.arrived c) s v =
      let w = handle_chunk-IsLive c s v in simp w.running (record { live = w; no_error = refl })

  handle_frame_keeps :
      (f : Frame) (r : Session)
      → IsReading r
      → Ensures IsReading IsHalted (handle_frame j locked f r)
  unfolding handle_frame
  handle_frame_keeps f r v = handle_message_keeps (frame_message j f) r.stream v.live

  -- Whatever bytes arrive, however they end and whatever they decode to: when a message was started,
  -- the events written are a whole reply in the order of the protocol (blocks numbered from 0 that do
  -- not overlap, deltas in the open block, a summary, a stop), or such a reply cut by an error event.
  pub stream_anthropic_order :
      (id model body : Text) (e : Ending)
      → (stream_anthropic j locked id model body e).stream.started ≡ true
      → IsComplete (stream_anthropic j locked id model body e).stream.written
  unfolding stream_anthropic
  stream_anthropic_order id model body e =
      let start : Session = record { stream = fresh id model; proto_err = none } in
      let p : IsReading start = record { live = fresh-IsLive id model; no_error = refl } in
      elim (read_sse_inv IsReading IsHalted (handle_frame j locked) handle_frame_keeps body e start
        p) [ inl v ↦ end_reading _ v | inr v ↦ end_halted _ v ]

-- A reply that is finished before it was started has a summary and no start.
finish_unstarted :
    (s : StreamState) → IsLive s → s.started ≡ false → observe_all before (finish s).written ≡ none
unfolding finish close_block emit observe
finish_unstarted s v h = ground (
  arith,
  observe_all-snoc before s.written (message_delta s.stop_reason s.account),
  observe_all-snoc before s.written (message_delta (codes "end_turn") s.account),
  observe_all-snoc before (s.written ++ message_delta s.stop_reason s.account ∷ []) message_stop,
  observe_all-snoc before (s.written ++ message_delta (codes "end_turn") s.account ∷ [])
      message_stop,
)

-- When a `finish` frame arrives while no message was started, the handler stops the reading with
-- events that a client refuses: a summary and a stop without a start.
pub finish_before_start :
    (j : Decoder) (locked : Bool) (f : Frame) (r : Session)
    → IsReading r
    → r.stream.started ≡ false
    → f.event ≡ codes "finish"
    → (t : Session) × (handle_frame j locked f r ≡ halt t)
      × (observe_all before t.stream.written ≡ none)
unfolding handle_frame handle_message frame_message
finish_before_start j locked f r v h e = (
  record { stream = finish r.stream; proto_err = none },
  rw (e, text_eq_refl (codes "finish")) refl,
  finish_unstarted r.stream v.live h,
)
