-- ===== src/Responses/Collect/Empty.antt =====
-- The replies of responses.go to chunks that bring no output.
use qoder_model_gateway.Base.{
  ℕ, ◌≡◌, refl, ap, ◌∙◌, inl, inr, Option, none, some, List, [], ◌∷◌, ◌++◌, map, Option-cases, All,
  Text, codes,
}
use qoder_model_gateway.Upstream.{Chunk, Account, set_usage}
use qoder_model_gateway.Responses.Event.{
  Item, Summary, Body, created, in_progress, completed, Event,
}
use qoder_model_gateway.Responses.Stream.{
  RespStreamState, fresh, emit, close_item, summary, complete, output_of, handle_choice,
  handle_chunks, start_reply, end_reply, stream_responses,
}
use qoder_model_gateway.Responses.Stream
use qoder_model_gateway.Responses.Collect.{
  RespCollected, nothing, add_choice, add_chunks, items_of, call_items, RespReply, response,
  whole_response, collect_responses,
}
use qoder_model_gateway.Responses.Collect

abbrev pub IsQuiet : Chunk → Type 0
IsQuiet c = c.choices ≡ []

abbrev pub body_of : Event → Body
body_of e = e.body

-- The output of a collected reply.
abbrev pub collected_output : RespReply → Option (List Item)
collected_output (Collect.refused n m) = none
collected_output (response i r) = r.output

module _ (new_uuid : ℕ → Text) where
  quiet_stream :
      (cs : List Chunk) (s : RespStreamState)
      → All IsQuiet cs
      → (a : Account) × (handle_chunks new_uuid cs s ≡ record s { account = a })
  unfolding handle_chunks
  quiet_stream [] s h = (s.account, refl)
  quiet_stream (c ∷ cs) s h = elim (Option-cases c.usage) [
    | inl e ↦
        let step : handle_choice new_uuid c.choices c.usage s ≡ s =
          rw (h.0, e) (unfold handle_choice Stream.charge in refl) in
        let (a, rest) = quiet_stream cs s h.1 in (a, ap (handle_chunks new_uuid cs) step ∙ rest)
    | inr (u, e) ↦
        let t : RespStreamState = record s { account = set_usage u } in
        let step : handle_choice new_uuid c.choices c.usage s ≡ t =
          rw (h.0, e) (unfold handle_choice Stream.charge in refl) in
        let (a, rest) = quiet_stream cs t h.1 in (a, ap (handle_chunks new_uuid cs) step ∙ rest)
  ]

  quiet_collect :
      (cs : List Chunk) (s : RespCollected)
      → All IsQuiet cs
      → (a : Account) × (add_chunks cs s ≡ record s { account = a })
  unfolding add_chunks
  quiet_collect [] s h = (s.account, refl)
  quiet_collect (c ∷ cs) s h = elim (Option-cases c.usage) [
    | inl e ↦
        let step : add_choice c.choices (Collect.charge c.usage s) ≡ s =
          rw (h.0, e) (unfold add_choice Collect.charge in refl) in
        let (a, rest) = quiet_collect cs s h.1 in (a, ap (add_chunks cs) step ∙ rest)
    | inr (u, e) ↦
        let t : RespCollected = record s { account = set_usage u } in
        let step : add_choice c.choices (Collect.charge c.usage s) ≡ t =
          rw (h.0, e) (unfold add_choice Collect.charge in refl) in
        let (a, rest) = quiet_collect cs t h.1 in (a, ap (add_chunks cs) step ∙ rest)
  ]

  -- When no chunk has a choice and no error ends the chunks, the streamed reply is three events, of which the last has a null output,
  -- while the collected reply of the same chunks has an empty list as its output.
  pub null_output :
      (model : Text) (cs : List Chunk)
      → All IsQuiet cs
      → ((r : Summary) × (map body_of (stream_responses new_uuid model cs none).written
            ≡ created (codes "resp_" ++ new_uuid 0) model
              ∷ in_progress (codes "resp_" ++ new_uuid 0) model
              ∷ completed r
              ∷ [])
          × (r.output ≡ none))
        × (collected_output (collect_responses new_uuid cs none) ≡ some [])
  unfolding stream_responses end_reply complete close_item emit start_reply collect_responses
      whole_response items_of call_items
  null_output model cs h =
      let s =
        start_reply new_uuid model
          (record (fresh (codes "resp_" ++ new_uuid 0) model) { drawn = 1 }) in
      let (a, e) = quiet_stream cs s h in
      let (b, f) = quiet_collect cs nothing h in
      ((summary new_uuid (record s { account = a }), rw e refl, refl), rw f refl)
