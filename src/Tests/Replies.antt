-- ===== src/Tests/Replies.antt =====
-- Runs of the replies of the OpenAI protocols.
use qoder_model_gateway.Base.{ℕ, ◌≡◌, refl, none, some, [], ◌∷◌, ◌++◌, map, Text, codes}
use qoder_model_gateway.Base.Int.{pos}
use qoder_model_gateway.Upstream.{Chunk, ToolCallDelta, Delta}
use qoder_model_gateway.Responses.Event.{
  Summary, created, in_progress, completed, ended, nothing_seen, observe_all,
}
use qoder_model_gateway.Responses.Stream.{stream_responses}
use qoder_model_gateway.Responses.Stream.Whole.{stream_responses_order}
use qoder_model_gateway.Openai.Index.{fresh, remap_all}
use qoder_model_gateway.Openai.Reply.{stream_oai, collect_oai}
use qoder_model_gateway.Openai.Reply.Client.{client_reply}
use qoder_model_gateway.Openai.Reply.Agreement.{sent_chunks, stream_oai-collect_oai}
use qoder_model_gateway.Responses.Collect.{collect_responses}
use qoder_model_gateway.Responses.Collect.Empty.{body_of, collected_output, null_output}
use qoder_model_gateway.Openai.Index.Count.{calls_of, numbered, remap_all_lem}

abbrev call : ToolCallDelta
call = record {
  id = codes "call_1";
  index = 0;
  type = codes "function";
  name = codes "grep";
  arguments = codes "{}";
}

abbrev delta : Delta
delta = record {
  role = codes "assistant";
  content = codes "hi";
  reasoning_content = codes "hm";
  tool_calls = call ∷ record call { id = [] } ∷ record call { id = codes "call_2" } ∷ [];
}

abbrev chunk : Chunk
chunk = record {
  id = codes "c1";
  object = codes "chunk";
  created = pos 0;
  model = codes "m";
  choices = record { index = 0; delta = delta; finish_reason = some (codes "stop") } ∷ [];
  usage = none;
  error = none;
}

remap_all_example :
    calls_of (remap_all (chunk ∷ chunk ∷ []) fresh) ≡ numbered 0 (calls_of (chunk ∷ chunk ∷ []))
remap_all_example = remap_all_lem (chunk ∷ chunk ∷ [])

abbrev uuid : ℕ → Text
uuid n = n ∷ []

stream_responses_order_example :
    observe_all nothing_seen (stream_responses uuid (codes "m") (chunk ∷ []) none).written
    ≡ some (record {
      count = (stream_responses uuid (codes "m") (chunk ∷ []) none).seq;
      phase = ended;
      items = (stream_responses uuid (codes "m") (chunk ∷ []) none).items;
    })
stream_responses_order_example = stream_responses_order uuid (codes "m") (chunk ∷ []) none

stream_oai-collect_oai_example :
    client_reply (sent_chunks (stream_oai (codes "m") (chunk ∷ chunk ∷ []) none))
    ≡ collect_oai (chunk ∷ chunk ∷ []) none
stream_oai-collect_oai_example = stream_oai-collect_oai (codes "m") (chunk ∷ chunk ∷ []) none

-- A chunk that only ends the stream.
abbrev quiet : Chunk
quiet = record chunk { choices = [] }

null_output_example :
    ((r : Summary) × (map body_of (stream_responses uuid (codes "m") (quiet ∷ []) none).written
        ≡ created (codes "resp_" ++ uuid 0) (codes "m")
          ∷ in_progress (codes "resp_" ++ uuid 0) (codes "m")
          ∷ completed r
          ∷ [])
      × (r.output ≡ none))
    × (collected_output (collect_responses uuid (quiet ∷ []) none) ≡ some [])
null_output_example = null_output uuid (codes "m") (quiet ∷ []) (refl, tt)
