-- ===== src/Openai/Reply.antt =====
-- openai.go: `streamOAI` and `collectOAI`.
pub mod Client
pub mod Agreement
use qoder_model_gateway.Base.{
  ℕ, Option, none, some, List, [], ◌∷◌, ◌++◌, map, ◌==◌, if◌then◌else◌, is_nil, Text, codes,
}
use qoder_model_gateway.Upstream.{Chunk, Choice, ToolCallDelta, Usage, finish_of}
use qoder_model_gateway.Request.Message.{UpToolCall}
use qoder_model_gateway.Openai.Index.{ToolIndexer, fresh, remap, remap_all}

-- What the stream writes: chunks, an error, and the mark of its end.
pub data Line : Type 0 where
  chunk : Chunk → Line
  failure : Text → Line
  done : Line

unfoldable pub rewrite_model : Text → Chunk → Chunk
rewrite_model model c = record c { model = model }

abbrev pub failure_lines : Option Text → List Line
failure_lines none = []
failure_lines (some m) = failure m ∷ []

unfoldable pub stream_oai : Text → List Chunk → Option Text → List Line
stream_oai model cs err =
    map (λ c. chunk (rewrite_model model c)) (remap_all cs fresh)
    ++ (failure_lines err ++ done ∷ [])

-- `toolMap` in the order of `toolOrder`.
abbrev pub ToolMap : Type 0
ToolMap = List (ℕ × UpToolCall)

abbrev pub new_call : UpToolCall
new_call = record { id = []; type = codes "function"; name = []; arguments = [] }

unfoldable pub merge : ToolCallDelta → UpToolCall → UpToolCall
merge tc acc = record {
  id = if is_nil tc.id then acc.id else tc.id;
  type = if is_nil tc.type then acc.type else tc.type;
  name = if is_nil tc.name then acc.name else tc.name;
  arguments = acc.arguments ++ tc.arguments;
}

unfoldable pub merge_at : ToolCallDelta → ToolMap → ToolMap
merge_at tc [] = (tc.index, merge tc new_call) ∷ []
merge_at tc (kv ∷ m) =
    let rest = merge_at tc m in if kv.0 == tc.index then (kv.0, merge tc kv.1) ∷ m else kv ∷ rest

unfoldable pub merge_all : List ToolCallDelta → ToolMap → ToolMap
merge_all [] m = m
merge_all (tc ∷ tcs) m = merge_all tcs (merge_at tc m)

pub record OaiCollected : Type 0 where
  pub content : Text
  pub reasoning : Text
  pub tool_map : ToolMap
  pub finish_reason : Text
  pub usage : Option Usage
  pub idx : ToolIndexer

abbrev pub nothing : OaiCollected
nothing = record {
  content = [];
  reasoning = [];
  tool_map = [];
  finish_reason = codes "stop";
  usage = none;
  idx = fresh;
}

abbrev pub or_old {ℓ} : {A : Type ℓ} → Option A → A → A
or_old none a = a
or_old (some b) a = b

abbrev pub or_kept {ℓ} : {A : Type ℓ} → Option A → Option A → Option A
or_kept none a = a
or_kept (some b) a = some b

unfoldable pub take_choice : List Choice → OaiCollected → OaiCollected
take_choice [] s = s
take_choice (ch ∷ rest) s = record s {
  content = s.content ++ ch.delta.content;
  reasoning = s.reasoning ++ ch.delta.reasoning_content;
  tool_map = merge_all ch.delta.tool_calls s.tool_map;
  finish_reason = or_old (finish_of ch) s.finish_reason;
}

-- A chunk without choices only brings its usage.
unfoldable pub collect_chunk : Chunk → OaiCollected → OaiCollected
collect_chunk c s =
    let t = record s { usage = or_kept c.usage s.usage } in
    if is_nil c.choices
    then t
    else let r = remap c s.idx in take_choice r.0.choices (record t { idx = r.1 })

unfoldable pub collect_chunks : List Chunk → OaiCollected → OaiCollected
collect_chunks [] s = s
collect_chunks (c ∷ cs) s = collect_chunks cs (collect_chunk c s)

-- The collected reply; an empty content is `null`, an empty reasoning and no tool calls are left out.
pub data OaiReply : Type 0 where
  refused : ℕ → Text → OaiReply
  completion : Option Text → Option Text → List UpToolCall → Text → Option Usage → OaiReply

abbrev pub unless_nil : Text → Option Text
unless_nil [] = none
unless_nil (c ∷ t) = some (c ∷ t)

abbrev pub second_of : ℕ × UpToolCall → UpToolCall
second_of kv = kv.1

unfoldable pub whole_reply : OaiCollected → OaiReply
whole_reply s =
    completion (unless_nil s.content) (unless_nil s.reasoning) (map second_of s.tool_map)
      s.finish_reason s.usage

unfoldable pub collect_oai : List Chunk → Option Text → OaiReply
collect_oai cs err =
    let r = whole_reply (collect_chunks cs nothing) in
    elim err [ none ↦ r | some m ↦ if is_nil m then r else refused 502 m ]
