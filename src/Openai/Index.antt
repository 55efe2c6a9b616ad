-- ===== src/Openai/Index.antt =====
-- openai.go: `toolIndexer`, which numbers the tool calls of a reply.
pub mod Count
use qoder_model_gateway.Base.{
  ℕ, zero, suc, ◌+◌, ◌-◌, ◌*◌, ◌/◌, ◌%◌, ◌^◌, ◌≤◌, ◌<◌, ◌≡◌, refl, sym, ap, ◌∙◌, ◌≢◌, ◌↔◌, ◌⊎◌, inl,
  inr, Bool, true, false, not, ◌&&◌, ◌||◌, Option, none, some, List, [], ◌∷◌, ◌++◌, map, append-nil,
  append_assoc, arith, ltb, leb, ◌==◌, if◌then◌else◌, ltb→lt, lt→ltb, leb→le, ==_iff, Bool-cases,
  Option-cases, is_some, ◌>>=◌, length, get_elem?, take, drop, replicate, is_nil, get_last?,
  length-append, take-append-drop, length-take, length-drop, length-replicate, take-append_exact,
  drop-append_exact, All, All-append, Text, codes, text_eq, text_eq_iff, text_eq_refl, has_prefix,
  trim_prefix, has_prefix-append, has_suffix, trim_suffix, join, is_space, trim_left, trim_right,
  trim_space,
}
use qoder_model_gateway.Upstream.{Chunk, Choice, Delta, ToolCallDelta}

pub record ToolIndexer : Type 0 where
  pub cur : ℕ
  pub seen : Bool

abbrev pub fresh : ToolIndexer
fresh = record { cur = 0; seen = false }

unfoldable pub advance : ToolCallDelta → ToolIndexer → ToolIndexer
advance tc t =
    if is_nil tc.id
    then t
    else if t.seen
    then record t { cur = t.cur + 1 }
    else record t { seen = true }

-- The calls with their indexes, and the indexer after them.
unfoldable pub remap_calls : List ToolCallDelta → ToolIndexer → List ToolCallDelta × ToolIndexer
remap_calls [] t = ([], t)
remap_calls (tc ∷ tcs) t =
    let u = advance tc t in
    let rest = remap_calls tcs u in (record tc { index = u.cur } ∷ rest.0, rest.1)

unfoldable pub remap_choices : List Choice → ToolIndexer → List Choice × ToolIndexer
remap_choices [] t = ([], t)
remap_choices (ch ∷ chs) t =
    let now = remap_calls ch.delta.tool_calls t in
    let rest = remap_choices chs now.1 in
    (record ch { delta = record ch.delta { tool_calls = now.0 } } ∷ rest.0, rest.1)

unfoldable pub remap : Chunk → ToolIndexer → Chunk × ToolIndexer
remap c t = let r = remap_choices c.choices t in (record c { choices = r.0 }, r.1)

unfoldable pub remap_all : List Chunk → ToolIndexer → List Chunk
remap_all [] t = []
remap_all (c ∷ cs) t = let r = remap c t in r.0 ∷ remap_all cs r.1
