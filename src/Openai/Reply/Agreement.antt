-- ===== src/Openai/Reply/Agreement.antt =====
-- The streamed and the collected chat completion of openai.go tell a client the same.
use qoder_model_gateway.Base.{
  ◌≡◌, refl, sym, ap, ◌∙◌, inl, inr, true, Option, none, some, List, [], ◌∷◌, ◌++◌, map, append-nil,
  append_assoc, arith, Bool-cases, is_nil, Text, codes,
}
use mathlib.Core.Path.{ap₂}
use qoder_model_gateway.Upstream.{Chunk, Choice, ToolCallDelta, Usage, finish_of}
use qoder_model_gateway.Openai.Index.{fresh, remap, remap_choices, remap_all}
use qoder_model_gateway.Openai.Reply.Client.{
  content_of, reasoning_of, fragments_of, finish_in, usage_in, client_reply, merge_all-calls_of,
}
use qoder_model_gateway.Openai.Reply.{
  ToolMap, merge_at, merge_all, or_old, Line, chunk, failure, done, rewrite_model, failure_lines,
  stream_oai, OaiCollected, nothing, or_kept, take_choice, collect_chunk, collect_chunks,
  whole_reply, collect_oai,
}

-- The chunks among the lines that a client reads.
unfoldable pub sent_chunks : List Line → List Chunk
sent_chunks [] = []
sent_chunks (chunk c ∷ ls) = c ∷ sent_chunks ls
sent_chunks (failure m ∷ ls) = sent_chunks ls
sent_chunks (done ∷ ls) = sent_chunks ls

-- The merging of the handler, over the chunks that were sent.
unfoldable accumulate : List Chunk → OaiCollected → OaiCollected
accumulate [] s = s
accumulate (c ∷ cs) s =
    accumulate cs (take_choice c.choices (record s { usage = or_kept c.usage s.usage }))

sent_chunks-stream :
    (model : Text) (cs : List Chunk) (err : Option Text)
    → sent_chunks (map (λ c. chunk (rewrite_model model c)) cs ++ (failure_lines err ++ done ∷ []))
      ≡ map (rewrite_model model) cs
unfolding sent_chunks
sent_chunks-stream model [] none = refl
sent_chunks-stream model [] (some m) = refl
sent_chunks-stream model (c ∷ cs) err =
    ap (◌∷◌ (rewrite_model model c)) (sent_chunks-stream model cs err)

-- The model's name plays no part.
accumulate-rewrite :
    (model : Text) (cs : List Chunk) (s : OaiCollected)
    → accumulate (map (rewrite_model model) cs) s ≡ accumulate cs s
unfolding accumulate rewrite_model
accumulate-rewrite model [] s = refl
accumulate-rewrite model (c ∷ cs) s = accumulate-rewrite model cs _

abbrev without_index : OaiCollected → OaiCollected
without_index s = record s { idx = fresh }

take_choice-index :
    (chs : List Choice) (s : OaiCollected)
    → without_index (take_choice chs s) ≡ take_choice chs (without_index s)
unfolding take_choice
take_choice-index [] s = refl
take_choice-index (ch ∷ chs) s = refl

take_choice-idx : (chs : List Choice) (s : OaiCollected) → (take_choice chs s).idx ≡ s.idx
unfolding take_choice
take_choice-idx [] s = refl
take_choice-idx (ch ∷ chs) s = refl

nil_list : (chs : List Choice) → is_nil chs ≡ true → chs ≡ []
nil_list [] h = refl
nil_list (ch ∷ chs) h = absurd (ground (arith, h))

-- One chunk, with the index that goes on.
record IsStep (c : Chunk) (s t : OaiCollected) : Type 0 where
  index : t.idx ≡ (remap c s.idx).1
  state :
      without_index t
      ≡ take_choice
          (remap c s.idx).0.choices
          (record (without_index s) { usage = or_kept c.usage s.usage })

collect_chunk-IsStep : (c : Chunk) (s : OaiCollected) → IsStep c s (collect_chunk c s)
collect_chunk-IsStep c s = elim (Bool-cases (is_nil c.choices)) [
  | inl e ↦
      let none_left = nil_list c.choices e in
      let t : OaiCollected = record s { usage = or_kept c.usage s.usage } in
      let now : collect_chunk c s ≡ t = unfold collect_chunk in rw e refl in
      let after : remap_choices c.choices s.idx ≡ ([], s.idx) =
        ap (λ x. remap_choices x s.idx) none_left ∙ (unfold remap_choices in refl) in
      record {
        index = ap (λ x. x.idx) now ∙ (unfold remap in rw after refl);
        state = ap without_index now ∙ (unfold remap take_choice in rw after refl);
      }
  | inr e ↦
      let r = remap c s.idx in
      let t : OaiCollected = record s { usage = or_kept c.usage s.usage; idx = r.1 } in
      let now : collect_chunk c s ≡ take_choice r.0.choices t = unfold collect_chunk in rw e refl in
      record {
        index = ap (λ x. x.idx) now ∙ take_choice-idx r.0.choices t;
        state = ap without_index now ∙ take_choice-index r.0.choices t;
      }
]

collect_chunks-accumulate :
    (cs : List Chunk) (s : OaiCollected)
    → without_index (collect_chunks cs s) ≡ accumulate (remap_all cs s.idx) (without_index s)
unfolding collect_chunks accumulate remap_all
collect_chunks-accumulate [] s = refl
collect_chunks-accumulate (c ∷ cs) s =
    let v = collect_chunk-IsStep c s in
    collect_chunks-accumulate cs (collect_chunk c s)
    ∙ ap₂ (λ i x. accumulate (remap_all cs i) x) v.index (v.state ∙ (unfold remap in refl))

merge_all-append :
    (ds es : List ToolCallDelta) (m : ToolMap)
    → merge_all (ds ++ es) m ≡ merge_all es (merge_all ds m)
unfolding merge_all
merge_all-append [] es m = refl
merge_all-append (d ∷ ds) es m = merge_all-append ds es (merge_at d m)

-- The last value counts.
or_old_twice :
    (a b : Option Text) (x : Text)
    → or_old a (or_old b x) ≡ or_old (elim a [ some r ↦ some r | none ↦ b ]) x
or_old_twice none b x = refl
or_old_twice (some r) b x = refl

or_old_elim : (a : Option Text) (x : Text) → or_old a x ≡ elim a [ none ↦ x | some r ↦ r ]
or_old_elim none x = refl
or_old_elim (some r) x = refl

or_kept-none : (a : Option Usage) → or_kept a none ≡ a
or_kept-none none = refl
or_kept-none (some u) = refl

or_kept_twice :
    (a b x : Option Usage)
    → or_kept a (or_kept b x) ≡ or_kept (elim a [ some r ↦ some r | none ↦ b ]) x
or_kept_twice none b x = refl
or_kept_twice (some r) b x = refl

-- What the merged chunks add to what there was.
record IsHeard (cs : List Chunk) (s t : OaiCollected) : Type 0 where
  same_content : t.content ≡ s.content ++ content_of cs
  same_reasoning : t.reasoning ≡ s.reasoning ++ reasoning_of cs
  same_calls : t.tool_map ≡ merge_all (fragments_of cs) s.tool_map
  same_finish : t.finish_reason ≡ or_old (finish_in cs) s.finish_reason
  same_usage : t.usage ≡ or_kept (usage_in cs) s.usage

accumulate-IsHeard : (cs : List Chunk) (s : OaiCollected) → IsHeard cs s (accumulate cs s)
unfolding accumulate content_of reasoning_of fragments_of finish_in usage_in take_choice merge_all
accumulate-IsHeard [] s = record {
  same_content = sym (append-nil s.content);
  same_reasoning = sym (append-nil s.reasoning);
  same_calls = refl;
  same_finish = refl;
  same_usage = refl;
}
accumulate-IsHeard (c ∷ cs) s =
    let u = or_kept c.usage s.usage in
    elim c.choices
      as (λ chs.
        IsHeard (record c { choices = chs } ∷ cs) s
          (accumulate (record c { choices = chs } ∷ cs) s)) [
            | [] ↦
                let v = accumulate-IsHeard cs (record s { usage = u }) in
                record {
                  same_content = v.same_content;
                  same_reasoning = v.same_reasoning;
                  same_calls = v.same_calls;
                  same_finish = v.same_finish ∙ or_old_twice (finish_in cs) none s.finish_reason;
                  same_usage = v.same_usage ∙ or_kept_twice (usage_in cs) c.usage s.usage;
                }
            | ch ∷ rest ↦
                let d = ch.delta in
                let v = accumulate-IsHeard cs (take_choice (ch ∷ rest) (record s { usage = u })) in
                record {
                  same_content = v.same_content ∙ append_assoc s.content d.content (content_of cs);
                  same_reasoning =
                      v.same_reasoning
                      ∙ append_assoc s.reasoning d.reasoning_content (reasoning_of cs);
                  same_calls =
                      v.same_calls
                      ∙ sym (merge_all-append d.tool_calls (fragments_of cs) s.tool_map);
                  same_finish =
                      v.same_finish ∙ or_old_twice (finish_in cs) (finish_of ch) s.finish_reason;
                  same_usage = v.same_usage ∙ or_kept_twice (usage_in cs) c.usage s.usage;
                }
          ]

client_reply-accumulate : (cs : List Chunk) → client_reply cs ≡ whole_reply (accumulate cs nothing)
unfolding client_reply whole_reply
client_reply-accumulate cs =
    let v = accumulate-IsHeard cs nothing in
    let calls = v.same_calls ∙ merge_all-calls_of (fragments_of cs) in
    sym (
      rw (v.same_content, v.same_reasoning, calls, v.same_finish, v.same_usage)
        (rw (or_old_elim (finish_in cs) (codes "stop"), or_kept-none (usage_in cs)) refl))

-- For every list of chunks, the collected reply without an error is the one that a client has
-- read from the stream of these chunks, also when the stream ends with an error line: a client that takes
-- the chunks from the last to the first, joins the texts, and joins the fragments of tool calls by the
-- indexes that they carry, in the order of their first fragments.
pub stream_oai-collect_oai :
    (model : Text) (cs : List Chunk) (err : Option Text)
    → client_reply (sent_chunks (stream_oai model cs err)) ≡ collect_oai cs none
unfolding stream_oai collect_oai
stream_oai-collect_oai model cs err =
    let sent = sent_chunks (stream_oai model cs err) in
    let given : accumulate sent nothing ≡ without_index (collect_chunks cs nothing) =
      ap (λ x. accumulate x nothing) (sent_chunks-stream model (remap_all cs fresh) err)
      ∙ (accumulate-rewrite model (remap_all cs fresh) nothing
          ∙ sym (collect_chunks-accumulate cs nothing)) in
    client_reply-accumulate sent ∙ (ap whole_reply given ∙ (unfold whole_reply in refl))
