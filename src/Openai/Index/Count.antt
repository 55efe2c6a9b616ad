-- ===== src/Openai/Index/Count.antt =====
-- The index of a tool call in a chat completion (openai.go) counts the identifiers before it.
use qoder_model_gateway.Base.{
  ℕ, ◌+◌, ◌-◌, ◌≡◌, refl, sym, ap, ◌∙◌, inl, inr, List, [], ◌∷◌, ◌++◌, arith, ltb, if◌then◌else◌,
  Bool-cases, is_nil,
}
use mathlib.Core.Path.{subst, ap₂}
use qoder_model_gateway.Upstream.{Chunk, Choice, ToolCallDelta}
use qoder_model_gateway.Openai.Index.{
  ToolIndexer, fresh, advance, remap_calls, remap_choices, remap, remap_all,
}

-- How many of the calls carry an identifier.
unfoldable pub count_ids : List ToolCallDelta → ℕ
count_ids [] = 0
count_ids (tc ∷ tcs) = (if is_nil tc.id then 0 else 1) + count_ids tcs

-- All calls of a reply, in the order in which they arrive.
unfoldable pub calls_of_choices : List Choice → List ToolCallDelta
calls_of_choices [] = []
calls_of_choices (ch ∷ chs) = ch.delta.tool_calls ++ calls_of_choices chs

unfoldable pub calls_of : List Chunk → List ToolCallDelta
unfolding calls_of_choices
calls_of [] = []
calls_of (c ∷ cs) = calls_of_choices c.choices ++ calls_of cs

-- The calls numbered by the identifiers that came so far.
unfoldable pub numbered : ℕ → List ToolCallDelta → List ToolCallDelta
unfolding count_ids
numbered n [] = []
numbered n (tc ∷ tcs) =
    let m = n + count_ids (tc ∷ []) in record tc { index = m - 1 } ∷ numbered m tcs

-- The indexer after `n` identifiers.
record Counts (t : ToolIndexer) (n : ℕ) : Type 0 where
  at : t.cur ≡ n - 1
  any : t.seen ≡ ltb 0 n

advance-Counts :
    (tc : ToolCallDelta) (t : ToolIndexer) (n : ℕ)
    → Counts t n
    → Counts (advance tc t) (n + count_ids (tc ∷ []))
unfolding advance count_ids
advance-Counts tc t n v = elim (Bool-cases (is_nil tc.id)) [
  | inl e ↦ record { at = ground (arith, v.at, e); any = ground (arith, v.any, e) }
  | inr e ↦ elim (Bool-cases t.seen) [
    | inl s ↦ record { at = ground (arith, v.at, v.any, e, s); any = ground (arith, v.any, e, s) }
    | inr s ↦ record { at = ground (arith, v.at, v.any, e, s); any = ground (arith, v.any, e, s) }
  ]
]

count_ids-append :
    (front bs : List ToolCallDelta) → count_ids (front ++ bs) ≡ count_ids front + count_ids bs
unfolding count_ids
count_ids-append [] bs = omega arith
count_ids-append (a ∷ front) bs = omega (arith, count_ids-append front bs)

numbered-append :
    (n : ℕ) (front back : List ToolCallDelta)
    → numbered n (front ++ back) ≡ numbered n front ++ numbered (n + count_ids front) back
unfolding numbered count_ids
numbered-append n [] back = let e : n ≡ n + 0 = omega arith in ap (λ k. numbered k back) e
numbered-append n (a ∷ front) back =
    let m = n + count_ids (a ∷ []) in
    let e : m + count_ids front ≡ n + count_ids (a ∷ front) = omega arith in
    ap (◌∷◌ (record a { index = m - 1 }))
      (numbered-append m front back ∙ ap (λ k. numbered m front ++ numbered k back) e)

-- What numbering a list of calls gives.
record IsNumbered (n : ℕ) (given : List ToolCallDelta) (r : List ToolCallDelta × ToolIndexer)
    : Type 0 where
  calls : r.0 ≡ numbered n given
  counts : Counts r.1 (n + count_ids given)

remap_calls-IsNumbered :
    (tcs : List ToolCallDelta) (t : ToolIndexer) (n : ℕ)
    → Counts t n
    → IsNumbered n tcs (remap_calls tcs t)
unfolding remap_calls numbered count_ids
remap_calls-IsNumbered [] t n v =
    let e : n ≡ n + 0 = omega arith in record { calls = refl; counts = subst (Counts t) e v }
remap_calls-IsNumbered (tc ∷ tcs) t n v =
    let u = advance tc t in
    let w = advance-Counts tc t n v in
    let m = n + count_ids (tc ∷ []) in
    let rest = remap_calls-IsNumbered tcs u m w in
    let e : m + count_ids tcs ≡ n + count_ids (tc ∷ tcs) = omega arith in
    record {
      calls =
          ap (λ k. record tc { index = k } ∷ (remap_calls tcs u).0) w.at
          ∙ ap (◌∷◌ (record tc { index = m - 1 })) rest.calls;
      counts = subst (Counts (remap_calls tcs u).1) e rest.counts;
    }

remap_choices-IsNumbered :
    (chs : List Choice) (t : ToolIndexer) (n : ℕ)
    → Counts t n
    → IsNumbered n
        (calls_of_choices chs)
        (calls_of_choices (remap_choices chs t).0, (remap_choices chs t).1)
unfolding remap_choices calls_of_choices numbered count_ids
remap_choices-IsNumbered [] t n v =
    let e : n ≡ n + 0 = omega arith in record { calls = refl; counts = subst (Counts t) e v }
remap_choices-IsNumbered (ch ∷ chs) t n v =
    let tcs = ch.delta.tool_calls in
    let r = remap_calls tcs t in
    let first = remap_calls-IsNumbered tcs t n v in
    let m = n + count_ids tcs in
    let rest = remap_choices-IsNumbered chs r.1 m first.counts in
    let e : m + count_ids (calls_of_choices chs) ≡ n + count_ids (tcs ++ calls_of_choices chs) =
      omega (arith, count_ids-append tcs (calls_of_choices chs)) in
    record {
      calls = ap₂ ◌++◌ first.calls rest.calls ∙ sym (numbered-append n tcs (calls_of_choices chs));
      counts = subst (Counts (remap_choices chs r.1).1) e rest.counts;
    }

remap_all-numbered :
    (cs : List Chunk) (t : ToolIndexer) (n : ℕ)
    → Counts t n
    → calls_of (remap_all cs t) ≡ numbered n (calls_of cs)
unfolding remap_all remap calls_of numbered
remap_all-numbered [] t n v = refl
remap_all-numbered (c ∷ cs) t n v =
    let first = remap_choices-IsNumbered c.choices t n v in
    let rest =
      remap_all-numbered cs (remap_choices c.choices t).1
        (n + count_ids (calls_of_choices c.choices)) first.counts in
    ap₂ ◌++◌ first.calls rest ∙ sym (numbered-append n (calls_of_choices c.choices) (calls_of cs))

-- Over all chunks of a reply, each tool call that is sent on has as its index the number of
-- identifiers that came up to it, less one, and is otherwise unchanged: calls are numbered from 0 in
-- order, and a continuation has the index of the call that it continues.
pub remap_all_lem : (cs : List Chunk) → calls_of (remap_all cs fresh) ≡ numbered 0 (calls_of cs)
remap_all_lem cs = remap_all-numbered cs fresh 0 (record { at = omega arith; any = refl })
