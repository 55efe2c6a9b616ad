-- ===== src/Openai/Reply/Client.antt =====
-- A client of the chat completions of openai.go that reads the chunks of a stream from the last to the
-- first.
use qoder_model_gateway.Base.{
  ℕ, ◌≡◌, refl, sym, ap, ◌∙◌, inl, inr, true, false, Option, none, some, List, [], ◌∷◌, ◌++◌, map,
  append_assoc, arith, ◌==◌, if◌then◌else◌, ==_iff, Bool-cases, is_nil, Text, codes,
}
use mathlib.Core.Path.{subst}
use qoder_model_gateway.Upstream.{Chunk, Choice, ToolCallDelta, Usage, finish_of}
use qoder_model_gateway.Request.Message.{UpToolCall}
use qoder_model_gateway.Openai.Reply.{
  ToolMap, new_call, merge, merge_at, merge_all, OaiReply, completion, unless_nil, second_of,
}

abbrev content : List Choice → Text
content [] = []
content (ch ∷ rest) = ch.delta.content

unfoldable pub content_of : List Chunk → Text
content_of [] = []
content_of (c ∷ cs) = content c.choices ++ content_of cs

abbrev reasoning : List Choice → Text
reasoning [] = []
reasoning (ch ∷ rest) = ch.delta.reasoning_content

unfoldable pub reasoning_of : List Chunk → Text
reasoning_of [] = []
reasoning_of (c ∷ cs) = reasoning c.choices ++ reasoning_of cs

abbrev fragments : List Choice → List ToolCallDelta
fragments [] = []
fragments (ch ∷ rest) = ch.delta.tool_calls

unfoldable pub fragments_of : List Chunk → List ToolCallDelta
fragments_of [] = []
fragments_of (c ∷ cs) = fragments c.choices ++ fragments_of cs

abbrev finish : List Choice → Option Text
finish [] = none
finish (ch ∷ rest) = finish_of ch

-- The last one of a list of values that may be missing.
unfoldable pub finish_in : List Chunk → Option Text
finish_in [] = none
finish_in (c ∷ cs) = elim (finish_in cs) [ some r ↦ some r | none ↦ finish c.choices ]

unfoldable pub usage_in : List Chunk → Option Usage
usage_in [] = none
usage_in (c ∷ cs) = elim (usage_in cs) [ some u ↦ some u | none ↦ c.usage ]

unfoldable find_call : ℕ → ToolMap → Option UpToolCall
find_call i [] = none
find_call i (kv ∷ m) = let rest = find_call i m in if kv.0 == i then some kv.1 else rest

unfoldable remove_call : ℕ → ToolMap → ToolMap
remove_call i [] = []
remove_call i (kv ∷ m) = let rest = remove_call i m in if kv.0 == i then rest else kv ∷ rest

-- A later value counts, unless it is empty.
abbrev later : Text → Text → Text
later now after = if is_nil after then now else after

-- A fragment and what is known of its call from the later ones.
unfoldable before : ToolCallDelta → Option UpToolCall → UpToolCall
before d none = record { id = d.id; type = d.type; name = d.name; arguments = d.arguments }
before d (some x) = record {
  id = later d.id x.id;
  type = later d.type x.type;
  name = later d.name x.name;
  arguments = d.arguments ++ x.arguments;
}

-- The calls by their indexes, in the order of their first fragments.
unfoldable pub calls_of : List ToolCallDelta → ToolMap
unfolding find_call remove_call before
calls_of [] = []
calls_of (d ∷ ds) =
    let rest = calls_of ds in
    (d.index, before d (find_call d.index rest)) ∷ remove_call d.index rest

abbrev pub with_type : ℕ × UpToolCall → ℕ × UpToolCall
with_type kv = (kv.0, record kv.1 { type = later (codes "function") kv.1.type })

-- What the client has read.
unfoldable pub client_reply : List Chunk → OaiReply
client_reply cs =
    completion (unless_nil (content_of cs)) (unless_nil (reasoning_of cs))
      (map second_of (map with_type (calls_of (fragments_of cs))))
      (elim (finish_in cs) [ none ↦ codes "stop" | some r ↦ r ]) (usage_in cs)

unfoldable combine : UpToolCall → Option UpToolCall → UpToolCall
combine a none = a
combine a (some x) = record {
  id = later a.id x.id;
  type = later a.type x.type;
  name = later a.name x.name;
  arguments = a.arguments ++ x.arguments;
}

-- The calls that are known, with what comes later.
unfoldable overlay : ToolMap → ToolMap → ToolMap
overlay [] c = map with_type c
overlay (kv ∷ m) c = (kv.0, combine kv.1 (find_call kv.0 c)) ∷ overlay m (remove_call kv.0 c)

combine-merge :
    (d : ToolCallDelta) (a : UpToolCall) (x : Option UpToolCall)
    → combine (merge d a) x ≡ combine a (some (before d x))
unfolding combine merge before
combine-merge d a none = ground arith
combine-merge d a (some x) = ground (arith, append_assoc a.arguments d.arguments x.arguments)

type-before :
    (d : ToolCallDelta) (i : ℕ) (x : Option UpToolCall)
    → (i, combine (merge d new_call) x) ≡ with_type (i, before d x)
unfolding combine merge before
type-before d i none = ground arith
type-before d i (some x) = ground arith

remove_twice : (i : ℕ) (m : ToolMap) → remove_call i (remove_call i m) ≡ remove_call i m
unfolding remove_call
remove_twice i [] = refl
remove_twice i (kv ∷ m) = ground (arith, remove_twice i m, Bool-cases (kv.0 == i))

remove_swap :
    (i k : ℕ) (m : ToolMap) → remove_call i (remove_call k m) ≡ remove_call k (remove_call i m)
unfolding remove_call
remove_swap i k [] = refl
remove_swap i k (kv ∷ m) =
    ground (arith, remove_swap i k m, Bool-cases (kv.0 == i), Bool-cases (kv.0 == k))

find_removed :
    (i k : ℕ) (m : ToolMap) → (k == i) ≡ false → find_call i (remove_call k m) ≡ find_call i m
unfolding find_call remove_call
find_removed i k [] h = refl
find_removed i k (kv ∷ m) h =
    ground (arith, h, find_removed i k m h, Bool-cases (kv.0 == i), Bool-cases (kv.0 == k))

eq_self : (i : ℕ) → (i == i) ≡ true
eq_self i = (==_iff i i).1 refl

eq_swap : (i k : ℕ) → (i == k) ≡ (k == i)
eq_swap i k = ground (arith, ==_iff i k, ==_iff k i)

-- A fragment that is merged first comes before what comes later.
abbrev Merges : ToolCallDelta → ToolMap → ToolMap → Type 0
Merges d m c =
    overlay (merge_at d m) c
    ≡ overlay m ((d.index, before d (find_call d.index c)) ∷ remove_call d.index c)

merge_same : (d : ToolCallDelta) (a : UpToolCall) (m c : ToolMap) → Merges d ((d.index, a) ∷ m) c
unfolding overlay merge_at find_call remove_call
merge_same d a m c =
    rw (eq_self d.index, remove_twice d.index c)
      (ap (λ x. (d.index, x) ∷ overlay m (remove_call d.index c))
        (combine-merge d a (find_call d.index c)))

overlay-merge_at : (d : ToolCallDelta) (m c : ToolMap) → Merges d m c
unfolding overlay merge_at find_call remove_call
overlay-merge_at d [] c =
    ap (λ x. x ∷ map with_type (remove_call d.index c))
      (type-before d d.index (find_call d.index c))
overlay-merge_at d ((k, a) ∷ m) c = elim (Bool-cases (k == d.index)) [
  | inl e ↦ subst (λ k. Merges d ((k, a) ∷ m) c) (sym ((==_iff k d.index).0 e)) (merge_same d a m c)
  | inr e ↦
      let other : (d.index == k) ≡ false = eq_swap d.index k ∙ e in
      rw (e, other, find_removed k d.index c other)
        (ap (λ x. (k, combine a (find_call k c)) ∷ x)
          (overlay-merge_at d m (remove_call k c)
            ∙ ap (overlay m) (rw (find_removed d.index k c e, remove_swap d.index k c) refl)))
]

overlay-nil : (m : ToolMap) → overlay m [] ≡ m
unfolding overlay find_call remove_call combine
overlay-nil [] = refl
overlay-nil (kv ∷ m) = ap (◌∷◌ kv) (overlay-nil m)

merge_all-overlay :
    (ds : List ToolCallDelta) (m : ToolMap) → merge_all ds m ≡ overlay m (calls_of ds)
unfolding merge_all calls_of
merge_all-overlay [] m = sym (overlay-nil m)
merge_all-overlay (d ∷ ds) m =
    merge_all-overlay ds (merge_at d m) ∙ overlay-merge_at d m (calls_of ds)

-- The map that the handler builds from the fragments is the client's.
pub merge_all-calls_of : (ds : List ToolCallDelta) → merge_all ds [] ≡ map with_type (calls_of ds)
unfolding overlay
merge_all-calls_of ds = merge_all-overlay ds []
