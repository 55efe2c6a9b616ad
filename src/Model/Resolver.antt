-- ===== src/Model/Resolver.antt =====
-- proxy.go: `modelResolver`, which turns the model names of clients into catalogue entries. A map of
-- models is the list of its entries; the map by key is keyed by `key`, the map by name by the trimmed
-- display name. `nativeLockedDown` is an argument.
pub mod PublicId
use qoder_model_gateway.Base.{
  ℕ, zero, suc, ◌+◌, ◌-◌, ◌*◌, ◌/◌, ◌%◌, ◌^◌, ◌≤◌, ◌<◌, ◌≡◌, refl, sym, ap, ◌∙◌, ◌≢◌, ◌↔◌, ◌⊎◌, inl,
  inr, Bool, true, false, not, ◌&&◌, ◌||◌, Option, none, some, List, [], ◌∷◌, ◌++◌, map, append-nil,
  append_assoc, arith, ltb, leb, ◌==◌, if◌then◌else◌, ltb→lt, lt→ltb, leb→le, ==_iff, Bool-cases,
  Option-cases, is_some, ◌>>=◌, length, get_elem?, take, drop, replicate, is_nil, get_last?,
  length-append, take-append-drop, length-take, length-drop, length-replicate, take-append_exact,
  drop-append_exact, All, All-append, Text, codes, text_eq, text_eq_iff, text_eq_refl, has_prefix,
  trim_prefix, has_prefix-append, has_suffix, trim_suffix, join, is_space, trim_left, trim_right,
  trim_space,
}
use qoder_model_gateway.Base.Int.{pos}
use qoder_model_gateway.Model.Config.{ModelConfig}
use qoder_model_gateway.Model.Context.{maximum_context_window}

abbrev pub name_of : ModelConfig → Text
name_of mc = trim_space mc.display_name

unfoldable pub find_key : Text → List ModelConfig → Option ModelConfig
find_key k [] = none
find_key k (m ∷ ms) = let rest = find_key k ms in if text_eq m.key k then some m else rest

unfoldable pub find_name : Text → List ModelConfig → Option ModelConfig
find_name n [] = none
find_name n (m ∷ ms) = let rest = find_name n ms in if text_eq (name_of m) n then some m else rest

-- The assignment `r.byKey[mc.Key] = mc`.
unfoldable pub put : ModelConfig → List ModelConfig → List ModelConfig
put mc [] = mc ∷ []
put mc (m ∷ ms) = let rest = put mc ms in if text_eq m.key mc.key then mc ∷ ms else m ∷ rest

unfoldable pub put_all : List ModelConfig → List ModelConfig → List ModelConfig
put_all [] ms = ms
put_all (mc ∷ mcs) ms = put_all mcs (put mc ms)

-- `nameCounts` of a name that is not empty.
unfoldable pub name_count : Text → List ModelConfig → ℕ
name_count n [] = 0
name_count n (m ∷ ms) = (if text_eq (name_of m) n then 1 else 0) + name_count n ms

-- Whether an entry gets into the map by name: its name is its own and no other entry's key.
unfoldable pub is_named : List ModelConfig → ModelConfig → Bool
is_named by_key mc =
    not (is_nil (name_of mc))
    && ((name_count (name_of mc) by_key == 1) && elim (find_key (name_of mc) by_key) [
      | none ↦ true
      | some keyed ↦ text_eq keyed.key mc.key
    ])

unfoldable pub select : (ModelConfig → Bool) → List ModelConfig → List ModelConfig
select p [] = []
select p (m ∷ ms) = let rest = select p ms in if p m then m ∷ rest else rest

pub record ModelResolver : Type 0 where
  pub by_key : List ModelConfig
  pub by_name : List ModelConfig
  pub mapping : Text → Option Text
  pub def : Text
  pub one_m : Text

abbrev or_default : Text → Text → Text
or_default [] d = d
or_default (c ∷ t) d = c ∷ t

-- A nil mapping is one without entries.
unfoldable pub new_model_resolver :
    List ModelConfig → (Text → Option Text) → Text → Text → ModelResolver
new_model_resolver catalog mapping def one_m =
    let by_key = put_all catalog [] in
    record {
      by_key = by_key;
      by_name = select (is_named by_key) by_key;
      mapping = mapping;
      def = or_default def (codes "auto");
      one_m = or_default one_m (codes "ultimate");
    }

unfoldable pub synthetic : Text → ModelConfig
synthetic key = record {
  key = key;
  format = codes "openai";
  source = codes "system";
  enable = true;
  display_name = [];
  is_vl = true;
  is_reasoning = false;
  is_default = false;
  price_factor = 0;
  max_input_tokens = pos 0;
  url = [];
  context_config = [];
  effective_context_window = 0;
}

abbrev pub one_m_suffix : Text
one_m_suffix = codes "[1m]"

abbrev pub one_m_window : ℕ
one_m_window = 900_000

module _ (r : ModelResolver) where
  unfoldable pub model_by_identifier : Text → Option ModelConfig
  model_by_identifier identifier = elim (find_key identifier r.by_key) [
    | some mc ↦ some mc
    | none ↦ find_name identifier r.by_name
  ]

  unfoldable pub public_id : ModelConfig → Text
  public_id mc =
      let name = name_of mc in
      if has_suffix name one_m_suffix then mc.key else elim (find_name name r.by_name) [
        | none ↦ mc.key
        | some named ↦ if text_eq named.key mc.key then name else mc.key
      ]

  unfoldable pub by_key_or_synthetic : Text → ModelConfig
  by_key_or_synthetic key = elim (model_by_identifier key) [ some mc ↦ mc | none ↦ synthetic key ]

  -- An entry of the mapping that is empty counts as none.
  abbrev mapped : Text → Text
  mapped name = elim (r.mapping name) [
    | some k ↦ k
    | none ↦ elim (r.mapping (codes "*")) [ some k ↦ k | none ↦ [] ]
  ]

  unfoldable pub key_for : Text → Text
  key_for name =
      let key = mapped name in
      if not (is_nil key)
      then key
      else elim (model_by_identifier name) [ some mc ↦ mc.key | none ↦ r.def ]

  unfoldable pub resolve_locked : Bool → Text → Option ModelConfig
  resolve_locked want_1m name = elim (model_by_identifier name) [
    | none ↦ none
    | some mc ↦
        if not mc.enable || (want_1m && ltb (maximum_context_window mc) one_m_window)
        then none
        else if want_1m
        then some (record mc { effective_context_window = maximum_context_window mc })
        else some mc
  ]

  unfoldable pub resolve_open : Bool → Text → ModelConfig
  resolve_open want_1m name =
      let mc = by_key_or_synthetic (key_for name) in
      let big = by_key_or_synthetic r.one_m in
      if want_1m
        && (ltb (maximum_context_window mc) one_m_window
            && leb one_m_window (maximum_context_window big))
      then big
      else mc

  unfoldable pub resolve : Bool → Text → Option ModelConfig
  resolve locked client_model =
      let name = trim_prefix client_model (codes "qoder-anthropic/") in
      let want_1m = has_suffix name one_m_suffix in
      let bare = if want_1m then trim_suffix name one_m_suffix else name in
      if locked then resolve_locked want_1m bare else some (resolve_open want_1m bare)
