-- ===== src/Server/Catalog.antt =====
-- main.go: `loadCatalog`, which merges the catalogue that is built in with a file or the CLI's cache. The
-- maps of models are as in Model.Resolver. Reading the file, the decryption and `encoding/json` are
-- parameters.
pub mod Usable
use qoder_model_gateway.Base.{
  ℕ, zero, suc, ◌+◌, ◌-◌, ◌*◌, ◌/◌, ◌%◌, ◌^◌, ◌≤◌, ◌<◌, ◌≡◌, refl, sym, ap, ◌∙◌, ◌≢◌, ◌↔◌, ◌⊎◌, inl,
  inr, Bool, true, false, not, ◌&&◌, ◌||◌, Option, none, some, List, [], ◌∷◌, ◌++◌, map, append-nil,
  append_assoc, arith, ltb, leb, ◌==◌, if◌then◌else◌, ltb→lt, lt→ltb, leb→le, ==_iff, Bool-cases,
  Option-cases, is_some, ◌>>=◌, length, get_elem?, take, drop, replicate, is_nil, get_last?,
  length-append, take-append-drop, length-take, length-drop, length-replicate, take-append_exact,
  drop-append_exact, All, All-append, Text, codes, text_eq, text_eq_iff, text_eq_refl, has_prefix,
  trim_prefix, has_prefix-append, has_suffix, trim_suffix, join, is_space, trim_left, trim_right,
  trim_space,
}
use qoder_model_gateway.Base.Int.{ℤ, pos}
use qoder_model_gateway.Model.Config.{ModelConfig}
use qoder_model_gateway.Model.Resolver.{put, put_all}
use qoder_model_gateway.Model.Context.{apply_context_preferences}
use qoder_model_gateway.Upstream.{Float64}

pub record Spec : Type 0 where
  pub key : Text
  pub name : Text
  pub reasoning : Bool
  pub max_in : ℕ

abbrev spec : Text → Text → Bool → ℕ → Spec
spec key name reasoning max_in = record {
  key = key;
  name = name;
  reasoning = reasoning;
  max_in = max_in;
}

abbrev pub specs : List Spec
specs =
    spec (codes "auto") (codes "Auto") false 180_000
    ∷ spec (codes "ultimate") (codes "Ultimate") true 1_000_000
    ∷ spec (codes "performance") (codes "Performance") false 1_000_000
    ∷ spec (codes "efficient") (codes "Efficient") false 180_000
    ∷ spec (codes "lite") (codes "Lite") false 180_000
    ∷ spec (codes "cmodel") (codes "Cantus") true 1_000_000
    ∷ spec (codes "qmodel_38max") (codes "Qwen3.8-Max") true 1_000_000
    ∷ spec (codes "qmodel_latest") (codes "Qwen3.7-Max") false 1_000_000
    ∷ spec (codes "qmodel") (codes "Qwen3.7-Plus") false 1_000_000
    ∷ spec (codes "kmodel_latest") (codes "Kimi-K3") false 1_000_000
    ∷ spec (codes "kmodel") (codes "Kimi-K2.7-Code") false 256_000
    ∷ spec (codes "gmodel") (codes "GLM-5.3") true 1_000_000
    ∷ spec (codes "gm51model") (codes "GLM-5.2") true 1_000_000
    ∷ spec (codes "dmodel") (codes "DeepSeek-V4-Pro") true 1_000_000
    ∷ spec (codes "dfmodel") (codes "DeepSeek-V4-Flash") true 1_000_000
    ∷ spec (codes "mmodel") (codes "MiniMax-M3") false 1_000_000
    ∷ []

unfoldable pub builtin : Float64 → Spec → ModelConfig
builtin one s = record {
  key = s.key;
  format = codes "openai";
  source = codes "system";
  enable = true;
  display_name = s.name;
  is_vl = true;
  is_reasoning = s.reasoning;
  is_default = false;
  price_factor = one;
  max_input_tokens = pos s.max_in;
  url = [];
  context_config = [];
  effective_context_window = 0;
}

unfoldable pub builtin_catalog : Float64 → List ModelConfig
builtin_catalog one = map (builtin one) specs

-- The entries of a group, of which each can be null. A group that is missing or cannot be decoded has
-- none.
abbrev pub Group : Type 0
Group = List (Option ModelConfig)

abbrev pub or_else_text : Text → Text → Text
or_else_text [] d = d
or_else_text (c ∷ t) d = c ∷ t

unfoldable pub normalize_entry : ModelConfig → ModelConfig
normalize_entry mc = record mc {
  format = or_else_text mc.format (codes "openai");
  source = or_else_text mc.source (codes "system");
  enable = true;
}

unfoldable pub is_wanted : Bool → ModelConfig → Bool
is_wanted locked mc = not (is_nil (trim_space mc.key)) && (not locked || mc.enable)

unfoldable pub merge_entry : Bool → Option ModelConfig → List ModelConfig → List ModelConfig
merge_entry locked none ms = ms
merge_entry locked (some mc) ms = if is_wanted locked mc then put (normalize_entry mc) ms else ms

unfoldable pub merge_entries : Bool → Group → List ModelConfig → List ModelConfig
merge_entries locked [] ms = ms
merge_entries locked (e ∷ es) ms = merge_entries locked es (merge_entry locked e ms)

-- The groups of the text that was read, if it can be decoded: chat, enterprise, teams.
unfoldable pub merge_catalog : Bool → List ModelConfig → Group → List ModelConfig
merge_catalog locked catalog models =
    if is_nil models
    then catalog
    else apply_context_preferences (merge_entries locked models (put_all catalog [])) []

unfoldable pub base_catalog : Bool → Float64 → List ModelConfig
base_catalog locked one = if locked then [] else builtin_catalog one

-- `raw` is what was read and decrypted, empty when that failed; `decode` gives the entries of the three
-- groups.
unfoldable pub load_catalog :
    Bool → Float64 → (Text → Option (Group × Group × Group)) → Text → List ModelConfig
load_catalog locked one decode raw =
    let catalog = base_catalog locked one in
    if is_nil raw then apply_context_preferences catalog [] else elim (decode raw) [
      | none ↦ apply_context_preferences catalog []
      | some g ↦ merge_catalog locked catalog (g.0 ++ (g.1 ++ g.2))
    ]
