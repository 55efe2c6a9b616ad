-- ===== src/Tests/Model.antt =====
-- Runs of the context windows of model_context.go.
use qoder_model_gateway.Base.{
  ◌≤◌, ◌≡◌, refl, ◌⊎◌, true, false, ◌&&◌, none, some, List, [], ◌∷◌, ◌++◌, ltb, leb, if◌then◌else◌,
  is_nil, Text, codes, text_eq, has_prefix, has_suffix,
}
use qoder_model_gateway.Base.Int.{ℤ, pos}
use qoder_model_gateway.Model.Config.{ModelConfig}
use qoder_model_gateway.Model.Context.{
  contains, supported_context_windows, supports_context_window, maximum_context_window,
  context_window, apply_context_preference,
}
use qoder_model_gateway.Model.Context.Windows.{
  Ascends, has_size, supported_context_windows_lem, supports_context_window_lem,
}
use qoder_model_gateway.Model.Resolver.{
  resolve, put, put_all, find_key, new_model_resolver, public_id,
}
use qoder_model_gateway.Model.Resolver.PublicId.{address, resolve-public_id}
use qoder_model_gateway.Model.Context.Bounds.{apply_context_preference_bounds}

abbrev kimi : ModelConfig
kimi = record {
  key = codes "kmodel";
  format = codes "openai";
  source = codes "system";
  enable = true;
  display_name = codes "Kimi";
  is_vl = true;
  is_reasoning = false;
  is_default = false;
  price_factor = 0;
  max_input_tokens = pos 256000;
  url = [];
  context_config =
      record { token_count = pos 400000; is_default = false }
      ∷ record { token_count = pos 200000; is_default = true }
      ∷ [];
  effective_context_window = 0;
}

supported_context_windows_example :
    Ascends 0 (supported_context_windows kimi)
    × (contains 200000 (supported_context_windows kimi)
        ≡ (ltb 0 200000 && has_size 200000 kimi.context_config))
supported_context_windows_example = supported_context_windows_lem kimi 200000

supports_context_window_example : supports_context_window kimi 300000 ≡ (
    if is_nil (supported_context_windows kimi)
    then ltb 0 300000 && leb 300000 256000
    else ltb 0 300000 && has_size 300000 kimi.context_config)
supports_context_window_example = supports_context_window_lem kimi 300000

abbrev preferences : List (Text × ℤ)
preferences = (codes "kmodel", pos 400000) ∷ []

apply_context_preference_bounds_example :
    context_window (apply_context_preference preferences kimi) ≤ maximum_context_window kimi
apply_context_preference_bounds_example = (apply_context_preference_bounds preferences kimi).0

abbrev catalog : List ModelConfig
catalog =
    kimi
    ∷ record kimi { key = codes "k2" }
    ∷ record kimi { key = codes "k3"; display_name = codes "Solo" }
    ∷ []

abbrev solo : ModelConfig
solo = record kimi { key = codes "k3"; display_name = codes "Solo" }

solo_found : find_key (codes "k3") (new_model_resolver catalog (λ k. none) [] []).by_key ≡ some solo
unfolding new_model_resolver put_all put find_key text_eq
solo_found = refl

resolve-public_id_example :
    let r = new_model_resolver catalog (λ k. none) [] [] in
    (resolve r true (address ++ public_id r solo) ≡ some solo)
    × ((has_prefix (public_id r solo) address ≡ true)
        ⊎ (resolve r true (public_id r solo) ≡ some solo))
unfolding has_suffix has_prefix
resolve-public_id_example =
    resolve-public_id catalog (λ k. none) [] [] solo true solo_found (λ k. refl) refl refl
