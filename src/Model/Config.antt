-- ===== src/Model/Config.antt =====
-- convert.go: `modelConfig`. The map of context tiers is a list in the order of its iteration, which
-- Go leaves open.
use qoder_model_gateway.Base.{ℕ, Bool, List, Text}
use qoder_model_gateway.Base.Int.{ℤ, pos_part}
use qoder_model_gateway.Upstream.{Float64}

pub record ContextTier : Type 0 where
  pub token_count : ℤ
  pub is_default : Bool

pub record ModelConfig : Type 0 where
  pub key : Text
  pub format : Text
  pub source : Text
  pub enable : Bool
  pub display_name : Text
  pub is_vl : Bool
  pub is_reasoning : Bool
  pub is_default : Bool
  pub price_factor : Float64
  pub max_input_tokens : ℤ
  pub url : Text
  pub context_config : List ContextTier
  pub effective_context_window : ℕ

-- A count that the code compares with 0 before it uses it: 0 stands for all that are not positive.
abbrev pub size : ContextTier → ℕ
size t = pos_part t.token_count

abbrev pub max_input : ModelConfig → ℕ
max_input mc = pos_part mc.max_input_tokens
