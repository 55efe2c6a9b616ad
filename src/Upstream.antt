-- ===== src/Upstream.antt =====
-- convert.go: the chunks that the upstream model service streams, and their token accounting.
-- A `float64` is carried as its 64-bit pattern, since the gateway only copies it. A pointer to an
-- optional value is an `Option`.
use qoder_model_gateway.Base.{
  ℕ, Bool, List, [], ◌∷◌, ◌++◌, Option, none, some, Text, codes, text_eq, if◌then◌else◌,
}
use qoder_model_gateway.Base.Int.{ℤ, pos, max_ℤ, sub64}

abbrev pub Float64 : Type 0
Float64 = ℕ

pub record PromptTokensDetails : Type 0 where
  pub cached_tokens : ℤ
  pub cacheable_tokens : ℤ

pub record Usage : Type 0 where
  pub prompt_tokens : ℤ
  pub completion_tokens : ℤ
  pub total_tokens : ℤ
  pub prompt_tokens_details : Option PromptTokensDetails
  pub credits : Option Float64
  pub original_credits : Option Float64
  pub billable : Option Bool

pub record ToolCallDelta : Type 0 where
  pub id : Text
  pub index : ℕ
  pub type : Text
  pub name : Text
  pub arguments : Text

pub record Delta : Type 0 where
  pub role : Text
  pub content : Text
  pub reasoning_content : Text
  pub tool_calls : List ToolCallDelta

pub record Choice : Type 0 where
  pub index : ℕ
  pub delta : Delta
  pub finish_reason : Option Text

pub record ChunkError : Type 0 where
  pub code : Text
  pub message : Text

pub record Chunk : Type 0 where
  pub id : Text
  pub object : Text
  pub created : ℤ
  pub model : Text
  pub choices : List Choice
  pub usage : Option Usage
  pub error : Option ChunkError

-- `cachedTokens` and `cacheWriteTokens`, for a usage that is there.
unfoldable pub cached_tokens : Usage → ℤ
cached_tokens u = elim u.prompt_tokens_details [ none ↦ pos 0 | some d ↦ d.cached_tokens ]

unfoldable pub cache_write_tokens : Usage → ℤ
cache_write_tokens u = elim u.prompt_tokens_details [ none ↦ pos 0 | some d ↦ d.cacheable_tokens ]

-- The entries that `billingFields` reports.
pub data BillingField : Type 0 where
  credits original_credits : Float64 → BillingField
  billable : Bool → BillingField

abbrev field_of {ℓ} : {A : Type ℓ} → (A → BillingField) → Option A → List BillingField
field_of f none = []
field_of f (some a) = f a ∷ []

unfoldable pub billing_fields : Option Usage → List BillingField
billing_fields none = []
billing_fields (some u) =
    field_of credits u.credits
    ++ (field_of original_credits u.original_credits ++ field_of billable u.billable)

-- The token counts that `setUsage` keeps, with the usage that they were taken from.
pub record Account : Type 0 where
  pub input_tokens : ℤ
  pub output_tokens : ℤ
  pub cache_read : ℤ
  pub cache_write : ℤ
  pub bill : Option Usage

abbrev pub no_account : Account
no_account = record {
  input_tokens = pos 0;
  output_tokens = pos 0;
  cache_read = pos 0;
  cache_write = pos 0;
  bill = none;
}

unfoldable pub set_usage : Usage → Account
set_usage u =
    let read = cached_tokens u in
    let write = cache_write_tokens u in
    record {
      input_tokens = max_ℤ (sub64 (sub64 u.prompt_tokens read) write) (pos 0);
      output_tokens = u.completion_tokens;
      cache_read = read;
      cache_write = write;
      bill = some u;
    }

-- `mapStopReason`.
unfoldable pub map_stop_reason : Text → Text
map_stop_reason fr =
    if text_eq fr (codes "stop")
    then codes "end_turn"
    else if text_eq fr (codes "tool_calls")
    then codes "tool_use"
    else if text_eq fr (codes "length")
    then codes "max_tokens"
    else if text_eq fr (codes "content_filter")
    then codes "refusal"
    else if text_eq fr []
    then codes "end_turn"
    else fr

-- The test on `FinishReason` that every consumer of chunks makes: the reason that ends the choice.
unfoldable pub finish_of : Choice → Option Text
finish_of ch = elim ch.finish_reason [
  | none ↦ none
  | some r ↦ if text_eq r [] then none else if text_eq r (codes "null") then none else some r
]
