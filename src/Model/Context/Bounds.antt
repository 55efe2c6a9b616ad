-- ===== src/Model/Context/Bounds.antt =====
-- The window that model_context.go selects lies within the model's maximum.
use qoder_model_gateway.Base.{
  ℕ, ◌≤◌, ◌<◌, ◌≡◌, refl, ◌⊎◌, inl, true, List, [], ◌∷◌, arith, ltb, if◌then◌else◌, Text,
}
use qoder_model_gateway.Base.Int.{ℤ}
use qoder_model_gateway.Model.Config.{ContextTier, ModelConfig, size, max_input}
use qoder_model_gateway.Model.Context.{
  contains, supported_context_windows, greatest, maximum_context_window, supports_context_window,
  default_tier, first_or_zero, catalog_default_context_window, context_window, preference,
  select_window, apply_context_preference,
}
use qoder_model_gateway.Model.Context.Windows.{
  Ascends, has_size, windows_facts, supports_context_window_lem,
}

greatest-ge : (vs : List ℕ) (m : ℕ) → m ≤ greatest vs m
unfolding greatest
greatest-ge [] m = omega arith
greatest-ge (v ∷ vs) m = ground (arith, greatest-ge vs v, greatest-ge vs m)

contains-le-greatest : (v : ℕ) (vs : List ℕ) (m : ℕ) → contains v vs ≡ true → v ≤ greatest vs m
unfolding greatest contains
contains-le-greatest v [] m h = cc
contains-le-greatest v (x ∷ vs) m h = ground (
  arith,
  contains-le-greatest v vs x,
  contains-le-greatest v vs m,
  greatest-ge vs x,
  greatest-ge vs m,
)

contains-le-maximum :
    (v : ℕ) (mc : ModelConfig)
    → contains v (supported_context_windows mc) ≡ true
    → v ≤ maximum_context_window mc
unfolding maximum_context_window
contains-le-maximum v mc h =
    ground (arith, contains-le-greatest v (supported_context_windows mc) 0 h)

max_input-le-maximum : (mc : ModelConfig) → max_input mc ≤ maximum_context_window mc
unfolding maximum_context_window
max_input-le-maximum mc = ground arith

-- A default tier has a size of the list, unless the start value is returned.
default_tier_cases :
    (ts : List ContextTier) (w : ℕ)
    → (default_tier ts w ≡ w) ⊎ (has_size (default_tier ts w) ts ≡ true)
unfolding default_tier
default_tier_cases [] w = inl refl
default_tier_cases (t ∷ ts) w =
    ground (arith, default_tier_cases ts (size t), default_tier_cases ts w)

-- The start value does not change a positive result to 0.
default_tier_pos : (ts : List ContextTier) (w : ℕ) → 0 < w → 0 < default_tier ts w
unfolding default_tier
default_tier_pos [] w h = h
default_tier_pos (t ∷ ts) w h =
    ground (arith, default_tier_pos ts (size t), default_tier_pos ts w h)

first_or_zero-contains :
    (vs : List ℕ) → 0 < first_or_zero vs → contains (first_or_zero vs) vs ≡ true
unfolding contains
first_or_zero-contains [] h = absurd (omega arith)
first_or_zero-contains (v ∷ vs) h = ground arith

catalog_default-le-maximum :
    (mc : ModelConfig) → catalog_default_context_window mc ≤ maximum_context_window mc
unfolding catalog_default_context_window
catalog_default-le-maximum mc =
    let w = default_tier mc.context_config 0 in
    let vs = supported_context_windows mc in
    ground (
      arith,
      default_tier_cases mc.context_config 0,
      (windows_facts mc).1 w,
      contains-le-maximum w mc,
      max_input-le-maximum mc,
      contains-le-maximum (first_or_zero vs) mc,
      first_or_zero-contains vs,
    )

greatest-pos : (vs : List ℕ) → 0 < greatest vs 0 → Ascends 0 vs → 0 < first_or_zero vs
unfolding greatest
greatest-pos [] h a = h
greatest-pos (v ∷ vs) h a = a.0

-- A model has a default window unless nothing at all is known of its windows.
catalog_default-pos :
    (mc : ModelConfig) → 0 < maximum_context_window mc → 0 < catalog_default_context_window mc
unfolding catalog_default_context_window maximum_context_window
catalog_default-pos mc h =
    let vs = supported_context_windows mc in
    ground (arith, h, greatest-pos vs, (windows_facts mc).0)

supported-le-maximum :
    (mc : ModelConfig) (w : ℕ) → supports_context_window mc w ≡ true → w ≤ maximum_context_window mc
supported-le-maximum mc w h = ground (
  arith,
  supports_context_window_lem mc w,
  (windows_facts mc).1 w,
  contains-le-maximum w mc,
  max_input-le-maximum mc,
)

record-catalog_default :
    (mc : ModelConfig) (w : ℕ)
    → catalog_default_context_window (record mc { effective_context_window = w })
      ≡ catalog_default_context_window mc
unfolding catalog_default_context_window supported_context_windows
record-catalog_default mc w = refl

context_window-select :
    (preferences : List (Text × ℤ)) (mc : ModelConfig)
    → context_window (apply_context_preference preferences mc) ≡ (
        if supports_context_window mc (preference preferences mc.key)
        then preference preferences mc.key
        else catalog_default_context_window mc)
unfolding context_window apply_context_preference select_window
context_window-select preferences mc =
    let w = preference preferences mc.key in
    ground (
      arith,
      record-catalog_default mc w,
      record-catalog_default mc (catalog_default_context_window mc),
      supports_context_window_lem mc w,
    )

-- Whatever the user prefers, negative and unsupported windows included: after the preferences are applied,
-- the window of a catalogue entry is never above the entry's maximum, and it is positive exactly when
-- the maximum is.
pub apply_context_preference_bounds :
    (preferences : List (Text × ℤ)) (mc : ModelConfig)
    → (context_window (apply_context_preference preferences mc) ≤ maximum_context_window mc)
      × (ltb 0 (context_window (apply_context_preference preferences mc))
          ≡ ltb 0 (maximum_context_window mc))
apply_context_preference_bounds preferences mc =
    let w = preference preferences mc.key in
    let e = context_window-select preferences mc in
    (
      ground (arith, e, supported-le-maximum mc w, catalog_default-le-maximum mc),
      ground (
        arith,
        e,
        supported-le-maximum mc w,
        catalog_default-le-maximum mc,
        catalog_default-pos mc,
        supports_context_window_lem mc w,
      ),
    )
