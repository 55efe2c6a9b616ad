-- ===== src/Model/Context.antt =====
-- model_context.go: the context windows of a model and the local preference for them. Windows are
-- positive wherever the code uses them, so they are natural numbers here.
pub mod Windows
pub mod Bounds
use qoder_model_gateway.Base.{
  ℕ, zero, suc, ◌+◌, ◌-◌, ◌*◌, ◌/◌, ◌%◌, ◌^◌, ◌≤◌, ◌<◌, ◌≡◌, refl, sym, ap, ◌∙◌, ◌≢◌, ◌↔◌, ◌⊎◌, inl,
  inr, Bool, true, false, not, ◌&&◌, ◌||◌, Option, none, some, List, [], ◌∷◌, ◌++◌, map, append-nil,
  append_assoc, arith, ltb, leb, ◌==◌, if◌then◌else◌, ltb→lt, lt→ltb, leb→le, ==_iff, Bool-cases,
  Option-cases, is_some, ◌>>=◌, length, get_elem?, take, drop, replicate, is_nil, get_last?,
  length-append, take-append-drop, length-take, length-drop, length-replicate, take-append_exact,
  drop-append_exact, All, All-append, Text, codes, text_eq, text_eq_iff, text_eq_refl, has_prefix,
  trim_prefix, has_prefix-append, has_suffix, trim_suffix, join, is_space, trim_left, trim_right,
  trim_space,
}
use qoder_model_gateway.Base.Int.{ℤ, pos_part}
use qoder_model_gateway.Model.Config.{ContextTier, ModelConfig, size, max_input}

unfoldable pub contains : ℕ → List ℕ → Bool
contains v [] = false
contains v (x ∷ xs) = (v == x) || contains v xs

-- The keys of `seen`, behind those that are there already.
unfoldable pub seen_windows : List ContextTier → List ℕ → List ℕ
seen_windows [] seen = seen
seen_windows (t ∷ ts) seen =
    seen_windows ts (if ltb 0 (size t) && not (contains (size t) seen) then size t ∷ seen else seen)

-- `sort.Ints`.
unfoldable pub insert_sorted : ℕ → List ℕ → List ℕ
insert_sorted v [] = v ∷ []
insert_sorted v (x ∷ xs) = if leb v x then v ∷ x ∷ xs else x ∷ insert_sorted v xs

unfoldable pub sort_ints : List ℕ → List ℕ
sort_ints [] = []
sort_ints (x ∷ xs) = insert_sorted x (sort_ints xs)

unfoldable pub supported_context_windows : ModelConfig → List ℕ
supported_context_windows mc = sort_ints (seen_windows mc.context_config [])

unfoldable pub greatest : List ℕ → ℕ → ℕ
greatest [] maximum = maximum
greatest (v ∷ vs) maximum = greatest vs (if ltb maximum v then v else maximum)

unfoldable pub maximum_context_window : ModelConfig → ℕ
maximum_context_window mc =
    let maximum = greatest (supported_context_windows mc) 0 in
    if ltb maximum (max_input mc) then max_input mc else maximum

-- `sort.SearchInts`: the first value that is not below the window, if there is one.
unfoldable pub search_ints : List ℕ → ℕ → Option ℕ
search_ints [] w = none
search_ints (v ∷ vs) w = if leb w v then some v else search_ints vs w

unfoldable pub supports_context_window : ModelConfig → ℕ → Bool
supports_context_window mc w =
    let values = supported_context_windows mc in
    if w == 0
    then false
    else if is_nil values
    then ltb 0 (max_input mc) && leb w (max_input mc)
    else elim (search_ints values w) [ none ↦ false | some v ↦ v == w ]

-- The least default tier; 0 while there is none.
unfoldable pub default_tier : List ContextTier → ℕ → ℕ
default_tier [] window = window
default_tier (t ∷ ts) window = default_tier ts (
    if t.is_default && (ltb 0 (size t) && ((window == 0) || ltb (size t) window))
    then size t
    else window)

abbrev pub first_or_zero : List ℕ → ℕ
first_or_zero [] = 0
first_or_zero (v ∷ vs) = v

unfoldable pub catalog_default_context_window : ModelConfig → ℕ
catalog_default_context_window mc =
    let window = default_tier mc.context_config 0 in
    if ltb 0 window
    then window
    else if ltb 0 (max_input mc)
    then max_input mc
    else first_or_zero (supported_context_windows mc)

unfoldable pub context_window : ModelConfig → ℕ
context_window mc =
    if ltb 0 mc.effective_context_window
    then mc.effective_context_window
    else catalog_default_context_window mc

-- `preferences[key]`, which is 0 for a key that is missing.
unfoldable pub preference : List (Text × ℤ) → Text → ℕ
preference [] key = 0
preference ((k, v) ∷ ps) key = if text_eq k key then pos_part v else preference ps key

unfoldable pub select_window : List (Text × ℤ) → ModelConfig → ℕ
select_window preferences mc =
    let preferred = preference preferences mc.key in
    let selected = if supports_context_window mc preferred then preferred else 0 in
    if selected == 0 then catalog_default_context_window mc else selected

unfoldable pub apply_context_preference : List (Text × ℤ) → ModelConfig → ModelConfig
apply_context_preference preferences mc = record mc {
  effective_context_window = select_window preferences mc;
}

unfoldable pub apply_context_preferences : List ModelConfig → List (Text × ℤ) → List ModelConfig
apply_context_preferences catalog preferences = map (apply_context_preference preferences) catalog

-- The check of `parseContextPreferences` on the decoded map; `none` is its error.
unfoldable pub valid_preferences : List (Text × ℤ) → Bool
valid_preferences [] = true
valid_preferences ((k, v) ∷ ps) =
    (not (is_nil (trim_space k)) && (ltb 0 (pos_part v) && leb (pos_part v) 2_000_000))
    && valid_preferences ps

-- `json.Unmarshal` into the map is the parameter.
unfoldable pub parse_context_preferences :
    (Text → Option (List (Text × ℤ))) → Text → Option (List (Text × ℤ))
parse_context_preferences decode raw =
    if is_nil (trim_space raw)
    then some []
    else do values ← decode raw; if valid_preferences values then some values else none
