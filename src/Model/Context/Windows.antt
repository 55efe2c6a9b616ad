-- ===== src/Model/Context/Windows.antt =====
-- The supported windows of model_context.go: ascending, without repetition, and just the positive
-- counts of the tiers.
use qoder_model_gateway.Base.{
  ℕ, ◌≤◌, ◌<◌, ◌≡◌, refl, ◌∙◌, inl, inr, Bool, false, not, ◌&&◌, ◌||◌, none, some, List, [], ◌∷◌,
  arith, ltb, leb, ◌==◌, if◌then◌else◌, Bool-cases, is_nil,
}
use qoder_model_gateway.Model.Config.{ContextTier, ModelConfig, size, max_input}
use qoder_model_gateway.Model.Context.{
  contains, seen_windows, insert_sorted, sort_ints, supported_context_windows, search_ints,
  supports_context_window,
}

-- Each value is above the one before it, and all are above `b`.
abbrev pub Ascends : ℕ → List ℕ → Type 0
Ascends b [] = Unit {0}
Ascends b (v ∷ vs) = (b < v) × Ascends v vs

abbrev pub has_size : ℕ → List ContextTier → Bool
has_size v [] = false
has_size v (t ∷ ts) = (v == size t) || has_size v ts

contains-seen_windows :
    (v : ℕ) (ts : List ContextTier) (seen : List ℕ)
    → contains v (seen_windows ts seen) ≡ (contains v seen || (ltb 0 v && has_size v ts))
unfolding seen_windows contains
contains-seen_windows v [] seen = ground arith
contains-seen_windows v (t ∷ ts) seen =
    ground (arith, contains-seen_windows v ts seen, contains-seen_windows v ts (size t ∷ seen))

-- No value stands twice.
abbrev pub Distinct : List ℕ → Type 0
Distinct [] = Unit {0}
Distinct (v ∷ vs) = (contains v vs ≡ false) × Distinct vs

seen_windows-Distinct :
    (ts : List ContextTier) (seen : List ℕ)
    → Distinct seen
    → contains 0 seen ≡ false
    → Distinct (seen_windows ts seen) × (contains 0 (seen_windows ts seen) ≡ false)
unfolding seen_windows
seen_windows-Distinct [] seen d z = (d, z)
seen_windows-Distinct (t ∷ ts) seen d z =
    elim (Bool-cases (ltb 0 (size t) && not (contains (size t) seen))) [
      | inl h ↦ rw h (
          seen_windows-Distinct ts (size t ∷ seen) (ground (arith, d), d)
            (unfold contains in ground (arith, z)))
      | inr h ↦ rw h (seen_windows-Distinct ts seen d z)
    ]

contains-insert_sorted :
    (v x : ℕ) (xs : List ℕ) → contains v (insert_sorted x xs) ≡ ((v == x) || contains v xs)
unfolding insert_sorted contains
contains-insert_sorted v x [] = refl
contains-insert_sorted v x (y ∷ xs) = ground (arith, contains-insert_sorted v x xs)

contains-sort_ints : (v : ℕ) (xs : List ℕ) → contains v (sort_ints xs) ≡ contains v xs
unfolding sort_ints contains
contains-sort_ints v [] = refl
contains-sort_ints v (x ∷ xs) =
    ground (arith, contains-insert_sorted v x (sort_ints xs), contains-sort_ints v xs)

insert_sorted-Ascends :
    (b x : ℕ) (xs : List ℕ)
    → b < x
    → contains x xs ≡ false
    → Ascends b xs
    → Ascends b (insert_sorted x xs)
unfolding insert_sorted contains
insert_sorted-Ascends b x [] h c v = (h, tt)
insert_sorted-Ascends b x (y ∷ xs) h c v = ground (arith, insert_sorted-Ascends y x xs)

sort_ints-Ascends : (xs : List ℕ) → Distinct xs → contains 0 xs ≡ false → Ascends 0 (sort_ints xs)
unfolding sort_ints
sort_ints-Ascends [] d z = tt
sort_ints-Ascends (x ∷ xs) d z =
    insert_sorted-Ascends 0 x (sort_ints xs) (unfold contains in ground arith)
      (contains-sort_ints x xs ∙ d.0) (sort_ints-Ascends xs d.1 (unfold contains in ground arith))

pub windows_facts :
    (mc : ModelConfig)
    → Ascends 0 (supported_context_windows mc)
      × ((v : ℕ)
          → contains v (supported_context_windows mc) ≡ (ltb 0 v && has_size v mc.context_config))
unfolding supported_context_windows
windows_facts mc =
    let d = seen_windows-Distinct mc.context_config [] tt (unfold contains in refl) in
    (
      sort_ints-Ascends _ d.0 d.1,
      λ v.
          contains-sort_ints v _
          ∙ contains-seen_windows v mc.context_config []
          ∙ unfold contains in refl,
    )

-- The supported windows of a model rise strictly from above 0, and a number is one of them exactly
-- when it is positive and the count of a tier, in whatever order the tiers are listed.
pub supported_context_windows_lem :
    (mc : ModelConfig) (v : ℕ)
    → Ascends 0 (supported_context_windows mc)
      × (contains v (supported_context_windows mc) ≡ (ltb 0 v && has_size v mc.context_config))
supported_context_windows_lem mc v = ((windows_facts mc).0, (windows_facts mc).1 v)

contains-Ascends : (b w : ℕ) (vs : List ℕ) → w ≤ b → Ascends b vs → contains w vs ≡ false
unfolding contains
contains-Ascends b w [] h a = refl
contains-Ascends b w (v ∷ vs) h a = ground (arith, contains-Ascends v w vs (omega (arith, a.0)) a.1)

search_ints_lem :
    (b w : ℕ) (vs : List ℕ)
    → Ascends b vs
    → (elim (search_ints vs w) [ none ↦ false | some v ↦ v == w ]) ≡ contains w vs
unfolding search_ints contains
search_ints_lem b w [] h = refl
search_ints_lem b w (v ∷ vs) h = ground (arith, search_ints_lem v w vs h.1, contains-Ascends v w vs)

-- The binary search decides membership: with tiers of positive size a window is supported exactly
-- when it is the size of one of them, and without any exactly when it is positive and within the
-- model's input limit.
pub supports_context_window_lem :
    (mc : ModelConfig) (w : ℕ)
    → supports_context_window mc w ≡ (
        if is_nil (supported_context_windows mc)
        then ltb 0 w && leb w (max_input mc)
        else ltb 0 w && has_size w mc.context_config)
unfolding supports_context_window
supports_context_window_lem mc w =
    let a = windows_facts mc in
    ground (arith, search_ints_lem 0 w (supported_context_windows mc) a.0, a.1 w)
