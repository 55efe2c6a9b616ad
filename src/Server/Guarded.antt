-- ===== src/Server/Guarded.antt =====
-- No request of a client gets to the upstream past the checks of its handler (proxy.go).
use qoder_model_gateway.Base.{
  ℕ, ◌≡◌, refl, sym, ap, ◌∙◌, ◌⊎◌, inl, inr, Bool, true, false, some, List, [], ◌∷◌, ◌++◌, arith,
  if◌then◌else◌, Bool-cases, Option-cases, length, drop, is_nil, Text, codes, text_eq, text_eq_iff,
  has_prefix, trim_prefix, has_suffix, trim_suffix,
}
use qoder_model_gateway.Model.Config.{ModelConfig}
use qoder_model_gateway.Model.Resolver.{
  name_of, find_key, find_name, ModelResolver, model_by_identifier, resolve, resolve_locked,
}
use qoder_model_gateway.Request.Message.{UpMessage}
use qoder_model_gateway.Request.Messages.{Json}
use qoder_model_gateway.Retry.{World}
use qoder_model_gateway.Server.Session.{Sessions}
use qoder_model_gateway.Server.Access.{
  auth_ok, MessagesRequest, Decoded, unreadable, request, check_decoded, check, forward,
  Credentials, handle,
}

has_prefix-drop : (s p : Text) → has_prefix s p ≡ true → s ≡ p ++ drop (length p) s
unfolding has_prefix
has_prefix-drop s [] h = refl
has_prefix-drop [] (c ∷ p) h = ground (arith, h)
has_prefix-drop (d ∷ s) (c ∷ p) h = ground (arith, h, has_prefix-drop s p)

auth_ok_lem :
    (sk key a : Text)
    → is_nil sk ≡ false
    → auth_ok sk key a ≡ true
    → (key ≡ sk) ⊎ (a ≡ codes "Bearer " ++ sk)
unfolding auth_ok trim_prefix
auth_ok_lem sk key a n h = ground (
  arith,
  n,
  h,
  text_eq_iff key sk,
  text_eq_iff (drop 7 a) sk,
  has_prefix-drop a (codes "Bearer "),
)

-- An entry of a list.
abbrev pub IsIn : ModelConfig → List ModelConfig → Type 0
IsIn x xs = (front : List ModelConfig) × (back : List ModelConfig) × (xs ≡ front ++ x ∷ back)

IsIn-tail : (x y : ModelConfig) (ys : List ModelConfig) → IsIn x ys → IsIn x (y ∷ ys)
IsIn-tail x y ys h = (y ∷ h.0, h.1, ap (◌∷◌ y) h.2)

find_key-IsIn :
    (k : Text) (ms : List ModelConfig) (x : ModelConfig)
    → find_key k ms ≡ some x
    → IsIn x ms × (x.key ≡ k)
unfolding find_key
find_key-IsIn k [] x h = absurd (ground (arith, h))
find_key-IsIn k (m ∷ ms) x h = elim (Bool-cases (text_eq m.key k)) [
  | inl e ↦
      let same : m ≡ x = ground (arith, h, e) in
      (([], ms, ap (λ y. y ∷ ms) same), ap (λ y. y.key) (sym same) ∙ (text_eq_iff m.key k).0 e)
  | inr e ↦ let r = find_key-IsIn k ms x (ground (arith, h, e)) in (IsIn-tail x m ms r.0, r.1)
]

find_name-IsIn :
    (n : Text) (ms : List ModelConfig) (x : ModelConfig)
    → find_name n ms ≡ some x
    → IsIn x ms × (name_of x ≡ n)
unfolding find_name
find_name-IsIn n [] x h = absurd (ground (arith, h))
find_name-IsIn n (m ∷ ms) x h = elim (Bool-cases (text_eq (name_of m) n)) [
  | inl e ↦
      let same : m ≡ x = ground (arith, h, e) in
      (([], ms, ap (λ y. y ∷ ms) same), ap name_of (sym same) ∙ (text_eq_iff (name_of m) n).0 e)
  | inr e ↦ let r = find_name-IsIn n ms x (ground (arith, h, e)) in (IsIn-tail x m ms r.0, r.1)
]

-- An entry of the catalogue whose key or name is the identifier, and which is enabled. The window that a
-- request asks for may replace its own.
pub record IsListed (r : ModelResolver) (id : Text) (mc : ModelConfig) : Type 0 where
  pub entry : ModelConfig
  pub named :
      (IsIn entry r.by_key × (entry.key ≡ id)) ⊎ (IsIn entry r.by_name × (name_of entry ≡ id))
  pub enabled : entry.enable ≡ true
  pub same : mc ≡ record entry { effective_context_window = mc.effective_context_window }

by_identifier :
    (r : ModelResolver) (id : Text) (x : ModelConfig)
    → model_by_identifier r id ≡ some x
    → (IsIn x r.by_key × (x.key ≡ id)) ⊎ (IsIn x r.by_name × (name_of x ≡ id))
unfolding model_by_identifier
by_identifier r id x h = elim (Option-cases (find_key id r.by_key)) [
  | inl g ↦ inr (find_name-IsIn id r.by_name x (ground (arith, g, h)))
  | inr (y, g) ↦ inl (find_key-IsIn id r.by_key x (ground (arith, g, h)))
]

locked-IsListed :
    (r : ModelResolver) (b : Bool) (id : Text) (mc : ModelConfig)
    → resolve_locked r b id ≡ some mc
    → IsListed r id mc
unfolding resolve_locked
locked-IsListed r b id mc h = elim (Option-cases (model_by_identifier r id)) [
  | inl g ↦ absurd (ground (arith, g, h))
  | inr (x, g) ↦ record {
    entry = x;
    named = by_identifier r id x g;
    enabled = ground (arith, g, h);
    same = ground (arith, g, h);
  }
]

-- The identifier in the model's name of a request: without the gateway's prefix and the mark of the long
-- window.
abbrev pub identifier : Text → Text
identifier client =
    let name = trim_prefix client (codes "qoder-anthropic/") in
    if has_suffix name (codes "[1m]") then trim_suffix name (codes "[1m]") else name

resolved-IsListed :
    (r : ModelResolver) (m : Text) (mc : ModelConfig)
    → resolve r true m ≡ some mc
    → IsListed r (identifier m) mc
unfolding resolve
resolved-IsListed r m mc h = locked-IsListed r _ _ mc h

-- What is known of a request that passes the checks.
abbrev Passes : ModelResolver → Decoded → Type 0
Passes r d =
    (q : MessagesRequest) × (mc : ModelConfig) × (d ≡ request q)
    × IsListed r (identifier q.model) mc

module _ (new_uuid : ℕ → Text) (j : Json) (marshal_ok : List UpMessage → Bool) where
  decoded-Passes :
      (r : ModelResolver) (w : World) (d : Decoded) (s : Sessions)
      → is_nil (forward w (check_decoded new_uuid j marshal_ok true r d s).0).1 ≡ false
      → Passes r d
  unfolding check_decoded forward
  decoded-Passes r w unreadable s h = absurd (ground (arith, h))
  decoded-Passes r w (request q) s h = elim (Option-cases (resolve r true q.model)) [
    | inl g ↦ absurd (ground (arith, g, h))
    | inr (mc, g) ↦ (q, mc, refl, resolved-IsListed r q.model mc g)
  ]

  -- When a request makes the locked-down server call its upstream, or refresh its token or wait for it, and
  -- the server has a key: the request carries that key in one of the two headers, it could be read, and an
  -- enabled entry of the catalogue has as its key or its name what the request's model names.
  pub handle_guarded :
      (r : ModelResolver) (w : World) (sk : Text) (c : Credentials) (d : Decoded) (s : Sessions)
      → is_nil sk ≡ false
      → is_nil (handle new_uuid j marshal_ok true r w sk c d s).0.1 ≡ false
      → ((c.api_key ≡ sk) ⊎ (c.authorization ≡ codes "Bearer " ++ sk))
        × ((q : MessagesRequest) × (mc : ModelConfig) × (d ≡ request q)
            × IsListed r (identifier q.model) mc)
  unfolding handle check forward
  handle_guarded r w sk c d s n h = elim (Bool-cases (auth_ok sk c.api_key c.authorization)) [
    | inl g ↦ (
      auth_ok_lem sk c.api_key c.authorization n g,
      decoded-Passes r w d s (ground (arith, g, h)),
    )
    | inr g ↦ absurd (ground (arith, g, h))
  ]
