-- ===== src/Request/Messages/Order.antt =====
-- The order of the messages that `messagesToUpstream` of convert.go sends upstream.
use qoder_model_gateway.Base.{
  ◌≡◌, refl, inl, inr, Bool, true, false, not, ◌&&◌, ◌||◌, none, some, List, [], ◌∷◌, ◌++◌, map,
  append_assoc, arith, Bool-cases, Option-cases, is_nil, text_eq,
}
use mathlib.Core.Path.{subst}
use qoder_model_gateway.Request.Message.{UpMessage, user, assistant, tool}
use qoder_model_gateway.Request.Messages.{
  Json, Block, AnthropicMsg, is_tool_result, select, assistant_message, blocks_from_raw,
  tool_message, normal_messages, user_messages, message_to_upstream, messages_to_upstream,
}

-- Each message of a tool directly follows the assistant's message or another message of a tool; the
-- flag says whether one may come now.
unfoldable pub follows : Bool → List UpMessage → Bool
follows p [] = true
follows p (m ∷ ms) = elim (text_eq m.role tool) [
  | true ↦ p && follows true ms
  | false ↦ follows (text_eq m.role assistant) ms
]

module _ (j : Json) where
  -- Whether a message carries results of tools.
  unfoldable pub has_results : AnthropicMsg → Bool
  has_results m = elim (blocks_from_raw j m.content) [
    | none ↦ false
    | some bs ↦ not (is_nil (select is_tool_result bs))
  ]

  -- A user's message with results of tools directly follows a message of the assistant.
  unfoldable pub results_follow : Bool → List AnthropicMsg → Bool
  results_follow p [] = true
  results_follow p (m ∷ ms) = elim (text_eq m.role user) [
    | true ↦ (not (has_results m) || p) && results_follow false ms
    | false ↦ results_follow true ms
  ]

follows_weaken : (p : Bool) (ms : List UpMessage) → follows false ms ≡ true → follows p ms ≡ true
unfolding follows
follows_weaken p [] h = refl
follows_weaken p (m ∷ ms) h = elim (Bool-cases (text_eq m.role tool)) [
  | inl e ↦ absurd (ground (arith, h, e))
  | inr e ↦ ground (arith, h, e)
]

roles_differ :
    (text_eq user tool ≡ false)
    × (text_eq user assistant ≡ false)
    × (text_eq assistant tool ≡ false)
    × (text_eq tool tool ≡ true)
    × (text_eq assistant assistant ≡ true)
unfolding text_eq
roles_differ = (refl, refl, refl, refl, refl)

follows_assistant :
    (p : Bool) (bs : List Block) (ms : List UpMessage)
    → follows true ms ≡ true
    → follows p (assistant_message bs ∷ ms) ≡ true
unfolding follows assistant_message text_eq
follows_assistant p bs ms h = h

module _ (j : Json) where
  follows_tools :
      (bs : List Block) (ms : List UpMessage)
      → follows true ms ≡ true
      → follows true (map (tool_message j) bs ++ ms) ≡ true
  unfolding follows tool_message text_eq
  follows_tools [] ms h = h
  follows_tools (b ∷ bs) ms h = follows_tools bs ms h

  follows_normal :
      (p no_results : Bool) (ns : List Block) (ms : List UpMessage)
      → follows false ms ≡ true
      → follows p (normal_messages j no_results ns ++ ms) ≡ true
  unfolding normal_messages follows text_eq
  follows_normal p true [] ms h = h
  follows_normal p false [] ms h = follows_weaken p ms h
  follows_normal p _ (n ∷ ns) ms h = h

  follows_user :
      (p : Bool) (rs ns : List Block) (ms : List UpMessage)
      → (is_nil rs || p) ≡ true
      → follows false ms ≡ true
      → follows p ((map (tool_message j) rs ++ normal_messages j (is_nil rs) ns) ++ ms) ≡ true
  follows_user p [] ns ms k h = follows_normal p true ns ms h
  follows_user true (r ∷ rs) ns ms k h =
      rw (append_assoc (map (tool_message j) (r ∷ rs)) (normal_messages j false ns) ms) (
        follows_tools (r ∷ rs) (normal_messages j false ns ++ ms)
          (follows_normal true false ns ms h))
  follows_user false (r ∷ rs) ns ms k h = absurd (ground (arith, k))

  follows_message :
      (p : Bool) (m : AnthropicMsg) (bs : List Block) (ms : List UpMessage)
      → blocks_from_raw j m.content ≡ some bs
      → text_eq m.role user ≡ true
      → (not (has_results j m) || p) ≡ true
      → follows false ms ≡ true
      → follows p (user_messages j bs ++ ms) ≡ true
  unfolding user_messages has_results
  follows_message p m bs ms e u k h =
      follows_user p (select is_tool_result bs) _ ms (ground (arith, e, k)) h

  -- In a conversation that can be read and whose results of tools directly follow messages of the
  -- assistant, every message of a tool that goes upstream directly follows the message of the assistant
  -- or another message of a tool, also when the user's text came before the results.
  pub messages_to_upstream_order :
      (p : Bool) (ms : List AnthropicMsg) (us : List UpMessage)
      → results_follow j p ms ≡ true
      → messages_to_upstream j ms ≡ some us
      → follows p us ≡ true
  unfolding messages_to_upstream message_to_upstream results_follow
  messages_to_upstream_order p [] us k h =
      let e : [] ≡ us = cc h in subst (λ x. follows p x ≡ true) e (unfold follows in refl)
  messages_to_upstream_order p (m ∷ ms) us k h = elim (Option-cases (blocks_from_raw j m.content)) [
    | inl e ↦ absurd (ground (arith, h, e))
    | inr (bs, e) ↦ elim (Option-cases (messages_to_upstream j ms)) [
      | inl f ↦ absurd (ground (arith, h, e, f))
      | inr (rest, f) ↦ elim (Bool-cases (text_eq m.role user)) [
        | inl u ↦
            let e2 : user_messages j bs ++ rest ≡ us = ground (arith, h, e, f, u) in
            subst (λ x. follows p x ≡ true) e2
              (follows_message p m bs rest e u (ground (arith, k, u))
                (messages_to_upstream_order false ms rest (ground (arith, k, u)) f))
        | inr u ↦
            let e2 : assistant_message bs ∷ rest ≡ us = ground (arith, h, e, f, u) in
            subst (λ x. follows p x ≡ true) e2
              (follows_assistant p bs rest
                (messages_to_upstream_order true ms rest (ground (arith, k, u)) f))
      ]
    ]
  ]
