-- ===== src/Anthropic/Event.antt =====
-- proxy.go: the server-sent events of the Anthropic Messages protocol, one constructor for each
-- payload that the stream writes, and the order in which a client may receive them.
use qoder_model_gateway.Base.{
  ℕ, suc, Bool, true, false, ◌&&◌, List, [], ◌∷◌, ◌++◌, Option, none, some, ◌==◌, if◌then◌else◌,
  ◌>>=◌, Option-cases, inl, inr, Text, ◌≡◌, refl,
}
use qoder_model_gateway.Upstream.{Account}

pub data Kind : Type 0 where
  thinking text tool_use : Kind

abbrev pub same_kind : Kind → Kind → Bool
same_kind thinking thinking = true
same_kind text text = true
same_kind tool_use tool_use = true
same_kind _ _ = false

-- The `content_block` of a block's start.
pub data Payload : Type 0 where
  empty_thinking empty_text : Payload
  empty_tool : Text → Text → Payload

abbrev pub payload_kind : Payload → Kind
payload_kind empty_thinking = thinking
payload_kind empty_text = text
payload_kind (empty_tool id name) = tool_use

pub data Event : Type 0 where
  message_start : Text → Text → Event
  block_start : ℕ → Payload → Event
  block_delta : ℕ → Kind → Text → Event
  block_stop : ℕ → Event
  message_delta : Text → Account → Event
  message_stop : Event
  error : Text → Event

-- A client that checks the order: what it has seen so far.
pub data Phase : Type 0 where
  before : Phase
  between : ℕ → Phase
  inside : ℕ → Kind → Phase
  summed finished failed : Phase

-- Blocks are numbered from 0 and do not overlap, a delta belongs to the open block, the summary
-- comes when no block is open, and an error may end the stream at any time before its end.
unfoldable pub observe : Phase → Event → Option Phase
observe before (message_start id model) = some (between 0)
observe (between n) (block_start i p) = if i == n then some (inside n (payload_kind p)) else none
observe (inside n k) (block_delta i d t) =
    if (i == n) && same_kind d k then some (inside n k) else none
observe (inside n k) (block_stop i) = if i == n then some (between (suc n)) else none
observe (between n) (message_delta r a) = some summed
observe summed message_stop = some finished
observe before (error m) = some failed
observe (between n) (error m) = some failed
observe (inside n k) (error m) = some failed
observe _ _ = none

unfoldable pub observe_all : Phase → List Event → Option Phase
observe_all p [] = some p
observe_all p (e ∷ es) = observe p e >>= λ q. observe_all q es

pub observe_all-snoc :
    (p : Phase) (es : List Event) (e : Event)
    → observe_all p (es ++ e ∷ []) ≡ (observe_all p es >>= λ q. observe q e)
unfolding observe_all
observe_all-snoc p [] e = elim (Option-cases (observe p e)) [
  | inl h ↦ rw h refl
  | inr (q, h) ↦ rw h refl
]
observe_all-snoc p (x ∷ es) e = elim (Option-cases (observe p x)) [
  | inl h ↦ rw (h, observe_all) refl
  | inr (q, h) ↦ rw (h, observe_all) (observe_all-snoc q es e)
]
