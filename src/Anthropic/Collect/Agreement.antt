-- ===== src/Anthropic/Collect/Agreement.antt =====
-- The two ways of proxy.go to answer a Messages request agree: the events of a streamed reply carry
-- what the collected reply holds.
use qoder_model_gateway.Base.{◌≡◌, false, if◌then◌else◌, is_nil, codes}
use qoder_model_gateway.Anthropic.Event.{Event, thinking, text}
use qoder_model_gateway.Anthropic.Stream.{StreamState}
use qoder_model_gateway.Anthropic.Collect.{Collected}
use qoder_model_gateway.Anthropic.Stream.Deltas.{deltas}

-- A streamed reply that is not finished, and a collected one, that hold the same.
record Agrees (s : StreamState) (c : Collected) : Type 0 where
  running : s.stopped ≡ false
  same_text : deltas text s.written ≡ c.text
  same_thinking : deltas thinking s.written ≡ c.thinking
  same_account : s.account ≡ c.account
  same_reason : c.stop_reason ≡ (if is_nil s.stop_reason then codes "end_turn" else s.stop_reason)

-- What the tools of a chunk leave alone.
record SameRest (c d : Collected) : Type 0 where
  text_kept : d.text ≡ c.text
  thinking_kept : d.thinking ≡ c.thinking
  account_kept : d.account ≡ c.account
  reason_kept : d.stop_reason ≡ c.stop_reason
