-- ===== src/Server/Access.antt =====
-- proxy.go: who may use the server, and what `handleMessages` checks before it calls upstream.
use qoder_model_gateway.Base.{
  ℕ, Bool, false, ◌&&◌, ◌||◌, Option, none, some, List, [], ◌==◌, if◌then◌else◌, ◌>>=◌, is_nil,
  Text, codes, text_eq, has_prefix, trim_prefix,
}
use qoder_model_gateway.Base.Int.{ℤ, pos, ltb_ℤ}
use qoder_model_gateway.Model.Config.{ModelConfig}
use qoder_model_gateway.Model.Resolver.{ModelResolver, resolve}
use qoder_model_gateway.Request.Message.{UpMessage}
use qoder_model_gateway.Request.Messages.{Json, AnthropicMsg, build_messages}
use qoder_model_gateway.Retry.{
  World, Response, Result, reply, failed, cancelled, unreachable, Action, call_upstream,
}
use qoder_model_gateway.Server.Session.{Sessions, session_for}

abbrev bearer : Text
bearer = codes "Bearer "

-- `authOK`, given the two headers, which are empty when they are missing.
unfoldable pub auth_ok : Text → Text → Text → Bool
auth_ok sk api_key authorization =
    is_nil sk
    || (text_eq api_key sk
        || (has_prefix authorization bearer && text_eq (trim_prefix authorization bearer) sk))

-- The body of an answer of `writeAnthropicError`.
pub record ErrorReply : Type 0 where
  pub status : ℕ
  pub kind : Text

-- The fields of a request that the checks read; `none` is a body that cannot be read or is no JSON.
pub record MessagesRequest : Type 0 where
  pub model : Text
  pub max_tokens : ℤ
  pub stream : Bool
  pub messages : List AnthropicMsg

-- What goes on to the upstream: the entry of the catalogue, the session, the limit of tokens, and
-- the messages.
pub record Accepted : Type 0 where
  pub config : ModelConfig
  pub session : Text
  pub max_tokens : ℤ
  pub messages : List UpMessage

pub data Checked : Type 0 where
  refused : ErrorReply → Checked
  accepted : Accepted → Checked

abbrev is_zero : ℤ → Bool
is_zero (pos n) = n == 0
is_zero _ = false

abbrev error_reply : ℕ → Text → Checked
error_reply status kind = refused (record { status = status; kind = kind })

-- What the body of a request decodes to.
pub data Decoded : Type 0 where
  unreadable : Decoded
  request : MessagesRequest → Decoded

-- The handlers of the three protocols choose the limit of tokens by their own fields.
unfoldable pub or_default_tokens : ℤ → ℤ
or_default_tokens n = if is_zero n then pos 32000 else n

unfoldable pub chat_limit : ℤ → ℤ → ℤ
chat_limit max_tokens max_completion_tokens =
    or_default_tokens
      (if ltb_ℤ (pos 0) max_completion_tokens then max_completion_tokens else max_tokens)

module _ (new_uuid : ℕ → Text) (j : Json) (marshal_ok : List UpMessage → Bool) (locked : Bool)
    (r : ModelResolver) where
  -- `buildUpstreamBody`, of whose body only the messages are read here; `json.Marshal` of it can fail.
  unfoldable pub build_upstream_body : MessagesRequest → Option (List UpMessage)
  build_upstream_body q =
      build_messages j q.messages >>= λ ms. if marshal_ok ms then some ms else none

  unfoldable pub accept_request : MessagesRequest → ModelConfig → Sessions → Checked × Sessions
  accept_request q mc s =
      let x = session_for new_uuid q.model s in
      elim (build_upstream_body q) [
        | none ↦ (error_reply 400 (codes "invalid_request_error"), x.1)
        | some ms ↦ (
          accepted (record {
            config = mc;
            session = x.0;
            max_tokens = or_default_tokens q.max_tokens;
            messages = ms;
          }),
          x.1,
        )
      ]

  unfoldable pub check_decoded : Decoded → Sessions → Checked × Sessions
  check_decoded unreadable s = (error_reply 400 (codes "invalid_request_error"), s)
  check_decoded (request q) s =
      if is_nil q.model
      then (error_reply 400 (codes "invalid_request_error"), s)
      else elim (resolve r locked q.model) [
        | none ↦ (error_reply 404 (codes "not_found_error"), s)
        | some mc ↦ accept_request q mc s
      ]

  -- The guards of a handler, in their order.
  unfoldable pub check : Bool → Decoded → Sessions → Checked × Sessions
  check authorized d s =
      if authorized then check_decoded d s else (error_reply 401 (codes "authentication_error"), s)

-- What comes of a request: a reply to stream or to collect, or an error.
pub data Handled : Type 0 where
  replied : Accepted → Response → Handled
  rejected : ErrorReply → Handled

abbrev upstream_failed : Handled
upstream_failed = rejected (record { status = 502; kind = codes "api_error" })

unfoldable pub finish_request : Accepted → Result → Handled
finish_request a (reply r) =
    if r.status == 200
    then replied a r
    else rejected (record { status = r.status; kind = codes "api_error" })
finish_request a (failed e) = upstream_failed
finish_request a cancelled = upstream_failed
finish_request a unreachable = upstream_failed

-- The request after its checks, with what was done upstream.
unfoldable pub forward : World → Checked → Handled × List Action
forward w (refused e) = (rejected e, [])
forward w (accepted a) = let c = call_upstream w in (finish_request a c.0, c.1)

-- The headers that `authOK` reads.
pub record Credentials : Type 0 where
  pub api_key : Text
  pub authorization : Text

-- `handleMessages`; the two other handlers differ in how they decode a request and print an answer.
unfoldable pub handle :
    (ℕ → Text)
    → Json
    → (List UpMessage → Bool)
    → Bool
    → ModelResolver
    → World
    → Text
    → Credentials
    → Decoded
    → Sessions
    → (Handled × List Action) × Sessions
handle new_uuid j marshal_ok locked r w sk c d s =
    let x = check new_uuid j marshal_ok locked r (auth_ok sk c.api_key c.authorization) d s in
    (forward w x.0, x.1)
