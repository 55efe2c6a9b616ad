-- ===== src/Auth/Manager.antt =====
-- auth.go: the state of `authManager` and its surroundings. Each operation that holds `mu` is one step
-- of the model, since no other operation runs between; `ctxMu` adds nothing to that. The files, the
-- network and the clock answer differently at each call: their answers are functions of the number of
-- calls made so far, which the state counts.
use qoder_model_gateway.Base.{
  ℕ, suc, Bool, true, false, Option, none, some, List, [], ◌∷◌, ◌++◌, if◌then◌else◌, Text, codes,
}
use qoder_model_gateway.Base.Int.{ℤ}
use qoder_model_gateway.Codec.Errors.{
  auth_unavailable, context_closed, Error, protocol, plain, Result,
}
use qoder_model_gateway.Auth.User.{
  UserInfo, Login, RuntimeFieldInput, RuntimeFieldOutput, RefreshAnswer, DeviceAnswer,
  ExchangeAnswer, Profile, ProtocolUserInfo,
}

-- The fields under `ctxMu`, the number of contexts made, and those that were closed, in order. A
-- context is its number.
pub record Contexts : Type 0 where
  pub closed : Bool
  pub proto_ctx : Option ℕ
  pub made : ℕ
  pub released : List ℕ

-- The credential file, and how often it was written; the number of requests sent.
pub record Outside : Type 0 where
  pub file : Option Text
  pub writes : ℕ
  pub requests : ℕ

-- `retry_at` is `none` for the zero time, `close_err` is what `Close` returned, and `objects` is the
-- number of logins made.
pub record AuthManager : Type 0 where
  pub read_only : Bool
  pub contexts : Contexts
  pub ui : Option Login
  pub credential_dirty : Bool
  pub retry_at : Option ℤ
  pub close_err : Option Error
  pub outside : Outside
  pub objects : ℕ
  pub calls : ℕ

-- What a request is answered by: no answer at all, or a status with a body.
pub data Answer : Type 0 where
  unanswered : Error → Answer
  answered : ℕ → Text → Answer

-- The surroundings. Where an answer depends on more than the argument, it depends on the number of the
-- call: the cipher of the credentials, the steps that write a temporary file, its renaming, the
-- generator of the runtime fields, the context factory, the close of a context, the network, and the
-- clock in seconds and in nanoseconds. The rest is `encoding/json` and `time.Parse`.
pub record World : Type 0 where
  pub decrypt : ℕ → Text → Result Text
  pub encrypt : ℕ → Text → Result Text
  pub unmarshal : Text → Result UserInfo
  pub marshal : UserInfo → Result Text
  pub write_temp : ℕ → Option Error
  pub rename : ℕ → Option Error
  pub generate : ℕ → RuntimeFieldInput → Result RuntimeFieldOutput
  pub new_context : ℕ → ProtocolUserInfo → Option Error
  pub close_context : ℕ → Option Error
  pub request : ℕ → Answer
  pub refresh_answer : Text → Result RefreshAnswer
  pub device_answer : Text → Result DeviceAnswer
  pub exchange_answer : Text → Result ExchangeAnswer
  pub profile : Text → Result Profile
  pub parse_time : Text → Option ℤ
  pub now : ℕ → ℤ
  pub clock : ℕ → ℤ

abbrev pub Step : Type 0
Step = Option Error × AuthManager

abbrev pub no_outside : Option Text → Outside
no_outside file = record { file = file; writes = 0; requests = 0 }

-- `newAuthManagerWithMode`, for services and a machine identifier that are there.
abbrev pub new_auth_manager : Bool → Option Text → AuthManager
new_auth_manager read_only file = record {
  read_only = read_only;
  contexts = record { closed = false; proto_ctx = none; made = 0; released = [] };
  ui = none;
  credential_dirty = false;
  retry_at = none;
  close_err = none;
  outside = no_outside file;
  objects = 0;
  calls = 0;
}

abbrev pub unavailable : Text → Error
unavailable m = protocol auth_unavailable (codes "Authentication is unavailable") (plain m)

abbrev pub closed_error : Error
closed_error =
    protocol context_closed (codes "Qoder protocol context is closed")
      (plain (codes "auth manager is closed"))

abbrev pub read_only_error : Error
read_only_error = plain (
    codes
      "authentication is read-only; use the official Qoder CLI to log in or refresh credentials")

abbrev pub tick : AuthManager → AuthManager
tick s = record s { calls = suc s.calls }

-- `Close` of a context, whose error is only logged.
unfoldable pub release : ℕ → Contexts → Contexts
release n c = record c { released = c.released ++ n ∷ [] }

unfoldable pub release_old : Option ℕ → Contexts → Contexts
release_old none c = c
release_old (some n) c = release n c

-- `replaceContext`.
unfoldable pub replace_context : ℕ → Contexts → Option Error × Contexts
replace_context next c =
    if c.closed
    then (some closed_error, release next c)
    else (none, release_old c.proto_ctx (record c { proto_ctx = some next }))

-- `replaceContext` for the manager.
unfoldable pub adopt : ℕ → AuthManager → Step
adopt n s = let r = replace_context n s.contexts in (r.0, record s { contexts = r.1 })

-- `closeRejectedLoginContext`.
unfoldable pub reject : ℕ → AuthManager → AuthManager
reject n s = record s { contexts = release n s.contexts }

unfoldable pub mark_credential_dirty : AuthManager → AuthManager
mark_credential_dirty s =
    if s.read_only then s else record s { credential_dirty = true; retry_at = none }

unfoldable pub clear_credential_dirty : AuthManager → AuthManager
clear_credential_dirty s = record s { credential_dirty = false; retry_at = none }

-- The user is changed, or changed in place, and marked.
unfoldable pub put_user : Login → AuthManager → AuthManager
put_user l s = mark_credential_dirty (record s { ui = some l })

-- A new object for a login.
abbrev pub new_login : UserInfo → AuthManager → Login
new_login u s = record { object = s.objects; info = u }

abbrev pub count_object : AuthManager → AuthManager
count_object s = record s { objects = suc s.objects }

-- The client of a manager that is read-only has `readOnlyAuthTransport`.
unfoldable pub send : World → AuthManager → Answer × AuthManager
send w s = if s.read_only then (unanswered read_only_error, s) else (
  w.request s.calls,
  record (tick s) { outside = record s.outside { requests = suc s.outside.requests } },
)
