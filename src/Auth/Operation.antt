-- ===== src/Auth/Operation.antt =====
-- auth.go: the operations of the manager that others call, and runs of them.
use qoder_model_gateway.Base.{
  ℕ, Bool, true, false, not, ◌&&◌, Option, none, some, List, [], ◌∷◌, ◌==◌, if◌then◌else◌, is_nil,
  Text, codes,
}
use qoder_model_gateway.Codec.Errors.{
  Kind, auth_unavailable, context_closed, Error, protocol, plain, wrapped, canceled, Result, ok,
  err, protocol_error_kind_of, protocol_internal_error, merge_protocol_errors,
}
use qoder_model_gateway.Auth.User.{Login, DeviceAnswer, Profile}
use qoder_model_gateway.Auth.Manager.{
  Contexts, AuthManager, World, Step, unavailable, closed_error, read_only_error, tick, release_old,
  send,
}
use qoder_model_gateway.Auth.Store.{save_locked, persist_dirty_credential}
use qoder_model_gateway.Auth.Login.{load, log_in, fetch_user_info, end_fetch, pat_login}
use qoder_model_gateway.Auth.Refresh.{ensure_fresh, force_refresh}

unfoldable pub logged_in : AuthManager → Bool
logged_in s =
    not s.contexts.closed
    && elim s.ui [ none ↦ false | some l ↦ not (is_nil l.info.security_oauth_token) ]

-- `prepareWithCurrentContext`: the context that is asked.
unfoldable pub prepare_with_current_context : AuthManager → Result ℕ
prepare_with_current_context s =
    if s.contexts.closed then err closed_error else elim s.contexts.proto_ctx [
      | none ↦ err (unavailable (codes "protocol context is unavailable"))
      | some n ↦ ok n
    ]

abbrev pub is_context_closed : Kind → Bool
is_context_closed context_closed = true
is_context_closed _ = false

unfoldable pub refresh_failed : Error → Error
refresh_failed e =
    if is_context_closed (protocol_error_kind_of e)
    then e
    else protocol auth_unavailable (codes "Authentication is unavailable")
        (wrapped (codes "refresh authentication") (protocol_internal_error e))

-- `PrepareInferRequest` up to its call of `prepareWithCurrentContext`, before which others can run: that
-- is asked of the manager that there is then.
unfoldable pub begin_prepare : World → AuthManager → Step
begin_prepare w s =
    if s.contexts.closed
    then (some closed_error, s)
    else let r = ensure_fresh w s in
      (elim r.0 [ some e ↦ some (refresh_failed e) | none ↦ none ], r.1)

-- The part of `Close` under its locks, and the end of the context that it took.
unfoldable pub close_contexts : Contexts → Contexts
close_contexts c = release_old c.proto_ctx (record c { closed = true; proto_ctx = none })

abbrev pub close_current : World → ℕ → Option ℕ → Option Error
close_current w k none = none
close_current w k (some n) = w.close_context k

unfoldable pub close_with : World → Step → Step
close_with w r =
    let s = r.1 in
    let e = merge_protocol_errors r.0 (close_current w s.calls s.contexts.proto_ctx) in
    (e, record (tick s) { contexts = close_contexts s.contexts; close_err = e })

-- `Close`, whose work is done once.
unfoldable pub close : World → AuthManager → Step
close w s =
    if s.contexts.closed then (s.close_err, s) else close_with w (persist_dirty_credential w s)

-- A poll of the device login: no answer, in which case the context may be done while it waits, or an
-- answer.
pub data Poll : Type 0 where
  no_answer : Bool → Poll
  poll_answer : ℕ → Text → Bool → Poll

abbrev pub timed_out : Error
timed_out = plain (codes "device flow timed out after 5 minutes")

unfoldable pub poll_body : World → Text → Result DeviceAnswer
poll_body w body = elim (w.device_answer body) [
  | err e ↦ err e
  | ok d ↦ if is_nil d.token then err (plain (codes "poll response missing token")) else ok d
]

-- The loop of `deviceLogin`, over the polls that its five minutes leave time for.
unfoldable pub poll_login : World → List Poll → Result DeviceAnswer
poll_login w [] = err timed_out
poll_login w (no_answer done ∷ ps) =
    let rest = poll_login w ps in if done then err canceled else rest
poll_login w (poll_answer status body done ∷ ps) =
    let rest = poll_login w ps in
    if status == 404
    then (if done then err canceled else rest)
    else if status == 200
    then poll_body w body
    else err (plain (codes "poll status"))

unfoldable pub finish_login : World → Step → Step
finish_login w r = elim r.0 [
  | some e ↦ (some e, r.1)
  | none ↦ elim r.1.ui [ none ↦ (none, r.1) | some l ↦ (none, fetch_user_info w l r.1) ]
]

-- `deviceLogin`, given the answers to its polls. The profile is asked for when the login is committed.
unfoldable pub device_login : World → List Poll → AuthManager → Step
device_login w ps s =
    if s.read_only
    then (some read_only_error, s)
    else if s.contexts.closed
    then (some closed_error, s)
    else elim (poll_login w ps) [ err e ↦ (some e, s) | ok d ↦ finish_login w (log_in w d s) ]

-- Every operation, in the pieces between which others can run: `log_in` and `end_fetch` are what
-- `deviceLogin` does under the lock, `ask` is a request that is sent without it, and `prepare` is what
-- `PrepareInferRequest` does before it reads the context, which changes nothing. That a context is not
-- replaced while it is in use, for which `ctxMu` is, is not modelled.
pub data Operation : Type 0 where
  load_op save_op ensure_fresh_op force_refresh_op prepare_op close_op ask_op : Operation
  log_in_op : DeviceAnswer → Operation
  end_fetch_op : Login → Profile → Operation
  device_login_op : List Poll → Operation
  pat_login_op : Text → Operation

unfoldable pub step : World → Operation → AuthManager → AuthManager
step w load_op s = (load w s).1
step w save_op s = (save_locked w s).1
step w ensure_fresh_op s = (ensure_fresh w s).1
step w force_refresh_op s = (force_refresh w s).1
step w prepare_op s = (begin_prepare w s).1
step w close_op s = (close w s).1
step w ask_op s = (send w s).1
step w (log_in_op d) s = (log_in w d s).1
step w (end_fetch_op l p) s = end_fetch w l p s
step w (device_login_op ps) s = (device_login w ps s).1
step w (pat_login_op pat) s = (pat_login w pat s).1

unfoldable pub run : World → List Operation → AuthManager → AuthManager
run w [] s = s
run w (o ∷ os) s = run w os (step w o s)
