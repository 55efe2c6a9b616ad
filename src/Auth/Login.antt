-- ===== src/Auth/Login.antt =====
-- auth.go: how the context of a user is made, and how a user logs in.
use qoder_model_gateway.Base.{
  ℕ, suc, Bool, false, not, ◌||◌, Option, none, some, ◌==◌, if◌then◌else◌, is_nil, Text, codes,
}
use qoder_model_gateway.Codec.Errors.{Error, plain, Result, ok, err}
use qoder_model_gateway.Auth.User.{
  UserInfo, Login, RuntimeFieldOutput, DeviceAnswer, ExchangeAnswer, exchanged_token, pat_candidate,
  Profile, runtime_field_input, context_config, device_candidate, apply_profile,
}
use qoder_model_gateway.Auth.Manager.{
  AuthManager, Answer, unanswered, answered, World, Step, unavailable, closed_error,
  read_only_error, tick, adopt, reject, put_user, new_login, count_object, send,
}
use qoder_model_gateway.Auth.Store.{decode_file, stage_credential, publish, save_locked}

-- `ui == a.ui`.
unfoldable pub is_current : Login → AuthManager → Bool
is_current l s = elim s.ui [ none ↦ false | some m ↦ l.object == m.object ]

-- The object as it is now, while it is the manager's.
unfoldable pub current_user : Login → AuthManager → Option Login
current_user l s = elim s.ui [
  | none ↦ none
  | some m ↦ if l.object == m.object then some m else none
]

abbrev pub has_fields : UserInfo → Bool
has_fields u = not (is_nil u.encrypt_user_info || is_nil u.key)

abbrev pub with_fields : RuntimeFieldOutput → Login → Login
with_fields f l = record l {
  info = record l.info { encrypt_user_info = f.encrypt_user_info; key = f.key };
}

-- The fields that `buildContextForUserLocked` makes where they are missing.
unfoldable pub accept_fields : RuntimeFieldOutput → Login → AuthManager → Result Login × AuthManager
accept_fields f l s =
    if is_nil f.encrypt_user_info || is_nil f.key
    then (err (unavailable (codes "generated runtime authentication fields are incomplete")), s)
    else (ok (with_fields f l), if is_current l s then put_user (with_fields f l) s else s)

unfoldable pub fill_fields : World → Login → AuthManager → Result Login × AuthManager
fill_fields w l s =
    if has_fields l.info
    then (ok l, s)
    else elim (w.generate s.calls (runtime_field_input l.info)) [
      | err e ↦ (err e, tick s)
      | ok f ↦ accept_fields f l (tick s)
    ]

unfoldable pub count_context : AuthManager → AuthManager
count_context s = record s { contexts = record s.contexts { made = suc s.contexts.made } }

-- `contextFactory.New`: the number of the context and its user.
unfoldable pub make_context : World → Login → AuthManager → Result (ℕ × Login) × AuthManager
make_context w l s = elim (w.new_context s.calls (context_config l.info)) [
  | some e ↦ (err e, tick s)
  | none ↦ (ok (s.contexts.made, l), count_context (tick s))
]

unfoldable pub build_context : World → Login → AuthManager → Result (ℕ × Login) × AuthManager
build_context w l s =
    if s.contexts.closed
    then (err closed_error, s)
    else (let r = fill_fields w l s in
        elim r.0 [ err e ↦ (err e, r.1) | ok m ↦ make_context w m r.1 ])

unfoldable pub rebuild_for : World → Login → AuthManager → Step
rebuild_for w l s =
    let r = build_context w l s in elim r.0 [ err e ↦ (some e, r.1) | ok c ↦ adopt c.0 r.1 ]

unfoldable pub rebuild_context : World → AuthManager → Step
rebuild_context w s = elim s.ui [
  | none ↦ (
    some (
        if s.contexts.closed
        then closed_error
        else unavailable (codes "user credentials are unavailable")),
    s,
  )
  | some l ↦ rebuild_for w l s
]

-- The user that was read, as a new object.
unfoldable pub take_user : UserInfo → AuthManager → AuthManager
take_user u s = record (count_object s) {
  ui = some (new_login u s);
  credential_dirty = false;
  retry_at = none;
}

unfoldable pub load_text : World → Text → AuthManager → Step
load_text w b s = elim (decode_file w s.calls b) [
  | err e ↦ (some e, tick s)
  | ok u ↦ rebuild_context w (take_user u (tick s))
]

unfoldable pub load : World → AuthManager → Step
load w s = if s.contexts.closed then (some closed_error, s) else elim s.outside.file [
  | none ↦ (some (plain (codes "no such file or directory")), s)
  | some b ↦ load_text w b s
]

-- A step after whose failure a context in hand is closed; what it published goes with that context.
unfoldable pub settle : ℕ → Step → Step
settle n r = elim r.0 [ some e ↦ (some e, reject n r.1) | none ↦ adopt n r.1 ]

unfoldable pub store_candidate : World → ℕ → Login → AuthManager → Step
store_candidate w n l s =
    if s.contexts.closed
    then (some closed_error, reject n s)
    else (let r = stage_credential w l.info s in
        elim r.0 [ err e ↦ (some e, reject n r.1) | ok t ↦ settle n (publish w t l r.1) ])

unfoldable pub commit_login_candidate : World → Login → AuthManager → Step
commit_login_candidate w l s =
    if s.read_only
    then (some read_only_error, s)
    else (let r = build_context w l s in
        elim r.0 [ err e ↦ (some e, r.1) | ok c ↦ store_candidate w c.0 c.1 r.1 ])

-- The part of a login that holds `mu`.
unfoldable pub log_in_as : World → UserInfo → AuthManager → Step
log_in_as w u s =
    if s.contexts.closed
    then (some closed_error, s)
    else commit_login_candidate w (new_login u s) (count_object s)

unfoldable pub log_in : World → DeviceAnswer → AuthManager → Step
log_in w d s = log_in_as w (device_candidate w.parse_time (w.now s.calls) d) s

-- `fetchUserInfo` up to the request: the token that it is sent with.
unfoldable pub begin_fetch : Login → AuthManager → Option Text
begin_fetch l s =
    if s.contexts.closed
    then none
    else elim (current_user l s) [ none ↦ none | some m ↦ some m.info.security_oauth_token ]

unfoldable pub request_user_info : World → AuthManager → Result Profile × AuthManager
request_user_info w s =
    let r = send w s in
    elim r.0 [
      | unanswered e ↦ (err e, r.1)
      | answered status body ↦
          if status == 200
          then (w.profile body, r.1)
          else (err (plain (codes "userinfo status")), r.1)
    ]

-- The object as it is now, with the profile.
unfoldable pub enrich : Profile → Login → Login
enrich p l = record l { info = apply_profile p l.info }

unfoldable pub apply_to_user : World → Profile → Login → AuthManager → AuthManager
apply_to_user w p l s = (save_locked w (rebuild_context w (put_user (enrich p l) s)).1).1

-- The rest of `fetchUserInfo`.
unfoldable pub end_fetch : World → Login → Profile → AuthManager → AuthManager
end_fetch w l p s =
    if s.contexts.closed
    then s
    else elim (current_user l s) [ none ↦ s | some m ↦ apply_to_user w p m s ]

-- `fetchUserInfo` while no other operation runs in between.
unfoldable pub fetch_user_info : World → Login → AuthManager → AuthManager
fetch_user_info w l s = elim (begin_fetch l s) [
  | none ↦ s
  | some t ↦ let r = request_user_info w s in elim r.0 [ err e ↦ r.1 | ok p ↦ end_fetch w l p r.1 ]
]

-- main.go: `patLogin`, from the profile that is asked for with the new token.
abbrev pub no_user_info : Error
no_user_info = plain (codes "could not fetch user info after exchange")

unfoldable pub log_in_with_profile : World → UserInfo → Result Profile × AuthManager → Step
log_in_with_profile w u (err e, s) = (some no_user_info, s)
log_in_with_profile w u (ok p, s) =
    if is_nil (apply_profile p u).uid
    then (some no_user_info, s)
    else log_in_as w (apply_profile p u) s

unfoldable pub take_exchange : World → Text → ExchangeAnswer → AuthManager → Step
take_exchange w pat r s =
    if is_nil (exchanged_token r)
    then (some (plain (codes "exchange response missing token")), s)
    else log_in_with_profile w (pat_candidate w.parse_time (w.now s.calls) pat r)
        (request_user_info w s)

unfoldable pub read_exchange : World → Text → Text → AuthManager → Step
read_exchange w pat body s = elim (w.exchange_answer body) [
  | err e ↦ (some e, s)
  | ok r ↦ take_exchange w pat r s
]

unfoldable pub answer_exchange : World → Text → Answer × AuthManager → Step
answer_exchange w pat (unanswered e, s) = (some e, s)
answer_exchange w pat (answered status body, s) =
    if status == 200
    then read_exchange w pat body s
    else (some (plain (codes "jobToken/exchange status")), s)

unfoldable pub pat_login : World → Text → AuthManager → Step
pat_login w pat s =
    if s.contexts.closed then (some closed_error, s) else answer_exchange w pat (send w s)
