-- ===== src/Auth/Refresh.antt =====
-- auth.go: how a device token is refreshed.
use qoder_model_gateway.Base.{
  ℕ, Bool, true, false, not, ◌&&◌, ◌||◌, none, some, ◌==◌, if◌then◌else◌, is_nil, Text, codes,
  text_eq,
}
use qoder_model_gateway.Base.Int.{ℤ, pos, sub64, ltb_ℤ, leb_ℤ}
use qoder_model_gateway.Codec.Errors.{Error, plain, Result, ok, err, merge_protocol_errors}
use qoder_model_gateway.Auth.User.{
  UserInfo, Login, RuntimeFieldOutput, RefreshAnswer, runtime_field_input, refreshed, token_of,
  parse_expiry, is_zero,
}
use qoder_model_gateway.Auth.Manager.{
  AuthManager, unanswered, answered, World, Step, closed_error, read_only_error, tick, adopt,
  put_user, new_login, count_object, send,
}
use qoder_model_gateway.Auth.Store.{persist_dirty_credential, persist_dirty_credential_best_effort}
use qoder_model_gateway.Auth.Login.{has_fields, with_fields, build_context, load}

abbrev pub is_new : Text → Text → Bool
is_new old new = not (is_nil new) && not (text_eq old new)

abbrev pub eq_ℤ : ℤ → ℤ → Bool
eq_ℤ a b = leb_ℤ a b && leb_ℤ b a

abbrev pub is_new_time : ℤ → ℤ → Bool
is_new_time old new = not (is_zero new) && not (eq_ℤ old new)

unfoldable pub rotate : Text → ℤ → UserInfo → UserInfo
rotate t e u = record u {
  refresh_token = if is_new u.refresh_token t then t else u.refresh_token;
  refresh_token_expire_time =
      if is_new_time u.refresh_token_expire_time e then e else u.refresh_token_expire_time;
}

unfoldable pub preserve_for : World → Text → ℤ → Login → AuthManager → Step
preserve_for w t e l s =
    if is_new l.info.refresh_token t || is_new_time l.info.refresh_token_expire_time e
    then persist_dirty_credential w (put_user (record l { info = rotate t e l.info }) s)
    else (none, s)

unfoldable pub preserve_refresh_rotation_and_save : World → Text → ℤ → AuthManager → Step
preserve_refresh_rotation_and_save w t e s =
    if s.read_only
    then (some read_only_error, s)
    else elim s.ui [ none ↦ (none, s) | some l ↦ preserve_for w t e l s ]

-- A failure after the server has answered.
unfoldable pub give_up : World → Text → ℤ → Error → AuthManager → Step
give_up w t e error s =
    let r = preserve_refresh_rotation_and_save w t e s in
    (merge_protocol_errors (some error) r.0, r.1)

-- The fields are taken when they are complete.
abbrev pub take_fields : Result RuntimeFieldOutput → Login → Login
take_fields (err e) l = l
take_fields (ok f) l = let m = with_fields f l in if has_fields m.info then m else l

unfoldable pub finish_refresh : World → Login → AuthManager → Step
finish_refresh w l s = (none, persist_dirty_credential_best_effort w true (put_user l s))

unfoldable pub commit_refresh : World → Text → ℤ → ℕ → Login → AuthManager → Step
commit_refresh w t e n l s =
    let r = adopt n s in
    elim r.0 [ some error ↦ give_up w t e error r.1 | none ↦ finish_refresh w l r.1 ]

unfoldable pub refresh_candidate : World → Text → ℤ → Login → AuthManager → Step
refresh_candidate w t e l s =
    let r = build_context w l s in
    elim r.0 [ err error ↦ give_up w t e error r.1 | ok c ↦ commit_refresh w t e c.0 c.1 r.1 ]

-- What follows the server's answer; `now` is read once.
unfoldable pub take_refresh : World → RefreshAnswer → Login → AuthManager → Step
take_refresh w r l s =
    let now = w.now s.calls in
    let u = new_login (refreshed w.parse_time now r l.info) s in
    refresh_candidate w r.refresh_token
      (parse_expiry w.parse_time now r.refresh_exp_at r.refresh_exp_in)
      (take_fields (w.generate s.calls (runtime_field_input u.info)) u) (tick (count_object s))

unfoldable pub read_refresh : World → Text → Login → AuthManager → Step
read_refresh w body l s = elim (w.refresh_answer body) [
  | err e ↦ (some e, s)
  | ok r ↦
      if is_nil (token_of r)
      then (some (plain (codes "refresh response missing token")), s)
      else take_refresh w r l s
]

unfoldable pub send_refresh : World → Login → AuthManager → Step
send_refresh w l s =
    if is_nil l.info.refresh_token
    then (some (plain (codes "no refresh_token")), s)
    else (let r = send w s in
        elim r.0 [
          | unanswered e ↦ (some e, r.1)
          | answered status body ↦
              if status == 200
              then read_refresh w body l r.1
              else (some (plain (codes "deviceToken/refresh status")), r.1)
        ])

abbrev pub not_authenticated : Error
not_authenticated = plain (codes "not authenticated")

unfoldable pub refresh_locked : World → AuthManager → Step
refresh_locked w s =
    if s.read_only
    then (some read_only_error, s)
    else if s.contexts.closed
    then (some closed_error, s)
    else elim s.ui [ none ↦ (some not_authenticated, s) | some l ↦ send_refresh w l s ]

abbrev pub refresh_skew_sec : ℤ
refresh_skew_sec = pos 3600

unfoldable pub is_fresh : ℤ → UserInfo → Bool
is_fresh now u = is_zero u.expire_time || leb_ℤ now (sub64 u.expire_time refresh_skew_sec)

unfoldable pub is_expired : ℤ → UserInfo → Bool
is_expired now u =
    not (is_zero u.refresh_token_expire_time) && ltb_ℤ u.refresh_token_expire_time now

unfoldable pub refresh_if_old : World → AuthManager → Step
refresh_if_old w s = elim s.ui [
  | none ↦ (some not_authenticated, s)
  | some l ↦
      if is_fresh (w.now s.calls) l.info
      then (none, s)
      else if is_expired (w.now s.calls) l.info
      then (some (plain (codes "refresh token expired; please re-login")), s)
      else refresh_locked w s
]

unfoldable pub ensure_fresh : World → AuthManager → Step
ensure_fresh w s =
    if s.read_only
    then load w s
    else if s.contexts.closed
    then (some closed_error, s)
    else refresh_if_old w (persist_dirty_credential_best_effort w false s)

unfoldable pub force_refresh : World → AuthManager → Step
force_refresh w s =
    if s.read_only
    then load w s
    else if s.contexts.closed
    then (some closed_error, s)
    else refresh_locked w (persist_dirty_credential_best_effort w false s)
