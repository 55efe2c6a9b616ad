-- ===== src/Auth/Rotation.antt =====
-- A refresh token that the server has replaced (auth.go): the old one is worthless, so the new one is
-- kept whatever fails afterwards.
use qoder_model_gateway.Base.{
  ℕ, suc, ◌≡◌, refl, ap, ◌∙◌, inl, inr, Bool, true, false, Option, none, some, [], arith,
  Option-cases, is_some, is_nil, Text, text_eq_iff,
}
use mathlib.Core.Path.{subst}
use qoder_model_gateway.Base.Int.{ℤ}
use qoder_model_gateway.Codec.Errors.{Result, ok, err, Result-cases}
use qoder_model_gateway.Auth.User.{
  UserInfo, Login, RefreshAnswer, token_of, refreshed, parse_expiry, RuntimeFieldOutput,
  runtime_field_input,
}
use qoder_model_gateway.Auth.Manager.{
  AuthManager, answered, World, adopt, reject, put_user, mark_credential_dirty, count_object, send,
  tick, new_login,
}
use qoder_model_gateway.Auth.Store.{
  store, stage_credential, publish, save_user, save_locked, persist_dirty_credential,
  persist_dirty_credential_best_effort,
}
use qoder_model_gateway.Auth.Login.{
  count_context, take_user, accept_fields, fill_fields, make_context, build_context,
}
use qoder_model_gateway.Auth.Refresh.{
  rotate, preserve_for, preserve_refresh_rotation_and_save, give_up, take_fields, finish_refresh,
  commit_refresh, refresh_candidate, take_refresh, read_refresh, send_refresh, refresh_locked,
}
use qoder_model_gateway.Auth.Kept.{IsKept}
use qoder_model_gateway.Auth.Kept.Making.{InHand, build_context_keeps}

-- The manager owns its file and has a user.
pub record HasUser (s : AuthManager) : Type 0 where
  pub owns : s.read_only ≡ false
  pub there : is_some s.ui ≡ true

abbrev pub Has : Option ℕ → AuthManager → Type 0
Has e s = HasUser s

put_user-HasUser : (l : Login) (s : AuthManager) → HasUser s → HasUser (put_user l s)
unfolding put_user mark_credential_dirty
put_user-HasUser l s p = record { owns = ground (arith, p.owns); there = ground (arith, p.owns) }

Has-IsKept : (w : World) → IsKept w Has
unfolding count_context reject adopt store take_user
Has-IsKept w = record {
  ticked = λ e s p. record { owns = p.owns; there = p.there };
  object_counted = λ e s p. record { owns = p.owns; there = p.there };
  sent = λ e s h p. record { owns = p.owns; there = p.there };
  altered = λ e l s p. put_user-HasUser l s p;
  delayed = λ e t s p. record { owns = p.owns; there = p.there };
  stored = λ e k t l s h c p. record { owns = p.owns; there = refl };
  taken = λ e k b u s h c p. record { owns = p.owns; there = refl };
  made = λ s p. record { owns = p.owns; there = p.there };
  rejected = λ n s p. record { owns = p.owns; there = p.there };
  adopted = λ n s p. record { owns = p.owns; there = p.there };
  ended = λ e s p. record { owns = p.owns; there = p.there };
}

-- Saving does not change the user.
stage_credential-ui :
    (w : World) (u : UserInfo) (s : AuthManager) → (stage_credential w u s).1.ui ≡ s.ui
unfolding stage_credential
stage_credential-ui w u s = ground arith

publish-ui :
    (w : World) (t : Text) (l : Login) (s : AuthManager)
    → s.ui ≡ some l
    → (publish w t l s).1.ui ≡ some l
unfolding publish store
publish-ui w t l s h = ground (arith, h)

save_user-ui :
    (w : World) (l : Login) (s : AuthManager) → s.ui ≡ some l → (save_user w l s).1.ui ≡ some l
unfolding save_user
save_user-ui w l s h =
    let q = stage_credential-ui w l.info s ∙ h in
    elim (Result-cases (stage_credential w l.info s).0) [
      | inl (e, g) ↦ rw (g, save_user) q
      | inr (t, g) ↦ rw (g, save_user) (publish-ui w t l _ q)
    ]

put_user-ui : (l : Login) (s : AuthManager) → (put_user l s).ui ≡ some l
unfolding put_user mark_credential_dirty
put_user-ui l s = ground arith

save_locked-ui : (w : World) (s : AuthManager) → (save_locked w s).1.ui ≡ s.ui
unfolding save_locked
save_locked-ui w s = elim (Option-cases s.ui) [
  | inl h ↦ ground (arith, h)
  | inr (l, h) ↦ ground (arith, h, save_user-ui w l (put_user l s) (put_user-ui l s))
]

persist-ui : (w : World) (s : AuthManager) → (persist_dirty_credential w s).1.ui ≡ s.ui
unfolding persist_dirty_credential
persist-ui w s = ground (arith, save_locked-ui w s)

best_effort-ui :
    (w : World) (force : Bool) (s : AuthManager)
    → (persist_dirty_credential_best_effort w force s).ui ≡ s.ui
unfolding persist_dirty_credential_best_effort
best_effort-ui w force s = ground (arith, persist-ui w s)

abbrev pub token_in : Option Login → Text
token_in none = []
token_in (some l) = l.info.refresh_token

preserve_for-token :
    (w : World) (t : Text) (x : ℤ) (l : Login) (s : AuthManager)
    → is_nil t ≡ false
    → s.ui ≡ some l
    → token_in (preserve_for w t x l s).1.ui ≡ t
unfolding preserve_for rotate
preserve_for-token w t x l s h g =
    let m : Login = record l { info = rotate t x l.info } in
    ground (
      arith,
      h,
      g,
      persist-ui w (put_user m s) ∙ put_user-ui m s,
      text_eq_iff l.info.refresh_token t,
    )

preserve-token :
    (w : World) (t : Text) (x : ℤ) (s : AuthManager)
    → is_nil t ≡ false
    → HasUser s
    → token_in (preserve_refresh_rotation_and_save w t x s).1.ui ≡ t
unfolding preserve_refresh_rotation_and_save
preserve-token w t x s h p = elim (Option-cases s.ui) [
  | inl g ↦ ground (arith, g, p.there)
  | inr (l, g) ↦ ground (arith, g, p.owns, preserve_for-token w t x l s h g)
]

fill_fields-token :
    (w : World) (l m : Login) (s : AuthManager)
    → (fill_fields w l s).0 ≡ ok m
    → m.info.refresh_token ≡ l.info.refresh_token
unfolding fill_fields accept_fields
fill_fields-token w l m s h = ground (arith, h)

make_context-login :
    (w : World) (l : Login) (c : ℕ × Login) (s : AuthManager)
    → (make_context w l s).0 ≡ ok c
    → c.1 ≡ l
unfolding make_context
make_context-login w l c s h = ground (arith, h)

build_context-token :
    (w : World) (l : Login) (c : ℕ × Login) (s : AuthManager)
    → (build_context w l s).0 ≡ ok c
    → c.1.info.refresh_token ≡ l.info.refresh_token
unfolding build_context
build_context-token w l c s h = elim (Result-cases (fill_fields w l s).0) [
  | inl (e, g) ↦ ground (arith, g, h)
  | inr (m, g) ↦
      ground
        (arith, g, h, fill_fields-token w l m s g, make_context-login w m c (fill_fields w l s).1)
]

finish_refresh-token :
    (w : World) (l : Login) (s : AuthManager)
    → token_in (finish_refresh w l s).1.ui ≡ l.info.refresh_token
unfolding finish_refresh
finish_refresh-token w l s = ap token_in (best_effort-ui w true (put_user l s) ∙ put_user-ui l s)

commit_refresh-token :
    (w : World) (t : Text) (x : ℤ) (n : ℕ) (l : Login) (s : AuthManager)
    → is_nil t ≡ false
    → HasUser s
    → l.info.refresh_token ≡ t
    → token_in (commit_refresh w t x n l s).1.ui ≡ t
unfolding commit_refresh give_up
commit_refresh-token w t x n l s h p g = elim (Option-cases (adopt n s).0) [
  | inl i ↦ rw (i, commit_refresh) (finish_refresh-token w l (adopt n s).1 ∙ g)
  | inr (e, i) ↦ rw (i, commit_refresh) (preserve-token w t x _ h ((Has-IsKept w).adopted n s p))
]

refresh_candidate-token :
    (w : World) (t : Text) (x : ℤ) (l : Login) (s : AuthManager)
    → is_nil t ≡ false
    → HasUser s
    → l.info.refresh_token ≡ t
    → token_in (refresh_candidate w t x l s).1.ui ≡ t
unfolding refresh_candidate give_up
refresh_candidate-token w t x l s h p g =
    let r = build_context w l s in
    let q = build_context_keeps w Has (Has-IsKept w) l s p in
    let K = Has-IsKept w in
    elim (Result-cases r.0) [
      | inl (e, i) ↦
          rw (i, refresh_candidate)
            (preserve-token w t x r.1 h (subst (λ y. InHand w Has K y r.1) i q))
      | inr (c, i) ↦
          rw (i, refresh_candidate)
            (commit_refresh-token w t x c.0 c.1 r.1 h (subst (λ y. InHand w Has K y r.1) i q)
              (build_context-token w l c s i ∙ g))
    ]

take_fields-token :
    (f : Result RuntimeFieldOutput) (l : Login)
    → (take_fields f l).info.refresh_token ≡ l.info.refresh_token
take_fields-token (err e) l = refl
take_fields-token (ok f) l = ground arith

refreshed-token :
    (time : Text → Option ℤ) (now : ℤ) (a : RefreshAnswer) (u : UserInfo)
    → is_nil a.refresh_token ≡ false
    → (refreshed time now a u).refresh_token ≡ a.refresh_token
unfolding refreshed
refreshed-token time now a u h = ground (arith, h)

take_refresh-token :
    (w : World) (a : RefreshAnswer) (l : Login) (s : AuthManager)
    → is_nil a.refresh_token ≡ false
    → HasUser s
    → token_in (take_refresh w a l s).1.ui ≡ a.refresh_token
unfolding take_refresh refreshed
take_refresh-token w a l s h p =
    let now = w.now s.calls in
    let u = new_login (refreshed w.parse_time now a l.info) s in
    let f = w.generate s.calls (runtime_field_input u.info) in
    refresh_candidate-token w a.refresh_token
      (parse_expiry w.parse_time now a.refresh_exp_at a.refresh_exp_in) (take_fields f u)
      (tick (count_object s)) h (record { owns = p.owns; there = p.there })
      (take_fields-token f u ∙ refreshed-token w.parse_time now a l.info h)

-- When the server answers a refresh with a token and a new refresh token, the manager has the new refresh
-- token afterwards, whatever fails: the fields, the context, or the writing of the file.
pub refresh_locked-token :
    (w : World) (s : AuthManager) (l : Login) (body : Text) (a : RefreshAnswer)
    → s.read_only ≡ false
    → s.contexts.closed ≡ false
    → s.ui ≡ some l
    → is_nil l.info.refresh_token ≡ false
    → w.request s.calls ≡ answered 200 body
    → w.refresh_answer body ≡ ok a
    → is_nil (token_of a) ≡ false
    → is_nil a.refresh_token ≡ false
    → token_in (refresh_locked w s).1.ui ≡ a.refresh_token
unfolding refresh_locked send_refresh read_refresh send
refresh_locked-token w s l body a ro opened has_ui has req ans tok rot =
    let sent : AuthManager = record (tick s) {
      outside = record s.outside { requests = suc s.outside.requests };
    } in
    let q = take_refresh-token w a l sent rot (record { owns = ro; there = ap is_some has_ui }) in
    ground (arith, ro, opened, has_ui, has, req, ans, tok, q)
