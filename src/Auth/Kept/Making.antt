-- ===== src/Auth/Kept/Making.antt =====
-- The operations that make contexts and log in (auth.go) keep what the small steps keep.
use qoder_model_gateway.Base.{
  ℕ, ◌≡◌, inl, inr, Option, none, some, arith, Bool-cases, Option-cases, Text,
}
use mathlib.Core.Path.{subst}
use qoder_model_gateway.Codec.Errors.{Result, ok, err, Result-cases}
use qoder_model_gateway.Auth.User.{
  UserInfo, Login, RuntimeFieldOutput, DeviceAnswer, Profile, ExchangeAnswer, pat_candidate,
  apply_profile, runtime_field_input, context_config, device_candidate,
}
use qoder_model_gateway.Auth.Manager.{
  AuthManager, World, Step, Answer, tick, new_login, count_object, send,
}
use qoder_model_gateway.Auth.Store.{decode_file, stage_credential, publish}
use qoder_model_gateway.Auth.Login.{
  accept_fields, fill_fields, make_context, build_context, rebuild_for, rebuild_context, load_text,
  load, settle, store_candidate, commit_login_candidate, log_in_as, log_in_with_profile,
  take_exchange, read_exchange, answer_exchange, pat_login, log_in, request_user_info,
  apply_to_user, end_fetch, fetch_user_info, begin_fetch, current_user, with_fields,
}
use qoder_model_gateway.Auth.Kept.{
  IsKept, send_keeps, stage_credential_keeps, publish_keeps, staged, save_locked_keeps,
}

module _ (w : World) (P : Option ℕ → AuthManager → Type 0) (K : IsKept w P) where
  accept_fields_keeps :
      (f : RuntimeFieldOutput) (l : Login) (s : AuthManager)
      → P none s
      → P none (accept_fields f l s).1
  unfolding accept_fields
  accept_fields_keeps f l s p = ground (arith, p, K.altered none (with_fields f l) s p)

  fill_fields_keeps : (l : Login) (s : AuthManager) → P none s → P none (fill_fields w l s).1
  unfolding fill_fields
  fill_fields_keeps l s p =
      let q = K.ticked none s p in
      elim (Result-cases (w.generate s.calls (runtime_field_input l.info))) [
        | inl (e, h) ↦ ground (arith, h, p, q)
        | inr (f, h) ↦ ground (arith, h, p, accept_fields_keeps f l (tick s) q)
      ]

  -- What holds when a context may have been made.
  abbrev pub InHand : Result (ℕ × Login) → AuthManager → Type 0
  InHand (err e) s = P none s
  InHand (ok c) s = P (some c.0) s

  make_context_keeps :
      (l : Login) (s : AuthManager)
      → P none s
      → InHand (make_context w l s).0 (make_context w l s).1
  unfolding make_context
  make_context_keeps l s p = elim (Option-cases (w.new_context s.calls (context_config l.info))) [
    | inl h ↦ rw (h, make_context) (K.made (tick s) (K.ticked none s p))
    | inr (e, h) ↦ rw (h, make_context) (K.ticked none s p)
  ]

  pub build_context_keeps :
      (l : Login) (s : AuthManager)
      → P none s
      → InHand (build_context w l s).0 (build_context w l s).1
  unfolding build_context
  build_context_keeps l s p = elim (Bool-cases s.contexts.closed) [
    | inl h ↦ simp (h, build_context) p
    | inr h ↦ elim (Result-cases (fill_fields w l s).0) [
      | inl (e, g) ↦ simp (h, g, build_context) (fill_fields_keeps l s p)
      | inr (m, g) ↦
          simp (h, g, build_context)
            (make_context_keeps m (fill_fields w l s).1 (fill_fields_keeps l s p))
    ]
  ]

  rebuild_for_keeps : (l : Login) (s : AuthManager) → P none s → P none (rebuild_for w l s).1
  unfolding rebuild_for
  rebuild_for_keeps l s p =
      let r = build_context w l s in
      let q = build_context_keeps l s p in
      elim (Result-cases r.0) [
        | inl (e, h) ↦ rw (h, rebuild_for) (subst (λ x. InHand x r.1) h q)
        | inr (c, h) ↦ rw (h, rebuild_for) (K.adopted c.0 r.1 (subst (λ x. InHand x r.1) h q))
      ]

  pub rebuild_context_keeps : (s : AuthManager) → P none s → P none (rebuild_context w s).1
  unfolding rebuild_context
  rebuild_context_keeps s p = elim (Option-cases s.ui) [
    | inl h ↦ ground (arith, h, p)
    | inr (l, h) ↦ ground (arith, h, rebuild_for_keeps l s p)
  ]

  load_text_keeps :
      (b : Text) (s : AuthManager) → s.outside.file ≡ some b → P none s → P none (load_text w b s).1
  unfolding load_text
  load_text_keeps b s h p =
      let q = K.ticked none s p in
      elim (Result-cases (decode_file w s.calls b)) [
        | inl (e, g) ↦ ground (arith, g, q)
        | inr (u, g) ↦
            rw (g, load_text) (rebuild_context_keeps _ (K.taken none s.calls b u (tick s) h g q))
      ]

  pub load_keeps : (s : AuthManager) → P none s → P none (load w s).1
  unfolding load
  load_keeps s p = elim (Option-cases s.outside.file) [
    | inl h ↦ ground (arith, h, p)
    | inr (b, h) ↦ ground (arith, h, p, load_text_keeps b s h p)
  ]

  settle_keeps : (n : ℕ) (r : Step) → P (some n) r.1 → P none (settle n r).1
  unfolding settle
  settle_keeps n (none, s) p = K.adopted n s p
  settle_keeps n (some e, s) p = K.rejected n s p

  store_candidate_keeps :
      (n : ℕ) (l : Login) (s : AuthManager) → P (some n) s → P none (store_candidate w n l s).1
  unfolding store_candidate
  store_candidate_keeps n l s p =
      let r = stage_credential w l.info s in
      let q = stage_credential_keeps w P K (some n) l.info s p in
      elim (Bool-cases s.contexts.closed) [
        | inl h ↦ simp (h, store_candidate) (K.rejected n s p)
        | inr h ↦ elim (Result-cases r.0) [
          | inl (e, g) ↦ simp (h, g, store_candidate) (K.rejected n r.1 q)
          | inr (t, g) ↦
              let c = staged w P K t l.info s g in
              simp (h, g, store_candidate)
                (settle_keeps n (publish w t l r.1)
                  (publish_keeps w P K (some n) s.calls t l r.1 c.0 c.1 q))
        ]
      ]

  commit_login_candidate_keeps :
      (l : Login) (s : AuthManager) → P none s → P none (commit_login_candidate w l s).1
  unfolding commit_login_candidate
  commit_login_candidate_keeps l s p =
      let r = build_context w l s in
      let q = build_context_keeps l s p in
      elim (Bool-cases s.read_only) [
        | inl h ↦ simp (h, commit_login_candidate) p
        | inr h ↦ elim (Result-cases r.0) [
          | inl (e, g) ↦ simp (h, g, commit_login_candidate) (subst (λ x. InHand x r.1) g q)
          | inr (c, g) ↦
              simp (h, g, commit_login_candidate)
                (store_candidate_keeps c.0 c.1 r.1 (subst (λ x. InHand x r.1) g q))
        ]
      ]

  log_in_as_keeps : (u : UserInfo) (s : AuthManager) → P none s → P none (log_in_as w u s).1
  unfolding log_in_as
  log_in_as_keeps u s p = ground (
    arith,
    p,
    commit_login_candidate_keeps (new_login u s) (count_object s) (K.object_counted none s p),
  )

  pub log_in_keeps : (d : DeviceAnswer) (s : AuthManager) → P none s → P none (log_in w d s).1
  unfolding log_in
  log_in_keeps d s p = log_in_as_keeps (device_candidate w.parse_time (w.now s.calls) d) s p

  apply_to_user_keeps :
      (a : Profile) (l : Login) (s : AuthManager) → P none s → P none (apply_to_user w a l s)
  unfolding apply_to_user
  apply_to_user_keeps a l s p =
      save_locked_keeps w P K none _ (rebuild_context_keeps _ (K.altered none _ s p))

  pub end_fetch_keeps :
      (l : Login) (a : Profile) (s : AuthManager) → P none s → P none (end_fetch w l a s)
  unfolding end_fetch
  end_fetch_keeps l a s p = elim (Option-cases (current_user l s)) [
    | inl h ↦ ground (arith, h, p)
    | inr (m, h) ↦ ground (arith, h, p, apply_to_user_keeps a m s p)
  ]

  request_user_info_keeps : (s : AuthManager) → P none s → P none (request_user_info w s).1
  unfolding request_user_info
  request_user_info_keeps s p = ground (arith, send_keeps w P K none s p)

  pub fetch_user_info_keeps :
      (l : Login) (s : AuthManager) → P none s → P none (fetch_user_info w l s)
  unfolding fetch_user_info
  fetch_user_info_keeps l s p =
      let r = request_user_info w s in
      let q = request_user_info_keeps s p in
      elim (Option-cases (begin_fetch l s)) [
        | inl h ↦ rw (h, fetch_user_info) p
        | inr (t, h) ↦ elim (Result-cases r.0) [
          | inl (e, g) ↦ rw (h, g, fetch_user_info) q
          | inr (a, g) ↦ rw (h, g, fetch_user_info) (end_fetch_keeps l a r.1 q)
        ]
      ]

  log_in_with_profile_keeps :
      (u : UserInfo) (r : Result Profile × AuthManager)
      → P none r.1
      → P none (log_in_with_profile w u r).1
  unfolding log_in_with_profile
  log_in_with_profile_keeps u (err e, s) p = p
  log_in_with_profile_keeps u (ok a, s) p =
      ground (arith, p, log_in_as_keeps (apply_profile a u) s p)

  take_exchange_keeps :
      (pat : Text) (a : ExchangeAnswer) (s : AuthManager)
      → P none s
      → P none (take_exchange w pat a s).1
  unfolding take_exchange
  take_exchange_keeps pat a s p =
      let u = pat_candidate w.parse_time (w.now s.calls) pat a in
      ground (
        arith,
        p,
        log_in_with_profile_keeps u (request_user_info w s) (request_user_info_keeps s p),
      )

  read_exchange_keeps :
      (pat body : Text) (s : AuthManager) → P none s → P none (read_exchange w pat body s).1
  unfolding read_exchange
  read_exchange_keeps pat body s p = elim (Result-cases (w.exchange_answer body)) [
    | inl (e, h) ↦ ground (arith, h, p)
    | inr (a, h) ↦ ground (arith, h, take_exchange_keeps pat a s p)
  ]

  answer_exchange_keeps :
      (pat : Text) (r : Answer × AuthManager) → P none r.1 → P none (answer_exchange w pat r).1
  unfolding answer_exchange
  answer_exchange_keeps pat (Answer.unanswered e, s) p = p
  answer_exchange_keeps pat (Answer.answered status body, s) p =
      ground (arith, p, read_exchange_keeps pat body s p)

  pub pat_login_keeps : (pat : Text) (s : AuthManager) → P none s → P none (pat_login w pat s).1
  unfolding pat_login
  pat_login_keeps pat s p =
      ground (arith, p, answer_exchange_keeps pat (send w s) (send_keeps w P K none s p))
