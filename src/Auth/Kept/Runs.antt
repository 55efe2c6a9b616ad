-- ===== src/Auth/Kept/Runs.antt =====
-- The refreshes, and with them all operations (auth.go), keep what the small steps keep.
use qoder_model_gateway.Base.{
  ℕ, inl, inr, true, false, Option, none, some, List, [], ◌∷◌, arith, ◌==◌, if◌then◌else◌,
  Bool-cases, Option-cases, Text, codes,
}
use mathlib.Core.Path.{subst}
use qoder_model_gateway.Base.Int.{ℤ}
use qoder_model_gateway.Codec.Errors.{Error, Result-cases}
use qoder_model_gateway.Auth.User.{Login, RefreshAnswer}
use qoder_model_gateway.Auth.Manager.{
  AuthManager, Answer, unanswered, answered, World, Step, tick, adopt, put_user, send,
}
use qoder_model_gateway.Auth.Login.{build_context, log_in}
use qoder_model_gateway.Auth.Refresh.{
  rotate, preserve_for, preserve_refresh_rotation_and_save, give_up, finish_refresh, commit_refresh,
  refresh_candidate, take_refresh, read_refresh, send_refresh, refresh_locked, refresh_if_old,
  ensure_fresh, force_refresh,
}
use qoder_model_gateway.Auth.Operation.{
  begin_prepare, close_with, close, Poll, poll_login, device_login, finish_login, Operation, step,
  run,
}
use qoder_model_gateway.Auth.Kept.{
  IsKept, send_keeps, save_locked_keeps, persist_dirty_credential_keeps, best_effort_keeps,
}
use qoder_model_gateway.Auth.Kept.Making.{
  InHand, build_context_keeps, load_keeps, log_in_keeps, end_fetch_keeps, fetch_user_info_keeps,
  pat_login_keeps,
}

module _ (w : World) (P : Option ℕ → AuthManager → Type 0) (K : IsKept w P) where
  preserve_for_keeps :
      (t : Text) (x : ℤ) (l : Login) (s : AuthManager)
      → P none s
      → P none (preserve_for w t x l s).1
  unfolding preserve_for
  preserve_for_keeps t x l s p =
      let m : Login = record l { info = rotate t x l.info } in
      ground
        (arith, p, persist_dirty_credential_keeps w P K none (put_user m s) (K.altered none m s p))

  preserve_keeps :
      (t : Text) (x : ℤ) (s : AuthManager)
      → P none s
      → P none (preserve_refresh_rotation_and_save w t x s).1
  unfolding preserve_refresh_rotation_and_save
  preserve_keeps t x s p = elim (Option-cases s.ui) [
    | inl h ↦ ground (arith, h, p)
    | inr (l, h) ↦ ground (arith, h, p, preserve_for_keeps t x l s p)
  ]

  give_up_keeps :
      (t : Text) (x : ℤ) (e : Error) (s : AuthManager) → P none s → P none (give_up w t x e s).1
  unfolding give_up
  give_up_keeps t x e s p = preserve_keeps t x s p

  finish_refresh_keeps : (l : Login) (s : AuthManager) → P none s → P none (finish_refresh w l s).1
  unfolding finish_refresh
  finish_refresh_keeps l s p = best_effort_keeps w P K none true _ (K.altered none l s p)

  commit_refresh_keeps :
      (t : Text) (x : ℤ) (n : ℕ) (l : Login) (s : AuthManager)
      → P (some n) s
      → P none (commit_refresh w t x n l s).1
  unfolding commit_refresh
  commit_refresh_keeps t x n l s p =
      let q = K.adopted n s p in
      elim (Option-cases (adopt n s).0) [
        | inl h ↦ rw (h, commit_refresh) (finish_refresh_keeps l _ q)
        | inr (e, h) ↦ rw (h, commit_refresh) (give_up_keeps t x e _ q)
      ]

  refresh_candidate_keeps :
      (t : Text) (x : ℤ) (l : Login) (s : AuthManager)
      → P none s
      → P none (refresh_candidate w t x l s).1
  unfolding refresh_candidate
  refresh_candidate_keeps t x l s p =
      let r = build_context w l s in
      let q = build_context_keeps w P K l s p in
      elim (Result-cases r.0) [
        | inl (e, h) ↦
            rw (h, refresh_candidate)
              (give_up_keeps t x e r.1 (subst (λ y. InHand w P K y r.1) h q))
        | inr (c, h) ↦
            rw (h, refresh_candidate)
              (commit_refresh_keeps t x c.0 c.1 r.1 (subst (λ y. InHand w P K y r.1) h q))
      ]

  take_refresh_keeps :
      (a : RefreshAnswer) (l : Login) (s : AuthManager) → P none s → P none (take_refresh w a l s).1
  unfolding take_refresh
  take_refresh_keeps a l s p =
      refresh_candidate_keeps _ _ _ _ (K.ticked none _ (K.object_counted none s p))

  read_refresh_keeps :
      (b : Text) (l : Login) (s : AuthManager) → P none s → P none (read_refresh w b l s).1
  unfolding read_refresh
  read_refresh_keeps b l s p = elim (Result-cases (w.refresh_answer b)) [
    | inl (e, h) ↦ ground (arith, h, p)
    | inr (a, h) ↦ ground (arith, h, p, take_refresh_keeps a l s p)
  ]

  answer_keeps :
      (l : Login) (r : Answer × AuthManager)
      → P none r.1
      → P none
          (elim r.0 as (λ x. Step) [
            | unanswered e ↦ (some e, r.1)
            | answered status body ↦
                if status == 200
                then read_refresh w body l r.1
                else (some (Error.plain (codes "deviceToken/refresh status")), r.1)
          ]).1
  answer_keeps l (unanswered e, s) p = p
  answer_keeps l (answered status body, s) p = ground (arith, p, read_refresh_keeps body l s p)

  send_refresh_keeps : (l : Login) (s : AuthManager) → P none s → P none (send_refresh w l s).1
  unfolding send_refresh
  send_refresh_keeps l s p =
      ground (arith, p, answer_keeps l (send w s) (send_keeps w P K none s p))

  refresh_locked_keeps : (s : AuthManager) → P none s → P none (refresh_locked w s).1
  unfolding refresh_locked
  refresh_locked_keeps s p = elim (Option-cases s.ui) [
    | inl h ↦ ground (arith, h, p)
    | inr (l, h) ↦ ground (arith, h, p, send_refresh_keeps l s p)
  ]

  refresh_if_old_keeps : (s : AuthManager) → P none s → P none (refresh_if_old w s).1
  unfolding refresh_if_old
  refresh_if_old_keeps s p = ground (arith, p, refresh_locked_keeps s p)

  ensure_fresh_keeps : (s : AuthManager) → P none s → P none (ensure_fresh w s).1
  unfolding ensure_fresh
  ensure_fresh_keeps s p = ground (
    arith,
    p,
    load_keeps w P K s p,
    refresh_if_old_keeps _ (best_effort_keeps w P K none false s p),
  )

  force_refresh_keeps : (s : AuthManager) → P none s → P none (force_refresh w s).1
  unfolding force_refresh
  force_refresh_keeps s p = ground (
    arith,
    p,
    load_keeps w P K s p,
    refresh_locked_keeps _ (best_effort_keeps w P K none false s p),
  )

  begin_prepare_keeps : (s : AuthManager) → P none s → P none (begin_prepare w s).1
  unfolding begin_prepare
  begin_prepare_keeps s p = ground (arith, p, ensure_fresh_keeps s p)

  close_with_keeps : (r : Step) → P none r.1 → P none (close_with w r).1
  unfolding close_with
  close_with_keeps r p = K.ended _ (tick r.1) (K.ticked none r.1 p)

  pub close_keeps : (s : AuthManager) → P none s → P none (close w s).1
  unfolding close
  close_keeps s p = elim (Bool-cases s.contexts.closed) [
    | inl h ↦ simp (h, close) p
    | inr h ↦ simp (h, close) (close_with_keeps _ (persist_dirty_credential_keeps w P K none s p))
  ]

  finish_login_keeps : (r : Step) → P none r.1 → P none (finish_login w r).1
  unfolding finish_login
  finish_login_keeps (some e, s) p = p
  finish_login_keeps (none, s) p = elim (Option-cases s.ui) [
    | inl h ↦ ground (arith, h, p)
    | inr (l, h) ↦ ground (arith, h, fetch_user_info_keeps w P K l s p)
  ]

  device_login_keeps :
      (ps : List Poll) (s : AuthManager) → P none s → P none (device_login w ps s).1
  unfolding device_login
  device_login_keeps ps s p = elim (Result-cases (poll_login w ps)) [
    | inl (e, h) ↦ ground (arith, h, p)
    | inr (d, h) ↦
        ground (arith, h, p, finish_login_keeps (log_in w d s) (log_in_keeps w P K d s p))
  ]

  pub step_keeps : (o : Operation) (s : AuthManager) → P none s → P none (step w o s)
  unfolding step
  step_keeps Operation.load_op s p = load_keeps w P K s p
  step_keeps Operation.save_op s p = save_locked_keeps w P K none s p
  step_keeps Operation.ensure_fresh_op s p = ensure_fresh_keeps s p
  step_keeps Operation.force_refresh_op s p = force_refresh_keeps s p
  step_keeps Operation.prepare_op s p = begin_prepare_keeps s p
  step_keeps Operation.close_op s p = close_keeps s p
  step_keeps Operation.ask_op s p = send_keeps w P K none s p
  step_keeps (Operation.log_in_op d) s p = log_in_keeps w P K d s p
  step_keeps (Operation.end_fetch_op l a) s p = end_fetch_keeps w P K l a s p
  step_keeps (Operation.device_login_op ps) s p = device_login_keeps ps s p
  step_keeps (Operation.pat_login_op pat) s p = pat_login_keeps w P K pat s p

  pub run_keeps : (os : List Operation) (s : AuthManager) → P none s → P none (run w os s)
  unfolding run
  run_keeps [] s p = p
  run_keeps (o ∷ os) s p = run_keeps os (step w o s) (step_keeps o s p)
