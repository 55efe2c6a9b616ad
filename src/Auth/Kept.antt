-- ===== src/Auth/Kept.antt =====
-- What every operation of the account manager (auth.go) does is made of a few small steps, so a
-- property that each of these steps keeps is one that every run keeps.
pub mod Making
pub mod Runs
use qoder_model_gateway.Base.{
  ℕ, zero, suc, ◌+◌, ◌-◌, ◌*◌, ◌/◌, ◌%◌, ◌^◌, ◌≤◌, ◌<◌, ◌≡◌, refl, sym, ap, ◌∙◌, ◌≢◌, ◌↔◌, ◌⊎◌, inl,
  inr, Bool, true, false, not, ◌&&◌, ◌||◌, Option, none, some, List, [], ◌∷◌, ◌++◌, map, append-nil,
  append_assoc, arith, ltb, leb, ◌==◌, if◌then◌else◌, ltb→lt, lt→ltb, leb→le, ==_iff, Bool-cases,
  Option-cases, is_some, ◌>>=◌, length, get_elem?, take, drop, replicate, is_nil, get_last?,
  length-append, take-append-drop, length-take, length-drop, length-replicate, take-append_exact,
  drop-append_exact, All, All-append, Text, codes, text_eq, text_eq_iff, text_eq_refl, has_prefix,
  trim_prefix, has_prefix-append, has_suffix, trim_suffix, join, is_space, trim_left, trim_right,
  trim_space,
}
use qoder_model_gateway.Base.Int.{ℤ}
use qoder_model_gateway.Codec.Errors.{Error, Result, ok, err, Result-cases}
use qoder_model_gateway.Auth.User.{UserInfo, Login}
use qoder_model_gateway.Auth.Manager.{
  Outside, AuthManager, World, Step, tick, adopt, reject, put_user, new_login, count_object, send,
}
use qoder_model_gateway.Auth.Store.{
  decode_file, encode_user, stage_credential, store, publish, save_user, save_locked,
  persist_dirty_credential, persist_dirty_credential_best_effort, retry_later,
}
use qoder_model_gateway.Auth.Login.{count_context, take_user}
use qoder_model_gateway.Auth.Operation.{close_contexts}

-- The small steps. The option is the context that has been made and is not yet anywhere.
pub record IsKept (w : World) (P : Option ℕ → AuthManager → Type 0) : Type 0 where
  pub ticked : (e : Option ℕ) (s : AuthManager) → P e s → P e (tick s)
  pub object_counted : (e : Option ℕ) (s : AuthManager) → P e s → P e (count_object s)
  pub sent :
      (e : Option ℕ) (s : AuthManager)
      → s.read_only ≡ false
      → P e s
      → P e (record (tick s) { outside = record s.outside { requests = suc s.outside.requests } })
  pub altered : (e : Option ℕ) (l : Login) (s : AuthManager) → P e s → P e (put_user l s)
  pub delayed :
      (e : Option ℕ) (t : Option ℤ) (s : AuthManager) → P e s → P e (record s { retry_at = t })
  pub stored :
      (e : Option ℕ) (k : ℕ) (t : Text) (l : Login) (s : AuthManager)
      → s.read_only ≡ false
      → encode_user w k l.info ≡ ok t
      → P e s
      → P e (store t l s)
  pub taken :
      (e : Option ℕ) (k : ℕ) (b : Text) (u : UserInfo) (s : AuthManager)
      → s.outside.file ≡ some b
      → decode_file w k b ≡ ok u
      → P e s
      → P e (take_user u s)
  pub made : (s : AuthManager) → P none s → P (some s.contexts.made) (count_context s)
  pub rejected : (n : ℕ) (s : AuthManager) → P (some n) s → P none (reject n s)
  pub adopted : (n : ℕ) (s : AuthManager) → P (some n) s → P none (adopt n s).1
  pub ended :
      (e : Option Error) (s : AuthManager)
      → P none s
      → P none (record s { contexts = close_contexts s.contexts; close_err = e })

module _ (w : World) (P : Option ℕ → AuthManager → Type 0) (K : IsKept w P) where
  pub send_keeps : (e : Option ℕ) (s : AuthManager) → P e s → P e (send w s).1
  unfolding send
  send_keeps e s p = ground (arith, K.sent e s, p)

  pub stage_credential_keeps :
      (e : Option ℕ) (u : UserInfo) (s : AuthManager) → P e s → P e (stage_credential w u s).1
  unfolding stage_credential
  stage_credential_keeps e u s p = ground (arith, K.ticked e s p)

  pub publish_keeps :
      (e : Option ℕ) (k : ℕ) (t : Text) (l : Login) (s : AuthManager)
      → s.read_only ≡ false
      → encode_user w k l.info ≡ ok t
      → P e s
      → P e (publish w t l s).1
  unfolding publish
  publish_keeps e k t l s h c p = ground (arith, K.ticked e s p, K.stored e k t l (tick s))

  pub staged :
      (t : Text) (u : UserInfo) (s : AuthManager)
      → (stage_credential w u s).0 ≡ ok t
      → ((stage_credential w u s).1.read_only ≡ false) × (encode_user w s.calls u ≡ ok t)
  unfolding stage_credential
  staged t u s h = ground (arith, h)

  pub save_user_keeps :
      (e : Option ℕ) (l : Login) (s : AuthManager) → P e s → P e (save_user w l s).1
  unfolding save_user
  save_user_keeps e l s p =
      let q = stage_credential_keeps e l.info s p in
      elim (Result-cases (stage_credential w l.info s).0) [
        | inl (error, h) ↦ rw (h, save_user) q
        | inr (t, h) ↦
            let r = staged t l.info s h in
            rw (h, save_user) (publish_keeps e s.calls t l _ r.0 r.1 q)
      ]

  pub save_locked_keeps : (e : Option ℕ) (s : AuthManager) → P e s → P e (save_locked w s).1
  unfolding save_locked
  save_locked_keeps e s p = elim (Option-cases s.ui) [
    | inl h ↦ ground (arith, h, p)
    | inr (l, h) ↦ ground (arith, h, p, save_user_keeps e l (put_user l s) (K.altered e l s p))
  ]

  pub persist_dirty_credential_keeps :
      (e : Option ℕ) (s : AuthManager) → P e s → P e (persist_dirty_credential w s).1
  unfolding persist_dirty_credential
  persist_dirty_credential_keeps e s p = ground (arith, p, save_locked_keeps e s p)

  retry_later_keeps : (e : Option ℕ) (r : Step) → P e r.1 → P e (retry_later w r)
  retry_later_keeps e (none, s) p = p
  retry_later_keeps e (some error, s) p = K.delayed e _ s p

  pub best_effort_keeps :
      (e : Option ℕ) (force : Bool) (s : AuthManager)
      → P e s
      → P e (persist_dirty_credential_best_effort w force s)
  unfolding persist_dirty_credential_best_effort
  best_effort_keeps e force s p = ground (
    arith,
    p,
    retry_later_keeps e (persist_dirty_credential w s) (persist_dirty_credential_keeps e s p),
  )
