-- ===== src/Auth/Durable.antt =====
-- What the credential file (auth.go) holds while no change waits to be saved, and what a refresh leaves.
use qoder_model_gateway.Base.{
  ℕ, ◌≡◌, refl, sym, ap, ◌∙◌, ◌≢◌, ◌⊎◌, inl, inr, Bool, true, false, Option, none, some, List,
  arith, Text,
}
use qoder_model_gateway.Codec.Errors.{ok}
use qoder_model_gateway.Auth.User.{UserInfo, Login}
use qoder_model_gateway.Auth.Manager.{
  AuthManager, World, new_auth_manager, adopt, reject, put_user, mark_credential_dirty,
}
use qoder_model_gateway.Auth.Store.{store, encode_user, decode_file}
use qoder_model_gateway.Auth.Login.{count_context, take_user}
use qoder_model_gateway.Auth.Operation.{Operation, run}
use qoder_model_gateway.Auth.Kept.{IsKept}
use qoder_model_gateway.Auth.Kept.Runs.{run_keeps}

-- A text that was written for a login, or from which it was read.
abbrev pub IsTextOf : World → Text → UserInfo → Type 0
IsTextOf w t u = ((k : ℕ) × (encode_user w k u ≡ ok t)) ⊎ ((k : ℕ) × (decode_file w k t ≡ ok u))

abbrev pub IsSaved : World → Option Text → UserInfo → Type 0
IsSaved w file u = (t : Text) × ((file ≡ some t) × IsTextOf w t u)

abbrev pub IsDurable : World → Option ℕ → AuthManager → Type 0
IsDurable w e s =
    (s.read_only ≡ false)
    × (s.credential_dirty ≡ false → (l : Login) → s.ui ≡ some l → IsSaved w s.outside.file l.info)

put_user-dirty :
    (l : Login) (s : AuthManager)
    → s.read_only ≡ false
    → ((put_user l s).read_only ≡ false) × ((put_user l s).credential_dirty ≡ true)
unfolding put_user mark_credential_dirty
put_user-dirty l s h = ground (arith, h)

not_clean : (b : Bool) → b ≡ true → b ≢ false
not_clean b h g = ground (arith, h, g)

some-info : (l m : Login) → some l ≡ some m → l.info ≡ m.info
some-info l m h = ground (arith, h)

none_is_not : (m : Login) → ◌≢◌ {A = Option Login} none (some m)
none_is_not m h = ground (arith, h)

IsDurable-IsKept : (w : World) → IsKept w (IsDurable w)
unfolding count_context reject adopt store take_user
IsDurable-IsKept w = record {
  ticked = λ e s p. p;
  object_counted = λ e s p. p;
  sent = λ e s h p. p;
  altered = λ e l s p. let q = put_user-dirty l s p.0 in (q.0, λ d m g. absurd (not_clean _ q.1 d));
  delayed = λ e t s p. p;
  stored = λ e k t l s h c p.
      (p.0, λ d m i. (t, (refl, inl (k, ap (λ u. encode_user w k u) (sym (some-info l m i)) ∙ c))));
  taken = λ e k b u s f c p. (p.0, λ d m i. (b, (f, inr (k, c ∙ ap ok (some-info _ m i)))));
  made = λ s p. p;
  rejected = λ n s p. p;
  adopted = λ n s p. p;
  ended = λ e s p. p;
}

-- Whatever operations run on a new manager that owns its file: while no change waits to be saved, the
-- file holds a text that was written for the present login, or from which it was read.
pub run_durable :
    (w : World) (file : Option Text) (os : List Operation) (l : Login)
    → let s = run w os (new_auth_manager false file) in
      s.credential_dirty ≡ false → s.ui ≡ some l → IsSaved w s.outside.file l.info
run_durable w file os l d h =
    let s = new_auth_manager false file in
    let start : IsDurable w none s = (refl, λ c m i. absurd (none_is_not m i)) in
    (run_keeps w (IsDurable w) (IsDurable-IsKept w) os s start).1 d l h
