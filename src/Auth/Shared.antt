-- ===== src/Auth/Shared.antt =====
-- A manager that shares the login of the CLI (auth.go): it reads the file and leaves it alone.
use qoder_model_gateway.Base.{ℕ, ◌≡◌, refl, ◌≢◌, true, false, Option, List, arith, Text}
use qoder_model_gateway.Auth.User.{Login}
use qoder_model_gateway.Auth.Manager.{
  AuthManager, World, new_auth_manager, adopt, reject, put_user, mark_credential_dirty, no_outside,
}
use qoder_model_gateway.Auth.Store.{store}
use qoder_model_gateway.Auth.Login.{count_context, take_user}
use qoder_model_gateway.Auth.Operation.{Operation, run}
use qoder_model_gateway.Auth.Kept.{IsKept}
use qoder_model_gateway.Auth.Kept.Runs.{run_keeps}

pub record IsReading (file : Option Text) (s : AuthManager) : Type 0 where
  pub reading : s.read_only ≡ true
  pub as_it_was : s.outside ≡ no_outside file
  pub clean : s.credential_dirty ≡ false

abbrev pub Reads : Option Text → Option ℕ → AuthManager → Type 0
Reads file e s = IsReading file s

put_user-IsReading :
    (file : Option Text) (l : Login) (s : AuthManager)
    → IsReading file s
    → IsReading file (put_user l s)
unfolding put_user mark_credential_dirty
put_user-IsReading file l s p = record {
  reading = ground (arith, p.reading);
  as_it_was = ground (arith, p.reading, p.as_it_was);
  clean = ground (arith, p.reading, p.clean);
}

never : {file : Option Text} {s : AuthManager} → IsReading file s → s.read_only ≢ false
never p h = ground (arith, p.reading, h)

Reads-IsKept : (w : World) (file : Option Text) → IsKept w (Reads file)
unfolding count_context reject adopt store take_user
Reads-IsKept w file = record {
  ticked = λ e s p. record { reading = p.reading; as_it_was = p.as_it_was; clean = p.clean };
  object_counted =
      λ e s p. record { reading = p.reading; as_it_was = p.as_it_was; clean = p.clean };
  sent = λ e s h p. absurd (never p h);
  altered = λ e l s p. put_user-IsReading file l s p;
  delayed = λ e t s p. record { reading = p.reading; as_it_was = p.as_it_was; clean = p.clean };
  stored = λ e k t l s h c p. absurd (never p h);
  taken = λ e k b u s h c p. record { reading = p.reading; as_it_was = p.as_it_was; clean = refl };
  made = λ s p. record { reading = p.reading; as_it_was = p.as_it_was; clean = p.clean };
  rejected = λ n s p. record { reading = p.reading; as_it_was = p.as_it_was; clean = p.clean };
  adopted = λ n s p. record { reading = p.reading; as_it_was = p.as_it_was; clean = p.clean };
  ended = λ e s p. record { reading = p.reading; as_it_was = p.as_it_was; clean = p.clean };
}

-- Whatever operations run on a manager that is read-only: the credential file is as it was, it was never
-- written, no request of the account was sent, and no change waits to be saved.
pub run_read_only :
    (w : World) (file : Option Text) (os : List Operation)
    → let s = run w os (new_auth_manager true file) in
      (s.outside ≡ no_outside file) × (s.credential_dirty ≡ false)
run_read_only w file os =
    let p =
      run_keeps w (Reads file) (Reads-IsKept w file) os (new_auth_manager true file)
        (record { reading = refl; as_it_was = refl; clean = refl }) in
    (p.as_it_was, p.clean)
