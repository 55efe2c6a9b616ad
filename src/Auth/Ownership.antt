-- ===== src/Auth/Ownership.antt =====
-- Who closes the protocol contexts that the account manager (auth.go) makes.
use qoder_model_gateway.Base.{
  ℕ, suc, ◌+◌, ◌≡◌, refl, sym, ap, ◌∙◌, inl, inr, Bool, true, false, ◌&&◌, Option, none, some, List,
  [], ◌∷◌, ◌++◌, arith, ltb, ◌==◌, Bool-cases, Option-cases, is_some, Text,
}
use mathlib.Core.Path.{subst}
use qoder_model_gateway.Auth.User.{Login}
use qoder_model_gateway.Auth.Manager.{
  Contexts, AuthManager, World, new_auth_manager, adopt, reject, release, release_old,
  replace_context, put_user, mark_credential_dirty,
}
use qoder_model_gateway.Auth.Store.{store}
use qoder_model_gateway.Auth.Login.{count_context, take_user}
use qoder_model_gateway.Auth.Operation.{close_with, close_contexts, close, Operation, step, run}
use qoder_model_gateway.Auth.Kept.{IsKept}
use qoder_model_gateway.Auth.Kept.Runs.{run_keeps}

abbrev pub bit : Bool → ℕ
bit true = 1
bit false = 0

-- How often a context was closed.
unfoldable pub count : ℕ → List ℕ → ℕ
count n [] = 0
count n (m ∷ ms) = bit (n == m) + count n ms

abbrev pub held : ℕ → Option ℕ → ℕ
held n none = 0
held n (some m) = bit (n == m)

pub count-snoc : (n m : ℕ) (ms : List ℕ) → count n (ms ++ m ∷ []) ≡ count n ms + bit (n == m)
unfolding count
count-snoc n m [] = ground arith
count-snoc n m (k ∷ ms) = ground (arith, count-snoc n m ms)

-- Every context that was made is closed, or the current one, or in hand, once and not twice; and a
-- manager that is closed has none.
pub record IsOwned (e : Option ℕ) (c : Contexts) : Type 0 where
  pub once : (n : ℕ) → count n c.released + held n c.proto_ctx + held n e ≡ bit (ltb n c.made)
  pub none_left : c.closed ≡ true → c.proto_ctx ≡ none

abbrev pub Owns : Option ℕ → AuthManager → Type 0
Owns e s = IsOwned e s.contexts

make-IsOwned :
    (c : Contexts) → IsOwned none c → IsOwned (some c.made) (record c { made = suc c.made })
make-IsOwned c p = record { once = λ n. ground (arith, p.once n); none_left = p.none_left }

release-IsOwned : (n : ℕ) (c : Contexts) → IsOwned (some n) c → IsOwned none (release n c)
unfolding release
release-IsOwned n c p = record {
  once = λ m. ground (arith, p.once m, count-snoc m n c.released);
  none_left = p.none_left;
}

replace-IsOwned : (n : ℕ) (c : Contexts) → IsOwned (some n) c → IsOwned none (replace_context n c).1
unfolding replace_context release_old release
replace-IsOwned n c p = record {
  once = λ m. elim (Option-cases c.proto_ctx) [
    | inl h ↦ ground (arith, h, p.once m, count-snoc m n c.released)
    | inr (k, h) ↦ ground (arith, h, p.once m, count-snoc m n c.released, count-snoc m k c.released)
  ];
  none_left = elim (Option-cases c.proto_ctx) [
    | inl h ↦ ground (arith, h, p.none_left)
    | inr (k, h) ↦ ground (arith, h, p.none_left)
  ];
}

close-IsOwned : (c : Contexts) → IsOwned none c → IsOwned none (close_contexts c)
unfolding close_contexts release_old release
close-IsOwned c p = record {
  once = λ m. elim (Option-cases c.proto_ctx) [
    | inl h ↦ ground (arith, h, p.once m)
    | inr (k, h) ↦ ground (arith, h, p.once m, count-snoc m k c.released)
  ];
  none_left = elim (Option-cases c.proto_ctx) [
    | inl h ↦ ground (arith, h)
    | inr (k, h) ↦ ground (arith, h)
  ];
}

put_user-contexts : (l : Login) (s : AuthManager) → (put_user l s).contexts ≡ s.contexts
unfolding put_user mark_credential_dirty
put_user-contexts l s = ground arith

Owns-IsKept : (w : World) → IsKept w Owns
unfolding count_context reject adopt store take_user
Owns-IsKept w = record {
  ticked = λ e s p. p;
  object_counted = λ e s p. p;
  sent = λ e s h p. p;
  altered = λ e l s p. subst (λ c. IsOwned e c) (sym (put_user-contexts l s)) p;
  delayed = λ e t s p. p;
  stored = λ e k t l s h c p. p;
  taken = λ e k b u s h c p. p;
  made = λ s p. make-IsOwned s.contexts p;
  rejected = λ n s p. release-IsOwned n s.contexts p;
  adopted = λ n s p. replace-IsOwned n s.contexts p;
  ended = λ e s p. close-IsOwned s.contexts p;
}

new-Owns : (ro : Bool) (file : Option Text) → Owns none (new_auth_manager ro file)
unfolding count
new-Owns ro file = record { once = λ n. ground arith; none_left = λ h. refl }

run-Owns :
    (w : World) (ro : Bool) (file : Option Text) (os : List Operation)
    → Owns none (run w os (new_auth_manager ro file))
run-Owns w ro file os = run_keeps w Owns (Owns-IsKept w) os _ (new-Owns ro file)

-- Whatever operations run on a new manager, in whatever order and with whatever failures: each protocol
-- context that was made either was closed once and is not the current one, or is the current one and
-- was not closed; and a closed manager has no current context.
pub run_ownership :
    (w : World) (ro : Bool) (file : Option Text) (os : List Operation) (n : ℕ)
    → let c = (run w os (new_auth_manager ro file)).contexts in
      (count n c.released + held n c.proto_ctx ≡ bit (ltb n c.made))
      × ((c.closed && is_some c.proto_ctx) ≡ false)
run_ownership w ro file os n =
    let o = run-Owns w ro file os in (ground (arith, o.once n), ground (arith, o.none_left))

abbrev pub IsClosed : Option ℕ → AuthManager → Type 0
IsClosed e s = s.contexts.closed ≡ true

replace-closed : (n : ℕ) (c : Contexts) → (replace_context n c).1.closed ≡ c.closed
unfolding replace_context release_old release
replace-closed n c = ground arith

close_contexts-closed : (c : Contexts) → (close_contexts c).closed ≡ true
unfolding close_contexts release_old release
close_contexts-closed c = ground arith

IsClosed-IsKept : (w : World) → IsKept w IsClosed
unfolding count_context reject adopt store take_user release
IsClosed-IsKept w = record {
  ticked = λ e s p. p;
  object_counted = λ e s p. p;
  sent = λ e s h p. p;
  altered = λ e l s p. ap (λ (c : Contexts). c.closed) (put_user-contexts l s) ∙ p;
  delayed = λ e t s p. p;
  stored = λ e k t l s h c p. p;
  taken = λ e k b u s h c p. p;
  made = λ s p. p;
  rejected = λ n s p. p;
  adopted = λ n s p. replace-closed n s.contexts ∙ p;
  ended = λ e s p. close_contexts-closed s.contexts;
}

close_closes : (w : World) (s : AuthManager) → (close w s).1.contexts.closed ≡ true
unfolding close close_with
close_closes w s = elim (Bool-cases s.contexts.closed) [
  | inl h ↦ simp (h, close) refl
  | inr h ↦ simp (h, close) (close_contexts-closed _)
]

run-append :
    (w : World) (os ps : List Operation) (s : AuthManager)
    → run w (os ++ ps) s ≡ run w ps (run w os s)
unfolding run
run-append w [] ps s = refl
run-append w (o ∷ os) ps s = run-append w os ps (step w o s)

-- After `Close`, whatever ran before it and whatever runs after it, the manager is closed, it has no
-- context, and every context that was ever made has been closed exactly once.
pub run_close_liveness :
    (w : World) (ro : Bool) (file : Option Text) (os ps : List Operation) (n : ℕ)
    → let s = run w (os ++ Operation.close_op ∷ ps) (new_auth_manager ro file) in
      (s.contexts.closed ≡ true)
      × (s.contexts.proto_ctx ≡ none)
      × (count n s.contexts.released ≡ bit (ltb n s.contexts.made))
unfolding run step
run_close_liveness w ro file os ps n =
    let s = new_auth_manager ro file in
    let c : IsClosed none (run w (os ++ Operation.close_op ∷ ps) s) =
      subst (λ x. IsClosed none x) (sym (run-append w os (Operation.close_op ∷ ps) s))
        (run_keeps w IsClosed (IsClosed-IsKept w) ps _ (close_closes w (run w os s))) in
    let o = run-Owns w ro file (os ++ Operation.close_op ∷ ps) in
    (c, o.none_left c, ground (arith, o.none_left c, o.once n))
