-- ===== src/Retry/Bounds.antt =====
-- `callUpstream` of proxy.go ends within its attempts and its waits.
use qoder_model_gateway.Base.{
  ℕ, zero, suc, ◌+◌, ◌≤◌, ◌<◌, ◌≡◌, refl, ◌≢◌, ◌⊎◌, inl, inr, true, Option, List, [], ◌∷◌, ◌++◌,
  append-nil, arith, ◌==◌, if◌then◌else◌, Bool-cases, All, All-append,
}
use qoder_model_gateway.Base.Int.{ℤ, leb_ℤ}
use mathlib.Core.Path.{subst}
use qoder_model_gateway.Retry.{
  max_attempts, max_wait, Response, Attempt, transport_error, answered, World, Action, call, sleep,
  refresh, Result, cancelled, unreachable, Next, return, again_after, refresh_token, cap_wait,
  read_limited, queue_wait, retry_wait, after_response, after_attempt, refused, call_from,
  call_upstream,
}

cap_wait-le : (d : ℤ) → leb_ℤ (cap_wait d) max_wait ≡ true
unfolding cap_wait
cap_wait-le d = ground arith

-- What a decision may be after one attempt.
abbrev pub IsFair : ℕ → Next → Type 0
IsFair attempt (return r) = r ≢ unreachable
IsFair attempt (again_after d) = (attempt < max_attempts) × (leb_ℤ d max_wait ≡ true)
IsFair attempt refresh_token = attempt ≡ 1

-- How many upstream calls and refreshes a log holds, and its sleeps.
unfoldable pub calls : List Action → ℕ
calls [] = 0
calls (call n ∷ xs) = suc (calls xs)
calls (sleep d ∷ xs) = calls xs
calls (refresh ∷ xs) = calls xs

unfoldable pub refreshes : List Action → ℕ
refreshes [] = 0
refreshes (call n ∷ xs) = refreshes xs
refreshes (sleep d ∷ xs) = refreshes xs
refreshes (refresh ∷ xs) = suc (refreshes xs)

abbrev pub IsShort : Action → Type 0
IsShort (sleep d) = leb_ℤ d max_wait ≡ true
IsShort (call n) = Unit {0}
IsShort refresh = Unit {0}

calls-append : (xs ys : List Action) → calls (xs ++ ys) ≡ calls xs + calls ys
unfolding calls
calls-append [] ys = omega arith
calls-append (call n ∷ xs) ys = omega (arith, calls-append xs ys)
calls-append (sleep d ∷ xs) ys = calls-append xs ys
calls-append (refresh ∷ xs) ys = calls-append xs ys

refreshes-append : (xs ys : List Action) → refreshes (xs ++ ys) ≡ refreshes xs + refreshes ys
unfolding refreshes
refreshes-append [] ys = omega arith
refreshes-append (call n ∷ xs) ys = refreshes-append xs ys
refreshes-append (sleep d ∷ xs) ys = refreshes-append xs ys
refreshes-append (refresh ∷ xs) ys = omega (arith, refreshes-append xs ys)

module _ (w : World) where
  retry_wait-le :
      (r : Response) (attempt : ℕ) (q : Option ℤ) → leb_ℤ (retry_wait w r attempt q) max_wait ≡ true
  unfolding retry_wait
  retry_wait-le r attempt q = cap_wait-le _

  after_response-IsFair : (attempt : ℕ) (r : Response) → IsFair attempt (after_response w attempt r)
  unfolding after_response
  after_response-IsFair attempt r =
      ground (arith, retry_wait-le r attempt (queue_wait (w.overload (read_limited r.body))))

  after_attempt-IsFair : (attempt : ℕ) (a : Attempt) → IsFair attempt (after_attempt w attempt a)
  unfolding after_attempt
  after_attempt-IsFair attempt (transport_error e) = ground arith
  after_attempt-IsFair attempt (answered r) = after_response-IsFair attempt r

-- From a log to what follows it: the attempts that are left bound the calls.
pub record IsBounded (left attempt : ℕ) (log : List Action) (out : Result × List Action)
    : Type 0 where
  pub reached : out.0 ≢ unreachable
  pub few_calls : calls out.1 ≤ calls log + left
  pub few_refreshes : refreshes out.1 ≤ refreshes log + (if attempt == 1 then 1 else 0)
  pub short_sleeps : All IsShort log → All IsShort out.1

Next-cases :
    (n : Next)
    → ((r : Result) × (n ≡ return r)) ⊎ (((d : ℤ) × (n ≡ again_after d)) ⊎ (n ≡ refresh_token))
Next-cases (return r) = inl (r, refl)
Next-cases (again_after d) = inr (inl (d, refl))
Next-cases refresh_token = inr (inr refl)

-- One more call, and a pause or a refresh behind it.
called_bound :
    (left attempt : ℕ) (log xs : List Action) (out : Result × List Action)
    → 1 ≤ attempt
    → All IsShort xs
    → calls xs ≡ 0
    → refreshes xs ≤ (if attempt == 1 then 1 else 0)
    → IsBounded left (suc attempt) ((log ++ call attempt ∷ []) ++ xs) out
    → IsBounded (suc left) attempt log out
called_bound left attempt log xs out p h c f v =
    let a = calls-append (log ++ call attempt ∷ []) xs in
    let b = calls-append log (call attempt ∷ []) in
    let d = refreshes-append (log ++ call attempt ∷ []) xs in
    let g = refreshes-append log (call attempt ∷ []) in
    let one : calls (call attempt ∷ []) ≡ 1 = unfold calls in refl in
    let none_yet : refreshes (call attempt ∷ []) ≡ 0 = unfold refreshes in refl in
    record {
      reached = v.reached;
      few_calls = omega (arith, v.few_calls, a, b, one);
      few_refreshes = ground (arith, v.few_refreshes, d, g, none_yet, f);
      short_sleeps = λ s.
          v.short_sleeps
            (All-append IsShort _ xs (All-append IsShort log (call attempt ∷ []) s (tt, tt)) h);
    }

-- The loop ends here, with result `r`.
stopped_bound :
    (attempt : ℕ) (r : Result) (log : List Action)
    → r ≢ unreachable
    → IsBounded zero attempt log (r, log)
stopped_bound attempt r log h = record {
  reached = h;
  few_calls = omega arith;
  few_refreshes = omega arith;
  short_sleeps = λ s. s;
}

widen :
    (left attempt : ℕ) (log : List Action) (out : Result × List Action)
    → IsBounded zero attempt log out
    → IsBounded left attempt log out
widen left attempt log out v = record {
  reached = v.reached;
  few_calls = omega (arith, v.few_calls);
  few_refreshes = v.few_refreshes;
  short_sleeps = v.short_sleeps;
}

module _ (w : World) where
  refused-reached : (a : Attempt) → refused w a ≢ unreachable
  refused-reached (transport_error e) = ground arith
  refused-reached (answered r) = ground arith

  call_from-IsBounded :
      (left attempt : ℕ) (log : List Action)
      → attempt + left ≡ suc max_attempts
      → 1 ≤ left
      → 1 ≤ attempt
      → IsBounded left attempt log (call_from w left attempt log)
  unfolding call_from
  call_from-IsBounded zero attempt log e h p = absurd (omega arith)
  call_from-IsBounded (suc left) attempt log e h p =
      let fair = after_attempt-IsFair w attempt (w.upstream attempt) in
      let called = log ++ call attempt ∷ [] in
      elim (Next-cases (after_attempt w attempt (w.upstream attempt))) [
        | inl (r, n) ↦
            rw (n, call_from)
              (called_bound left attempt log [] (r, called) p tt (unfold calls in refl)
                (unfold refreshes in omega arith)
                (rw append-nil (
                  widen left (suc attempt) called _
                    (stopped_bound (suc attempt) r called (subst (IsFair attempt) n fair)))))
        | inr (inl (d, n)) ↦
            let f = subst (IsFair attempt) n fair in
            rw (n, call_from)
              (called_bound left attempt log (sleep d ∷ []) _ p (f.1, tt) (unfold calls in refl)
                (unfold refreshes in omega arith)
                (elim (Bool-cases (w.sleep_ok attempt)) [
                  | inl k ↦
                      rw (k, call_from)
                        (call_from-IsBounded left (suc attempt) _ (omega arith) (omega (arith, f.0))
                          (omega arith))
                  | inr k ↦
                      rw (k, call_from)
                        (widen left (suc attempt) _ _
                          (stopped_bound (suc attempt) cancelled _ (ground arith)))
                ]))
        | inr (inr n) ↦
            let f : attempt ≡ 1 = subst (IsFair attempt) n fair in
            rw (n, call_from)
              (called_bound left attempt log (refresh ∷ []) _ p (tt, tt) (unfold calls in refl)
                (unfold refreshes in rw f (omega arith))
                (elim (Bool-cases w.refresh_ok) [
                  | inl k ↦
                      rw (k, call_from)
                        (call_from-IsBounded left (suc attempt) _ (omega arith) (omega (arith, f))
                          (omega arith))
                  | inr k ↦
                      rw (k, call_from)
                        (widen left (suc attempt) _ _
                          (stopped_bound (suc attempt) _ _ (refused-reached (w.upstream attempt))))
                ]))
      ]

  -- Whatever the upstream answers, `callUpstream` returns a reply, an error or the cancellation and
  -- never falls out of its loop; it makes at most four calls and at most one forced refresh, and no
  -- single wait is longer than thirty seconds.
  pub call_upstream_bounds :
      ((call_upstream w).0 ≢ unreachable)
      × (calls (call_upstream w).1 ≤ 4)
      × (refreshes (call_upstream w).1 ≤ 1)
      × All IsShort (call_upstream w).1
  unfolding call_upstream
  call_upstream_bounds =
      let v = call_from-IsBounded max_attempts 1 [] (omega arith) (omega arith) (omega arith) in
      (
        v.reached,
        unfold calls in v.few_calls,
        unfold refreshes in v.few_refreshes,
        v.short_sleeps tt,
      )
