-- ===== src/App/Lifecycle.antt =====
-- app.go: how requests, the signal, the two goroutines of `run` and its clean-up interleave from when the
-- server listens, as a relation between states. `handlerAdmissionGate` is in it: `wrap` admits or
-- refuses a request and counts the active ones, `closeAdmission` sets `closing`, and `wait` returns when
-- no handler is active.
pub mod Safety
pub mod Liveness
use qoder_model_gateway.Base.{
  ℕ, zero, suc, ◌+◌, ◌-◌, ◌*◌, ◌/◌, ◌%◌, ◌^◌, ◌≤◌, ◌<◌, ◌≡◌, refl, sym, ap, ◌∙◌, ◌≢◌, ◌↔◌, ◌⊎◌, inl,
  inr, Bool, true, false, not, ◌&&◌, ◌||◌, Option, none, some, List, [], ◌∷◌, ◌++◌, map, append-nil,
  append_assoc, arith, ltb, leb, ◌==◌, if◌then◌else◌, ltb→lt, lt→ltb, leb→le, ==_iff, Bool-cases,
  Option-cases, is_some, ◌>>=◌, length, get_elem?, take, drop, replicate, is_nil, get_last?,
  length-append, take-append-drop, length-take, length-drop, length-replicate, take-append_exact,
  drop-append_exact, All, All-append, Text, codes, text_eq, text_eq_iff, text_eq_refl, has_prefix,
  trim_prefix, has_prefix-append, has_suffix, trim_suffix, join, is_space, trim_left, trim_right,
  trim_space,
}

-- Where `run` is: it listens, it waits for its goroutines, it closes, it has returned.
pub data Place : Type 0 where
  listening joining closing_auth closing_services returned : Place

-- Where the goroutine is that stops the server: it waits for the context, it has closed the admission, it is
-- in `Shutdown`, it waits for the handlers, it has ended.
pub data Stopper : Type 0 where
  idle shutting_down draining waiting finished : Stopper

pub record Process : Type 0 where
  pub place : Place
  pub stopper : Stopper
  pub ticker_done : Bool
  pub canceled : Bool
  pub closing : Bool
  pub active : ℕ
  pub auth_closed : Bool
  pub services_closed : Bool

abbrev pub started : Process
started = record {
  place = listening;
  stopper = idle;
  ticker_done = false;
  canceled = false;
  closing = false;
  active = 0;
  auth_closed = false;
  services_closed = false;
}

-- `Shutdown` was called, so `ListenAndServe` returns.
abbrev pub is_shut : Stopper → Bool
is_shut idle = false
is_shut shutting_down = false
is_shut _ = true

-- What the process does by itself.
pub data Own (p : Process) (q : Process) : Type 0 where
  -- The return of an admitted handler.
  done : (n : ℕ) → p.active ≡ suc n → q ≡ record p { active = n } → Own p q
  -- The goroutine of the ticker ends.
  end_ticker :
      p.ticker_done ≡ false → p.canceled ≡ true → q ≡ record p { ticker_done = true } → Own p q
  -- The goroutine that stops the server.
  close_admission :
      p.stopper ≡ idle
      → p.canceled ≡ true
      → q ≡ record p { stopper = shutting_down; closing = true }
      → Own p q
  call_shutdown : p.stopper ≡ shutting_down → q ≡ record p { stopper = draining } → Own p q
  shut_down : p.stopper ≡ draining → q ≡ record p { stopper = waiting } → Own p q
  handlers_done : p.stopper ≡ waiting → p.active ≡ 0 → q ≡ record p { stopper = finished } → Own p q
  -- `listenAndServe` returns after `Shutdown` was called, and the deferred function runs.
  serve_returns :
      p.place ≡ listening
      → is_shut p.stopper ≡ true
      → q ≡ record p { place = joining; canceled = true }
      → Own p q
  joined :
      p.place ≡ joining
      → p.stopper ≡ finished
      → p.ticker_done ≡ true
      → q ≡ record p { place = closing_auth }
      → Own p q
  close_auth :
      p.place ≡ closing_auth
      → q ≡ record p { place = closing_services; auth_closed = true }
      → Own p q
  close_services :
      p.place ≡ closing_services
      → q ≡ record p { place = returned; services_closed = true }
      → Own p q

pub data Step (p : Process) (q : Process) : Type 0 where
  own : Own p q → Step p q
  -- `wrap` for a request: admitted, or refused with 503.
  admit : p.closing ≡ false → q ≡ record p { active = suc p.active } → Step p q
  refuse : p.closing ≡ true → q ≡ p → Step p q
  -- A signal or the parent cancels the context.
  signal : q ≡ record p { canceled = true } → Step p q
  -- The ticker's goroutine refreshes the token.
  tick : p.ticker_done ≡ false → q ≡ p → Step p q
  -- `listenAndServe` returns with an error, and the deferred function runs.
  listen_fails : p.place ≡ listening → q ≡ record p { place = joining; canceled = true } → Step p q

pub data Reach (p : Process) : Process → Type 0 where
  here : Reach p p
  next : {q r : Process} → Reach p q → Step q r → Reach p r
