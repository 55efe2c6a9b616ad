-- ===== src/App/Lifecycle/Liveness.antt =====
-- The process of app.go comes to its end.
use qoder_model_gateway.Base.{
  ℕ, zero, suc, ◌+◌, ◌<◌, ◌≡◌, refl, ap, ◌⊎◌, inl, inr, true, not, ◌||◌, arith, if◌then◌else◌,
  Bool-cases,
}
use qoder_model_gateway.App.Lifecycle.{
  is_shut, Place, listening, joining, closing_auth, closing_services, returned, Stopper, idle,
  shutting_down, draining, waiting, finished, Process, started, Own, Reach, done, end_ticker,
  close_admission, call_shutdown, shut_down, handlers_done, serve_returns, joined, close_auth,
  close_services,
}
use qoder_model_gateway.App.Lifecycle.Safety.{
  is_listening, IsOrderly, Own-IsOrderly, Reach-IsOrderly,
}

-- However the own steps are ordered, the process comes to a state with P: it is one, or some own step can be
-- made, and after each one that can be made it comes to one.
pub data Inevitably (P : Process → Type 0) : Process → Type 0 where
  now : {p : Process} → P p → Inevitably P p
  later :
      {p : Process} (q : Process)
      → Own p q
      → ((r : Process) → Own p r → Inevitably P r)
      → Inevitably P p

abbrev places_left : Place → ℕ
places_left listening = 4
places_left joining = 3
places_left closing_auth = 2
places_left closing_services = 1
places_left returned = 0

abbrev stops_left : Stopper → ℕ
stops_left idle = 4
stops_left shutting_down = 3
stops_left draining = 2
stops_left waiting = 1
stops_left finished = 0

-- The own steps that are left.
abbrev left : Process → ℕ
left p = places_left p.place + stops_left p.stopper + p.active + (if p.ticker_done then 0 else 1)

Own-left : (p q : Process) → Own p q → left q < left p
Own-left p q o = ground (arith, o)

Own-canceled : (p q : Process) → Own p q → p.canceled ≡ true → q.canceled ≡ true
Own-canceled p q o h = ground (arith, o, h)

abbrev CanStep : Process → Type 0
CanStep p = (q : Process) × Own p q

-- The goroutine that stops the server goes on until it has ended.
stopper_steps :
    (s : Stopper) (n : ℕ) (p : Process)
    → p.stopper ≡ s
    → p.active ≡ n
    → p.canceled ≡ true
    → CanStep p ⊎ (p.stopper ≡ finished)
stopper_steps idle n p e a c = inl (_, close_admission e c refl)
stopper_steps shutting_down n p e a c = inl (_, call_shutdown e refl)
stopper_steps draining n p e a c = inl (_, shut_down e refl)
stopper_steps waiting zero p e a c = inl (_, handlers_done e a refl)
stopper_steps waiting (suc n) p e a c = inl (_, done n a refl)
stopper_steps finished n p e a c = inr e

place_steps :
    (x : Place) (p : Process)
    → p.place ≡ x
    → p.canceled ≡ true
    → p.stopper ≡ finished
    → CanStep p ⊎ (p.place ≡ returned)
place_steps listening p e c f = inl (_, serve_returns e (ap is_shut f) refl)
place_steps joining p e c f = elim (Bool-cases p.ticker_done) [
  | inl t ↦ inl (_, joined e f t refl)
  | inr t ↦ inl (_, end_ticker t c refl)
]
place_steps closing_auth p e c f = inl (_, close_auth e refl)
place_steps closing_services p e c f = inl (_, close_services e refl)
place_steps returned p e c f = inr e

steps : (p : Process) → p.canceled ≡ true → CanStep p ⊎ (p.place ≡ returned)
steps p c = elim (stopper_steps p.stopper p.active p refl refl c) [
  | inl q ↦ inl q
  | inr f ↦ place_steps p.place p refl c f
]

-- `run` has returned, and everything is closed.
pub record HasReturned (p : Process) : Type 0 where
  pub at_end : p.place ≡ returned
  pub auth : p.auth_closed ≡ true
  pub services : p.services_closed ≡ true

ends :
    (n : ℕ) (p : Process) → left p < n → p.canceled ≡ true → IsOrderly p → Inevitably HasReturned p
ends zero p l c v = absurd (omega (arith, l))
ends (suc n) p l c v = elim (steps p c) [
  | inr h ↦ now (record { at_end = h; auth = v.auth_late_closed h; services = v.returned_closed h })
  | inl (q, o) ↦ later q o (λ r s.
      ends n r (omega (arith, l, Own-left p r s)) (Own-canceled p r s c) (Own-IsOrderly p r s v))
]

-- From every state that can be reached in which the context is canceled or the server has stopped listening,
-- for a failure or a shutdown, and whatever handlers are active: however the handlers' returns and the
-- steps of the goroutines and of `run` are ordered, with no request and nothing else from outside between
-- them, one can be made until `run` has returned with everything closed, and that is so after finitely
-- many of them.
pub run_returns :
    (p : Process)
    → Reach started p
    → (p.canceled || not (is_listening p.place)) ≡ true
    → Inevitably HasReturned p
run_returns p r h =
    let v = Reach-IsOrderly r in ends (suc (left p)) p (omega arith) (ground (arith, h, v.stops)) v
