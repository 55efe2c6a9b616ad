-- ===== src/App/Lifecycle/Safety.antt =====
-- What holds at every moment of the process of app.go, and that it comes to its end.
use qoder_model_gateway.Base.{◌≡◌, refl, ap, ◌∙◌, Bool, true, false, arith}
use qoder_model_gateway.App.Lifecycle.{
  Place, listening, joining, closing_services, returned, Stopper, idle, finished, Process, started,
  Own, Step, own, admit, refuse, signal, tick, listen_fails, Reach, here, next,
}

abbrev pub is_stopping : Stopper → Bool
is_stopping idle = false
is_stopping _ = true

abbrev pub is_finished : Stopper → Bool
is_finished finished = true
is_finished _ = false

-- After the goroutines have ended.
abbrev pub is_late : Place → Bool
is_late listening = false
is_late joining = false
is_late _ = true

abbrev pub is_listening : Place → Bool
is_listening listening = true
is_listening _ = false

pub record IsOrderly (p : Process) : Type 0 where
  pub gate : p.closing ≡ is_stopping p.stopper
  pub quiet : is_finished p.stopper ≡ true → p.active ≡ 0
  pub ended : is_late p.place ≡ true → (p.stopper ≡ finished) × (p.ticker_done ≡ true)
  pub auth_late : p.auth_closed ≡ true → is_late p.place ≡ true
  pub returned_closed : p.place ≡ returned → p.services_closed ≡ true
  pub auth_next : p.place ≡ closing_services → p.auth_closed ≡ true
  pub auth_late_closed : p.place ≡ returned → p.auth_closed ≡ true
  pub stops : is_listening p.place ≡ false → p.canceled ≡ true

pub Own-IsOrderly : (p q : Process) → Own p q → IsOrderly p → IsOrderly q
Own-IsOrderly p q s v = record {
  gate =
      ground
        (arith, v.gate, v.quiet, v.ended, v.auth_late, v.returned_closed, v.auth_next, v.stops, s);
  quiet =
      ground
        (arith, v.gate, v.quiet, v.ended, v.auth_late, v.returned_closed, v.auth_next, v.stops, s);
  ended =
      ground
        (arith, v.gate, v.quiet, v.ended, v.auth_late, v.returned_closed, v.auth_next, v.stops, s);
  auth_late =
      ground
        (arith, v.gate, v.quiet, v.ended, v.auth_late, v.returned_closed, v.auth_next, v.stops, s);
  returned_closed =
      ground
        (arith, v.gate, v.quiet, v.ended, v.auth_late, v.returned_closed, v.auth_next, v.stops, s);
  auth_next =
      ground
        (arith, v.gate, v.quiet, v.ended, v.auth_late, v.returned_closed, v.auth_next, v.stops, s);
  auth_late_closed =
      ground
        (arith, v.gate, v.quiet, v.ended, v.auth_late, v.returned_closed, v.auth_next, v.stops, s);
  stops =
      ground
        (arith, v.gate, v.quiet, v.ended, v.auth_late, v.returned_closed, v.auth_next, v.stops, s);
}

Step-IsOrderly : (p q : Process) → Step p q → IsOrderly p → IsOrderly q
Step-IsOrderly p q (own o) v = Own-IsOrderly p q o v
Step-IsOrderly p q (admit h e) v = record {
  gate =
      ground (
        arith, v.gate, v.quiet, v.ended, v.auth_late, v.returned_closed, v.auth_next, v.stops, h, e,
      );
  quiet =
      ground (
        arith, v.gate, v.quiet, v.ended, v.auth_late, v.returned_closed, v.auth_next, v.stops, h, e,
      );
  ended =
      ground (
        arith, v.gate, v.quiet, v.ended, v.auth_late, v.returned_closed, v.auth_next, v.stops, h, e,
      );
  auth_late =
      ground (
        arith, v.gate, v.quiet, v.ended, v.auth_late, v.returned_closed, v.auth_next, v.stops, h, e,
      );
  returned_closed =
      ground (
        arith, v.gate, v.quiet, v.ended, v.auth_late, v.returned_closed, v.auth_next, v.stops, h, e,
      );
  auth_next =
      ground (
        arith, v.gate, v.quiet, v.ended, v.auth_late, v.returned_closed, v.auth_next, v.stops, h, e,
      );
  auth_late_closed =
      ground (
        arith, v.gate, v.quiet, v.ended, v.auth_late, v.returned_closed, v.auth_next, v.stops, h, e,
      );
  stops =
      ground (
        arith, v.gate, v.quiet, v.ended, v.auth_late, v.returned_closed, v.auth_next, v.stops, h, e,
      );
}
Step-IsOrderly p q (refuse h e) v = record {
  gate =
      ground (
        arith, v.gate, v.quiet, v.ended, v.auth_late, v.returned_closed, v.auth_next, v.stops, h, e,
      );
  quiet =
      ground (
        arith, v.gate, v.quiet, v.ended, v.auth_late, v.returned_closed, v.auth_next, v.stops, h, e,
      );
  ended =
      ground (
        arith, v.gate, v.quiet, v.ended, v.auth_late, v.returned_closed, v.auth_next, v.stops, h, e,
      );
  auth_late =
      ground (
        arith, v.gate, v.quiet, v.ended, v.auth_late, v.returned_closed, v.auth_next, v.stops, h, e,
      );
  returned_closed =
      ground (
        arith, v.gate, v.quiet, v.ended, v.auth_late, v.returned_closed, v.auth_next, v.stops, h, e,
      );
  auth_next =
      ground (
        arith, v.gate, v.quiet, v.ended, v.auth_late, v.returned_closed, v.auth_next, v.stops, h, e,
      );
  auth_late_closed =
      ground (
        arith, v.gate, v.quiet, v.ended, v.auth_late, v.returned_closed, v.auth_next, v.stops, h, e,
      );
  stops =
      ground (
        arith, v.gate, v.quiet, v.ended, v.auth_late, v.returned_closed, v.auth_next, v.stops, h, e,
      );
}
Step-IsOrderly p q (signal e) v = record {
  gate =
      ground
        (arith, v.gate, v.quiet, v.ended, v.auth_late, v.returned_closed, v.auth_next, v.stops, e);
  quiet =
      ground
        (arith, v.gate, v.quiet, v.ended, v.auth_late, v.returned_closed, v.auth_next, v.stops, e);
  ended =
      ground
        (arith, v.gate, v.quiet, v.ended, v.auth_late, v.returned_closed, v.auth_next, v.stops, e);
  auth_late =
      ground
        (arith, v.gate, v.quiet, v.ended, v.auth_late, v.returned_closed, v.auth_next, v.stops, e);
  returned_closed =
      ground
        (arith, v.gate, v.quiet, v.ended, v.auth_late, v.returned_closed, v.auth_next, v.stops, e);
  auth_next =
      ground
        (arith, v.gate, v.quiet, v.ended, v.auth_late, v.returned_closed, v.auth_next, v.stops, e);
  auth_late_closed =
      ground
        (arith, v.gate, v.quiet, v.ended, v.auth_late, v.returned_closed, v.auth_next, v.stops, e);
  stops =
      ground
        (arith, v.gate, v.quiet, v.ended, v.auth_late, v.returned_closed, v.auth_next, v.stops, e);
}
Step-IsOrderly p q (tick h e) v = record {
  gate =
      ground (
        arith, v.gate, v.quiet, v.ended, v.auth_late, v.returned_closed, v.auth_next, v.stops, h, e,
      );
  quiet =
      ground (
        arith, v.gate, v.quiet, v.ended, v.auth_late, v.returned_closed, v.auth_next, v.stops, h, e,
      );
  ended =
      ground (
        arith, v.gate, v.quiet, v.ended, v.auth_late, v.returned_closed, v.auth_next, v.stops, h, e,
      );
  auth_late =
      ground (
        arith, v.gate, v.quiet, v.ended, v.auth_late, v.returned_closed, v.auth_next, v.stops, h, e,
      );
  returned_closed =
      ground (
        arith, v.gate, v.quiet, v.ended, v.auth_late, v.returned_closed, v.auth_next, v.stops, h, e,
      );
  auth_next =
      ground (
        arith, v.gate, v.quiet, v.ended, v.auth_late, v.returned_closed, v.auth_next, v.stops, h, e,
      );
  auth_late_closed =
      ground (
        arith, v.gate, v.quiet, v.ended, v.auth_late, v.returned_closed, v.auth_next, v.stops, h, e,
      );
  stops =
      ground (
        arith, v.gate, v.quiet, v.ended, v.auth_late, v.returned_closed, v.auth_next, v.stops, h, e,
      );
}
Step-IsOrderly p q (listen_fails h e) v = record {
  gate =
      ground (
        arith, v.gate, v.quiet, v.ended, v.auth_late, v.returned_closed, v.auth_next, v.stops, h, e,
      );
  quiet =
      ground (
        arith, v.gate, v.quiet, v.ended, v.auth_late, v.returned_closed, v.auth_next, v.stops, h, e,
      );
  ended =
      ground (
        arith, v.gate, v.quiet, v.ended, v.auth_late, v.returned_closed, v.auth_next, v.stops, h, e,
      );
  auth_late =
      ground (
        arith, v.gate, v.quiet, v.ended, v.auth_late, v.returned_closed, v.auth_next, v.stops, h, e,
      );
  returned_closed =
      ground (
        arith, v.gate, v.quiet, v.ended, v.auth_late, v.returned_closed, v.auth_next, v.stops, h, e,
      );
  auth_next =
      ground (
        arith, v.gate, v.quiet, v.ended, v.auth_late, v.returned_closed, v.auth_next, v.stops, h, e,
      );
  auth_late_closed =
      ground (
        arith, v.gate, v.quiet, v.ended, v.auth_late, v.returned_closed, v.auth_next, v.stops, h, e,
      );
  stops =
      ground (
        arith, v.gate, v.quiet, v.ended, v.auth_late, v.returned_closed, v.auth_next, v.stops, h, e,
      );
}

started-IsOrderly : IsOrderly started
started-IsOrderly = record {
  gate = refl;
  quiet = λ h. refl;
  ended = λ h. ground (arith, h);
  auth_late = λ h. ground (arith, h);
  returned_closed = λ h. ground (arith, h);
  auth_next = λ h. ground (arith, h);
  auth_late_closed = λ h. ground (arith, h);
  stops = λ h. ground (arith, h);
}

pub Reach-IsOrderly : {p : Process} → Reach started p → IsOrderly p
Reach-IsOrderly here = started-IsOrderly
Reach-IsOrderly (next r s) = Step-IsOrderly _ _ s (Reach-IsOrderly r)

-- In whatever order requests come, handlers return, the signal arrives and the goroutines run: once the
-- account manager is closed, no handler is active, none can be admitted, and the ticker has ended.
pub close_auth_safe :
    (p : Process)
    → Reach started p
    → p.auth_closed ≡ true
    → (p.active ≡ 0) × (p.closing ≡ true) × (p.ticker_done ≡ true)
close_auth_safe p r h =
    let v = Reach-IsOrderly r in
    let e = v.ended (v.auth_late h) in
    (v.quiet (ap is_finished e.0), v.gate ∙ ap is_stopping e.0, e.1)
