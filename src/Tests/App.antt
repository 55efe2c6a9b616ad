-- ===== src/Tests/App.antt =====
-- Runs of the process and its guard at concrete inputs.
use qoder_model_gateway.Base.{◌≡◌, refl, true, false, none, some, List, [], ◌∷◌, Text, codes}
use qoder_model_gateway.App.Config.{AppConfig, Env, Flags, parse_app_config}
use qoder_model_gateway.App.Guard.{
  Request, Parsers, Event, arrives, leaves, new_guard, run as run_guard,
}
use qoder_model_gateway.App.Guard.Slots.{IsGuarded, run-IsGuarded}
use qoder_model_gateway.App.Run.{Works, run_app}
use qoder_model_gateway.App.Run.Order.{observe_all, all_closed, run_app_order}
use qoder_model_gateway.App.Lifecycle.{
  Process, started, Reach, here, next, admit, own, serve_returns, close_admission, done,
  call_shutdown, shut_down, handlers_done, end_ticker, joined, close_auth, closing_services,
  finished, draining, signal,
}
use qoder_model_gateway.App.Lifecycle.Safety.{close_auth_safe}
use qoder_model_gateway.App.Lifecycle.Liveness.{Inevitably, HasReturned, run_returns}

abbrev parsers : Parsers
parsers = record { split_host_port = λ t. some t; hostname = λ t. some t }

abbrev to_path : Text → Request
to_path p = record { host = codes "localhost"; origin = []; path = p }

abbrev requests : List Event
requests =
    arrives (to_path (codes "/v1/messages")) ∷ arrives (to_path (codes "/health")) ∷ leaves 0 ∷ []

run-IsGuarded_example : IsGuarded parsers (run_guard true parsers requests new_guard)
run-IsGuarded_example = run-IsGuarded parsers requests

abbrev env : Env
env = λ k. none

abbrev flags : Flags
flags = record {
  addr = some (codes "127.0.0.1");
  sk = some (codes "0123456789abcdef0123456789abcdef");
  auth_dir = none;
  endpoint = some (codes "https://gateway.qoder.com.cn");
  openapi_endpoint = some (codes "https://openapi.qoder.com.cn");
  web_endpoint = some (codes "https://qoder.cn");
  model_map = none;
  default_model = none;
  model_1m = none;
  catalog = none;
  dump_dir = none;
  login = none;
  login_pat = none;
  read_only_auth = some true;
  context_preferences = none;
  v = none;
}

abbrev config : AppConfig
config = parse_app_config env (codes "/auth") flags

abbrev works : Works
works = record {
  auth_files = true;
  services = true;
  auth = true;
  device_login = true;
  pat_login = true;
  load = true;
  model_map = true;
  preferences = true;
  listen = false;
  shutdown = false;
  force_close = true;
  close_auth = false;
  close_services = true;
}

run_app_order_example : observe_all (run_app config works).actions all_closed ≡ some all_closed
run_app_order_example = run_app_order config works

-- A handler is active when the signal comes, and returns before the account manager is closed.
abbrev one_active : Process
one_active = record started { active = 1 }

abbrev with_one : Reach started one_active
with_one = next here (admit refl refl)

abbrev closed_process : Process
closed_process = record started {
  place = closing_services;
  stopper = finished;
  ticker_done = true;
  canceled = true;
  closing = true;
  auth_closed = true;
}

-- The signal has come.
abbrev with_signal : Reach started (record one_active { canceled = true })
with_signal = next with_one (signal refl)

abbrev with_shutdown :
    Reach started (record one_active { canceled = true; stopper = draining; closing = true })
with_shutdown =
    next (next with_signal (own (close_admission refl refl refl))) (own (call_shutdown refl refl))

abbrev to_closed : Reach started closed_process
to_closed =
    next
      (next
        (next
          (next
            (next
              (next (next with_shutdown (own (serve_returns refl refl refl)))
                (own (done 0 refl refl)))
              (own (shut_down refl refl)))
            (own (handlers_done refl refl refl)))
          (own (end_ticker refl refl refl)))
        (own (joined refl refl refl refl)))
      (own (close_auth refl refl))

close_auth_safe_example :
    (closed_process.active ≡ 0)
    × (closed_process.closing ≡ true)
    × (closed_process.ticker_done ≡ true)
close_auth_safe_example = close_auth_safe closed_process to_closed refl

run_returns_example : Inevitably HasReturned (record one_active { canceled = true })
run_returns_example = run_returns (record one_active { canceled = true }) with_signal refl
