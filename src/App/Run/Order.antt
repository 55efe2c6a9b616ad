-- ===== src/App/Run/Order.antt =====
-- The order in which `run` of app.go opens and closes things.
use qoder_model_gateway.Base.{
  ◌≡◌, Bool, true, false, not, ◌&&◌, Option, none, some, List, [], ◌∷◌, arith, if◌then◌else◌, ◌>>=◌,
}
use qoder_model_gateway.App.Config.{AppConfig}
use qoder_model_gateway.App.Run.{
  Action, open_services, open_auth, device_login, pat_login, load_credentials, ensure_fresh,
  start_ticker, load_catalog, start_server, serve, cancel, stop_ticker, close_admission, shutdown,
  force_close, wait_handlers, close_auth, close_services, Works, serve_requests, read_catalog,
  use_credentials, with_auth, with_services, body, join_ticker, stop_server, join_server, drop_auth,
  drop_services, clean_up, run_app,
}

-- What an observer knows to be open.
pub record Open : Type 0 where
  pub services : Bool
  pub auth : Bool
  pub ticker : Bool
  pub server : Bool
  pub admitting : Bool

abbrev pub all_closed : Open
all_closed = record {
  services = false;
  auth = false;
  ticker = false;
  server = false;
  admitting = false;
}

abbrev only_if : Bool → Open → Option Open
only_if b o = if b then some o else none

-- An action that comes at a wrong time is refused: whatever uses the account manager needs it open, the
-- account manager is opened above the services and closed before them, and neither is closed while the
-- ticker or a handler may use it. The server stops in the order admission, shutdown, handlers.
unfoldable pub observe : Action → Open → Option Open
observe open_services o = only_if (not o.services) (record o { services = true })
observe open_auth o = only_if (o.services && not o.auth) (record o { auth = true })
observe device_login o = only_if o.auth o
observe pat_login o = only_if o.auth o
observe load_credentials o = only_if o.auth o
observe ensure_fresh o = only_if o.auth o
observe start_ticker o = only_if (o.auth && not o.ticker) (record o { ticker = true })
observe load_catalog o = only_if o.services o
observe start_server o =
    only_if (o.auth && not o.server) (record o { server = true; admitting = true })
observe serve o = only_if o.server o
observe cancel o = some o
observe stop_ticker o = only_if o.ticker (record o { ticker = false })
observe close_admission o = only_if (o.server && o.admitting) (record o { admitting = false })
observe shutdown o = only_if (o.server && not o.admitting) o
observe force_close o = only_if (o.server && not o.admitting) o
observe wait_handlers o = only_if (o.server && not o.admitting) (record o { server = false })
observe close_auth o =
    only_if (o.auth && (not o.ticker && not o.server)) (record o { auth = false })
observe close_services o = only_if (o.services && not o.auth) (record o { services = false })

unfoldable pub observe_all : List Action → Open → Option Open
observe_all [] o = some o
observe_all (a ∷ actions) o = observe a o >>= observe_all actions

-- Whatever is configured and whatever fails: `run` does everything at a time when it may, and at its end
-- everything that it opened is closed again.
pub run_app_order :
    (c : AppConfig) (w : Works) → observe_all (run_app c w).actions all_closed ≡ some all_closed
unfolding run_app body with_services with_auth use_credentials read_catalog serve_requests clean_up
    join_ticker join_server stop_server drop_auth drop_services observe observe_all
run_app_order c w = ground arith
