-- ===== src/App/Run.antt =====
-- app.go: `run`, from the first check to the last clean-up, as the list of what it does. Whether each
-- thing it calls works is a parameter.
pub mod Order
use qoder_model_gateway.Base.{
  ℕ, zero, suc, ◌+◌, ◌-◌, ◌*◌, ◌/◌, ◌%◌, ◌^◌, ◌≤◌, ◌<◌, ◌≡◌, refl, sym, ap, ◌∙◌, ◌≢◌, ◌↔◌, ◌⊎◌, inl,
  inr, Bool, true, false, not, ◌&&◌, ◌||◌, Option, none, some, List, [], ◌∷◌, ◌++◌, map, append-nil,
  append_assoc, arith, ltb, leb, ◌==◌, if◌then◌else◌, ltb→lt, lt→ltb, leb→le, ==_iff, Bool-cases,
  Option-cases, is_some, ◌>>=◌, length, get_elem?, take, drop, replicate, is_nil, get_last?,
  length-append, take-append-drop, length-take, length-drop, length-replicate, take-append_exact,
  drop-append_exact, All, All-append, Text, codes, text_eq, text_eq_iff, text_eq_refl, has_prefix,
  trim_prefix, has_prefix-append, has_suffix, trim_suffix, join, is_space, trim_left, trim_right,
  trim_space,
}
use qoder_model_gateway.App.Config.{AppConfig}

-- What `run` does with something that outlasts the call, and what it starts.
pub data Action : Type 0 where
  open_services open_auth device_login pat_login load_credentials : Action
  ensure_fresh start_ticker load_catalog start_server serve cancel : Action
  stop_ticker close_admission shutdown force_close wait_handlers : Action
  close_auth close_services : Action

pub data AppError : Type 0 where
  read_only no_auth_files init_services init_auth login_failed no_credentials : AppError
  invalid_model_map invalid_preferences server_failed : AppError
  shutdown_failed force_close_failed close_auth_failed close_services_failed : AppError

-- Which of the calls work.
pub record Works : Type 0 where
  pub auth_files : Bool
  pub services : Bool
  pub auth : Bool
  pub device_login : Bool
  pub pat_login : Bool
  pub load : Bool
  pub model_map : Bool
  pub preferences : Bool
  pub listen : Bool
  pub shutdown : Bool
  pub force_close : Bool
  pub close_auth : Bool
  pub close_services : Bool

-- What `run` has when it returns: its error, which is nil when the list is empty, and what it did; and
-- what is there for the deferred clean-up.
pub record Running : Type 0 where
  pub errors : List AppError
  pub actions : List Action
  pub has_services : Bool
  pub has_auth : Bool
  pub has_ticker : Bool
  pub has_server : Bool

abbrev pub nothing : Running
nothing = record {
  errors = [];
  actions = [];
  has_services = false;
  has_auth = false;
  has_ticker = false;
  has_server = false;
}

abbrev pub act : Action → Running → Running
act a r = record r { actions = r.actions ++ a ∷ [] }

abbrev pub fail : AppError → Running → Running
fail e r = record r { errors = r.errors ++ e ∷ [] }

abbrev pub check : Bool → AppError → Running → Running
check b e r = if b then r else fail e r

-- `listenAndServe` returns when the context is done or with an error.
unfoldable pub serve_requests : Works → Running → Running
serve_requests w r =
    check w.listen server_failed (act serve (record (act start_server r) { has_server = true }))

unfoldable pub read_catalog : Works → Running → Running
read_catalog w r =
    if not w.model_map
    then fail invalid_model_map r
    else if not w.preferences
    then fail invalid_preferences (act load_catalog r)
    else serve_requests w (act load_catalog r)

unfoldable pub use_credentials : Works → Running → Running
use_credentials w r =
    if w.load
    then read_catalog w (record (act start_ticker (act ensure_fresh (act load_credentials r))) {
      has_ticker = true;
    })
    else fail no_credentials (act load_credentials r)

unfoldable pub with_auth : AppConfig → Works → Running → Running
with_auth c w r =
    if c.login
    then check w.device_login login_failed (act device_login r)
    else if not (is_nil c.login_pat)
    then check w.pat_login login_failed (act pat_login r)
    else use_credentials w r

unfoldable pub with_services : AppConfig → Works → Running → Running
with_services c w r =
    if w.auth
    then with_auth c w (record (act open_auth r) { has_auth = true })
    else fail init_auth r

unfoldable pub body : AppConfig → Works → Running
body c w =
    if w.services
    then with_services c w (record (act open_services nothing) { has_services = true })
    else fail init_services nothing

-- The goroutines that `wg.Wait` waits for: the refreshing one, and the one that stops the server. They
-- end in any order; App.Lifecycle has their interleavings.
unfoldable pub join_ticker : Running → Running
join_ticker r = if r.has_ticker then record (act stop_ticker r) { has_ticker = false } else r

unfoldable pub stop_server : Works → Running → Running
stop_server w r =
    let s = act shutdown (act close_admission r) in
    if w.shutdown
    then s
    else check w.force_close force_close_failed (act force_close (fail shutdown_failed s))

unfoldable pub join_server : Works → Running → Running
join_server w r =
    if r.has_server then record (act wait_handlers (stop_server w r)) { has_server = false } else r

unfoldable pub drop_auth : Works → Running → Running
drop_auth w r =
    if r.has_auth
    then record (check w.close_auth close_auth_failed (act close_auth r)) { has_auth = false }
    else r

unfoldable pub drop_services : Works → Running → Running
drop_services w r =
    if r.has_services
    then record (check w.close_services close_services_failed (act close_services r)) {
      has_services = false;
    }
    else r

-- The deferred function of `run`.
unfoldable pub clean_up : Works → Running → Running
clean_up w r = drop_services w (drop_auth w (join_server w (join_ticker (act cancel r))))

unfoldable pub run_app : AppConfig → Works → Running
run_app c w =
    if c.read_only_auth && (c.login || not (is_nil c.login_pat))
    then fail read_only nothing
    else if c.read_only_auth && not w.auth_files
    then fail no_auth_files nothing
    else clean_up w (body c w)
