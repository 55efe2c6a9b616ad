-- ===== src/Tests/Server.antt =====
-- Runs of the handlers' shared parts at concrete inputs.
use qoder_model_gateway.Base.{
  ℕ, ◌≡◌, refl, ◌≢◌, ◌↔◌, ◌⊎◌, true, none, some, [], ◌∷◌, ◌++◌, arith, All, Text, codes, text_eq,
  has_prefix, trim_prefix, has_suffix,
}
use qoder_model_gateway.Model.Config.{ModelConfig}
use qoder_model_gateway.Model.Resolver.{
  ModelResolver, resolve, resolve_locked, model_by_identifier, find_key, synthetic,
}
use qoder_model_gateway.Retry.{
  World, answered, call_upstream, call_from, after_attempt, after_response,
}
use qoder_model_gateway.Base.Int.{pos}
use qoder_model_gateway.Server.Session.{no_sessions, serve_all, session_for, session_for_lem}
use qoder_model_gateway.Server.Access.{
  auth_ok, MessagesRequest, request, Credentials, handle, check, check_decoded, build_upstream_body,
  accept_request, forward,
}
use qoder_model_gateway.Server.Guarded.{IsListed, identifier, handle_guarded}
use qoder_model_gateway.Request.Messages.{Json, build_messages, messages_to_upstream}
use qoder_model_gateway.Request.Marker.{ensure_cache_marker, has_marker, mark_last}
use qoder_model_gateway.Server.Failures.{
  request_of, Failures, remember, forget, dump, remember_body, forget_body, dump_failure,
  use_bodies, base,
}
use qoder_model_gateway.Server.Failures.Own.{dump_failure_own}
use qoder_model_gateway.Server.Catalog.{load_catalog}
use qoder_model_gateway.Server.Catalog.Usable.{IsUsable, load_catalog-IsUsable}

-- Identifiers that tell their number.
abbrev new_uuid : ℕ → Text
new_uuid k = k ∷ []

new_uuid-injective : (i j : ℕ) → new_uuid i ≡ new_uuid j → i ≡ j
new_uuid-injective i j h = ground (arith, h)

session_for_example :
    let x = session_for new_uuid (codes "a") (serve_all new_uuid (codes "b" ∷ []) no_sessions) in
    ((session_for new_uuid (codes "b") (serve_all new_uuid (codes "c" ∷ []) x.1)).0 ≡ x.0)
    ↔ (codes "a" ≡ codes "b")
session_for_example =
    session_for_lem new_uuid new_uuid-injective (codes "b" ∷ []) (codes "c" ∷ []) (codes "a")
      (codes "b")

abbrev resolver : ModelResolver
resolver = record {
  by_key = synthetic (codes "auto") ∷ [];
  by_name = [];
  mapping = λ t. none;
  def = codes "auto";
  one_m = codes "ultimate";
}

abbrev message : MessagesRequest
message = record { model = codes "auto"; max_tokens = pos 0; stream = true; messages = [] }

-- An upstream that answers at once.
abbrev at_once : World
at_once = record {
  upstream = λ n. answered (record { status = 200; retry_after = []; body = [] });
  refresh_ok = true;
  sleep_ok = λ n. true;
  overload = λ b. none;
  parse_seconds = λ t. none;
}

abbrev headers : Credentials
headers = record { api_key = codes "key"; authorization = [] }

-- Every content is a text.
abbrev json : Json
json = record { string = λ t. some t; blocks = λ t. none; base64_ok = λ t. true }

handle_guarded_example :
    ((codes "key" ≡ codes "key") ⊎ (codes "" ≡ codes "Bearer " ++ codes "key"))
    × ((q : MessagesRequest) × (mc : ModelConfig) × (request message ≡ request q)
        × IsListed resolver (identifier q.model) mc)
unfolding handle forward check auth_ok text_eq check_decoded resolve resolve_locked
    model_by_identifier find_key synthetic has_suffix has_prefix trim_prefix accept_request
    build_upstream_body build_messages messages_to_upstream ensure_cache_marker has_marker mark_last
    call_upstream call_from after_attempt after_response
handle_guarded_example =
    handle_guarded new_uuid json (λ ms. true) resolver at_once (codes "key") headers
      (request message) no_sessions refl refl

load_catalog-IsUsable_example : All IsUsable (
    load_catalog true 1 (λ t. some (some (synthetic (codes "m")) ∷ none ∷ [], [], [])) (codes "{}"))
load_catalog-IsUsable_example =
    load_catalog-IsUsable true 1 (λ t. some (some (synthetic (codes "m")) ∷ none ∷ [], [], []))
      (codes "{}")

b_is_not_a : codes "b" ≢ codes "a"
b_is_not_a h = absurd (ground (arith, h))

-- Another request comes and goes while the first one runs.
abbrev nothing_failed : Failures
nothing_failed = record { pending = []; files = [] }

abbrev while_it_runs : Failures
while_it_runs =
    use_bodies true (λ name. true) (codes "/tmp")
      (remember (codes "b") (codes "{}") ∷ forget (codes "b") ∷ [])
      (remember_body true (λ name. true) (codes "/tmp") (codes "a") (codes "[]") nothing_failed)

abbrev dumped : Failures
dumped = dump_failure true (λ name. true) (codes "/tmp") (codes "a") (codes "busy") while_it_runs

abbrev afterwards : Failures
afterwards =
    use_bodies true (λ name. true) (codes "/tmp") (dump (codes "b") (codes "x") ∷ [])
      (forget_body true (λ name. true) (codes "/tmp") (codes "a") dumped)

dump_failure_own_example :
    (dumped.files
      ≡ (base (codes "/tmp") (codes "a") ++ codes ".error.txt", codes "busy")
        ∷ (base (codes "/tmp") (codes "a") ++ codes ".body.json", codes "[]")
        ∷ while_it_runs.files)
    × (dump_failure true (λ name. true) (codes "/tmp") (codes "a") (codes "late") afterwards
        ≡ afterwards)
unfolding request_of
dump_failure_own_example =
    dump_failure_own true (λ name. true) (codes "/tmp") (codes "a") (codes "[]") (codes "busy")
      (codes "late") (remember (codes "b") (codes "{}") ∷ forget (codes "b") ∷ [])
      (dump (codes "b") (codes "x") ∷ []) nothing_failed refl refl (λ name. refl)
      (b_is_not_a, (b_is_not_a, tt)) (b_is_not_a, tt)
