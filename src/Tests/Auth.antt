-- ===== src/Tests/Auth.antt =====
-- Runs of the account manager at concrete answers.
use qoder_model_gateway.Base.{
  ℕ, ◌+◌, ◌%◌, ◌≡◌, refl, true, false, ◌&&◌, none, some, List, [], ◌∷◌, ◌++◌, ltb, ◌==◌,
  if◌then◌else◌, is_some, codes,
}
use qoder_model_gateway.Base.Int.{pos, add64, wrap64, ◌+ℤ◌}
use qoder_model_gateway.Codec.Errors.{plain, Result, ok, err}
use qoder_model_gateway.Auth.User.{
  UserInfo, Login, RefreshAnswer, DeviceAnswer, Profile, RuntimeFieldOutput, device_candidate,
  parse_expiry, context_config, runtime_field_input, token_of,
}
use qoder_model_gateway.Auth.Manager.{
  AuthManager, World, answered, new_auth_manager, no_outside, adopt, replace_context, release_old,
}
use qoder_model_gateway.Auth.Refresh.{refresh_locked}
use qoder_model_gateway.Auth.Login.{
  log_in, commit_login_candidate, build_context, log_in_as, fill_fields, accept_fields,
  make_context, store_candidate, count_context, is_current, settle,
}
use qoder_model_gateway.Auth.Store.{stage_credential, encode_user, publish, store}
use qoder_model_gateway.Auth.Operation.{Operation, run, step}
use qoder_model_gateway.Auth.Ownership.{count, bit, held, run_ownership, run_close_liveness}
use qoder_model_gateway.Auth.Shared.{run_read_only}
use qoder_model_gateway.Auth.Durable.{IsSaved, run_durable}
use qoder_model_gateway.Auth.Rotation.{token_in, refresh_locked-token}

abbrev device_answer : DeviceAnswer
device_answer = record {
  token = codes "t";
  refresh_token = codes "r";
  expires_at = [];
  expires_in = pos 100;
  refresh_expires_at = [];
  refresh_expires_in = pos 0;
  user_id = codes "u";
  user_name = codes "n";
}

abbrev refresh_answer : RefreshAnswer
refresh_answer = record {
  device_token = codes "t2";
  token = [];
  refresh_token = codes "r2";
  expires_at = [];
  expires_in = pos 100;
  refresh_exp_at = [];
  refresh_exp_in = pos 0;
}

abbrev profile : Profile
profile = record {
  uid = [];
  name = codes "n2";
  email = [];
  org_id = [];
  org_name = [];
  org_tags = [];
}

-- Every second answer of the generator fails.
abbrev generate : ℕ → Result RuntimeFieldOutput
generate k =
    if k % 2 == 0
    then ok (record { encrypt_user_info = codes "e"; key = codes "k" })
    else err (plain (codes "no"))

abbrev user_info : UserInfo
user_info = record {
  uid = codes "u";
  name = codes "n";
  email = [];
  avatar_url = [];
  org_id = [];
  org_name = [];
  org_tags = [];
  data_policy_agreed = false;
  is_data_policy_modifiable = false;
  security_oauth_token = codes "t";
  access_token = codes "t";
  refresh_token = codes "r";
  expire_time = pos 100;
  refresh_token_expire_time = pos 0;
  login_method = [];
  login_timestamp = pos 0;
  encrypt_user_info = [];
  key = [];
  personal_access_token = [];
}

abbrev pub world : World
world = record {
  decrypt = λ k t. ok t;
  encrypt = λ k t. ok t;
  unmarshal = λ t. ok user_info;
  marshal = λ u. ok u.security_oauth_token;
  write_temp = λ k. none;
  rename = λ k. none;
  generate = λ k i. generate k;
  new_context = λ k u. none;
  close_context = λ k. none;
  request = λ k. answered 200 (codes "body");
  refresh_answer = λ t. ok refresh_answer;
  device_answer = λ t. ok device_answer;
  exchange_answer = λ t. err (plain (codes "no"));
  profile = λ t. ok profile;
  parse_time = λ t. none;
  now = λ k. pos 50;
  clock = λ k. pos 50;
}

abbrev login : Login
login = record { object = 0; info = user_info }

abbrev pub operations : List Operation
operations =
    Operation.log_in_op device_answer
    ∷ Operation.force_refresh_op
    ∷ Operation.prepare_op
    ∷ Operation.load_op
    ∷ []

abbrev logged_in_manager : AuthManager
logged_in_manager = record (new_auth_manager false none) { ui = some login }

run_ownership_example :
    let c = (run world operations (new_auth_manager false none)).contexts in
    (count 0 c.released + held 0 c.proto_ctx ≡ bit (ltb 0 c.made))
    × ((c.closed && is_some c.proto_ctx) ≡ false)
run_ownership_example = run_ownership world false none operations 0

run_close_liveness_example :
    let s =
      run world (operations ++ Operation.close_op ∷ operations) (new_auth_manager false none) in
    (s.contexts.closed ≡ true)
    × (s.contexts.proto_ctx ≡ none)
    × (count 1 s.contexts.released ≡ bit (ltb 1 s.contexts.made))
run_close_liveness_example = run_close_liveness world false none operations operations 1

run_read_only_example :
    let s = run world operations (new_auth_manager true (some (codes "{}"))) in
    (s.outside ≡ no_outside (some (codes "{}"))) × (s.credential_dirty ≡ false)
run_read_only_example = run_read_only world (some (codes "{}")) operations

abbrev committed : AuthManager
committed = run world (Operation.log_in_op device_answer ∷ []) (new_auth_manager false none)

abbrev committed_login : Login
committed_login = record {
  object = 0;
  info = record user_info {
    expire_time = pos 150;
    login_method = codes "browser";
    login_timestamp = pos 50;
    encrypt_user_info = codes "e";
    key = codes "k";
  };
}

run_durable_example : IsSaved world committed.outside.file committed_login.info
unfolding run step log_in log_in_as commit_login_candidate build_context fill_fields
    device_candidate accept_fields make_context store_candidate count_context is_current
    stage_credential encode_user settle publish adopt store replace_context release_old parse_expiry
    context_config runtime_field_input add64 wrap64 ◌+ℤ◌
run_durable_example =
    run_durable world none (Operation.log_in_op device_answer ∷ []) committed_login refl refl

refresh_locked-token_example : token_in (refresh_locked world logged_in_manager).1.ui ≡ codes "r2"
unfolding token_of
refresh_locked-token_example =
    refresh_locked-token world logged_in_manager login (codes "body") refresh_answer refl refl refl
      refl refl refl refl refl
