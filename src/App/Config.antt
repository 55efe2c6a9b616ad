-- ===== src/App/Config.antt =====
-- app.go, main.go and native_local.go: the configuration of the process.
use qoder_model_gateway.Base.{
  Bool, false, not, ◌&&◌, ◌||◌, Option, none, some, [], ltb, if◌then◌else◌, length, is_nil, Text,
  codes, text_eq,
}

-- `LookupEnv`: a variable that is not set is `none`.
abbrev pub Env : Type 0
Env = Text → Option Text

unfoldable pub lookup_env_or : Env → Text → Text → Text
lookup_env_or env key fallback = elim (env key) [
  | none ↦ fallback
  | some v ↦ if is_nil v then fallback else v
]

pub record AppConfig : Type 0 where
  pub addr : Text
  pub sk : Text
  pub auth_dir : Text
  pub infer_endpoint : Text
  pub openapi_endpoint : Text
  pub web_endpoint : Text
  pub model_map_json : Text
  pub default_model : Text
  pub one_m_model : Text
  pub catalog_path : Text
  pub dump_dir : Text
  pub login : Bool
  pub login_pat : Text
  pub read_only_auth : Bool
  pub context_prefs_json : Text
  pub verbose : Bool

-- What the `flag` package has read from the arguments: the last value of each flag that was given.
pub record Flags : Type 0 where
  pub addr : Option Text
  pub sk : Option Text
  pub auth_dir : Option Text
  pub endpoint : Option Text
  pub openapi_endpoint : Option Text
  pub web_endpoint : Option Text
  pub model_map : Option Text
  pub default_model : Option Text
  pub model_1m : Option Text
  pub catalog : Option Text
  pub dump_dir : Option Text
  pub login : Option Bool
  pub login_pat : Option Text
  pub read_only_auth : Option Bool
  pub context_preferences : Option Text
  pub v : Option Bool

abbrev pub given {ℓ} : {A : Type ℓ} → Option A → A → A
given none a = a
given (some b) a = b

-- The home directory with `.qoder/.auth` below it is a parameter.
unfoldable pub parse_app_config : Env → Text → Flags → AppConfig
parse_app_config env home_auth f = record {
  addr = given f.addr (lookup_env_or env (codes "QODER2API_ADDR") (codes ":8377"));
  sk = given f.sk (lookup_env_or env (codes "QODER2API_SK") []);
  auth_dir = given f.auth_dir (lookup_env_or env (codes "QODER2API_AUTH_DIR") home_auth);
  infer_endpoint = given f.endpoint (lookup_env_or env (codes "QODER2API_INFER_ENDPOINT") []);
  openapi_endpoint =
      given f.openapi_endpoint (lookup_env_or env (codes "QODER2API_OPENAPI_ENDPOINT") []);
  web_endpoint = given f.web_endpoint (lookup_env_or env (codes "QODER2API_WEB_ENDPOINT") []);
  model_map_json = given f.model_map (lookup_env_or env (codes "QODER2API_MODEL_MAP") []);
  default_model =
      given f.default_model (lookup_env_or env (codes "QODER2API_DEFAULT_MODEL") (codes "auto"));
  one_m_model =
      given f.model_1m (lookup_env_or env (codes "QODER2API_MODEL_1M") (codes "ultimate"));
  catalog_path = given f.catalog (lookup_env_or env (codes "QODER2API_CATALOG") []);
  dump_dir = given f.dump_dir (lookup_env_or env (codes "QODER2API_DUMP_DIR") []);
  login = given f.login false;
  login_pat = given f.login_pat [];
  read_only_auth = given f.read_only_auth false;
  context_prefs_json =
      given f.context_preferences (lookup_env_or env (codes "QODER2API_CONTEXT_PREFERENCES") []);
  verbose = given f.v (text_eq (lookup_env_or env (codes "QODER2API_LOG") []) (codes "debug"));
}

pub data ConfigError : Type 0 where
  needs_loopback needs_credential no_dumps needs_read_only needs_cn_endpoints : ConfigError

abbrev pub is_loopback : Option Text → Bool
is_loopback none = false
is_loopback (some h) = text_eq h (codes "127.0.0.1")

unfoldable pub has_cn_endpoints : AppConfig → Bool
has_cn_endpoints c =
    text_eq c.infer_endpoint (codes "https://gateway.qoder.com.cn")
    && (text_eq c.openapi_endpoint (codes "https://openapi.qoder.com.cn")
        && text_eq c.web_endpoint (codes "https://qoder.cn"))

-- `validateLocalNativeConfig`, given `net.SplitHostPort` and whether the process is locked down.
unfoldable pub validate_local_native_config :
    Bool → (Text → Option Text) → AppConfig → Option ConfigError
validate_local_native_config locked split_host_port c =
    if not locked
    then none
    else if not (is_loopback (split_host_port c.addr))
    then some needs_loopback
    else if ltb (length c.sk) 32
    then some needs_credential
    else if not (is_nil c.dump_dir) || c.verbose
    then some no_dumps
    else if not c.read_only_auth
    then some needs_read_only
    else if not (has_cn_endpoints c)
    then some needs_cn_endpoints
    else none
