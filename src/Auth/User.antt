-- ===== src/Auth/User.antt =====
-- auth.go: the stored login of a user, what the server answers about it, and what is taken over.
use qoder_model_gateway.Base.{
  ℕ, Bool, false, Option, none, some, List, [], ◌∷◌, ltb, ◌==◌, if◌then◌else◌, length, take, is_nil,
  Text, codes,
}
use qoder_model_gateway.Base.Int.{ℤ, pos, add64}

pub record UserInfo : Type 0 where
  pub uid : Text
  pub name : Text
  pub email : Text
  pub avatar_url : Text
  pub org_id : Text
  pub org_name : Text
  pub org_tags : List Text
  pub data_policy_agreed : Bool
  pub is_data_policy_modifiable : Bool
  pub security_oauth_token : Text
  pub access_token : Text
  pub refresh_token : Text
  pub expire_time : ℤ
  pub refresh_token_expire_time : ℤ
  pub login_method : Text
  pub login_timestamp : ℤ
  pub encrypt_user_info : Text
  pub key : Text
  pub personal_access_token : Text

-- A login is a pointer: the identity of the object and what it holds now.
pub record Login : Type 0 where
  pub object : ℕ
  pub info : UserInfo

-- protocol.go: what the generator of the runtime fields takes and gives.
pub record RuntimeFieldInput : Type 0 where
  pub uid : Text
  pub organization_id : Text
  pub organization_tags : List Text
  pub data_policy_agreed : Bool

pub record RuntimeFieldOutput : Type 0 where
  pub encrypt_user_info : Text
  pub key : Text

-- `normalizedOrganizationTags` turns a nil slice into an empty one, which are one list here.
unfoldable pub runtime_field_input : UserInfo → RuntimeFieldInput
runtime_field_input u = record {
  uid = u.uid;
  organization_id = u.org_id;
  organization_tags = u.org_tags;
  data_policy_agreed = u.data_policy_agreed;
}

-- protocol.go: what the context of a user is made from.
pub record ProtocolUserInfo : Type 0 where
  pub uid : Text
  pub encrypt_user_info : Text
  pub key : Text
  pub organization_id : Text
  pub organization_tags : List Text
  pub data_policy_agreed : Bool

-- `contextConfigForLocked`, less the machine identifier, the version and the scene, which are the same
-- for every context of a manager.
unfoldable pub context_config : UserInfo → ProtocolUserInfo
context_config u = record {
  uid = u.uid;
  encrypt_user_info = u.encrypt_user_info;
  key = u.key;
  organization_id = u.org_id;
  organization_tags = u.org_tags;
  data_policy_agreed = u.data_policy_agreed;
}

-- The answer to a refresh, as it is decoded.
pub record RefreshAnswer : Type 0 where
  pub device_token : Text
  pub token : Text
  pub refresh_token : Text
  pub expires_at : Text
  pub expires_in : ℤ
  pub refresh_exp_at : Text
  pub refresh_exp_in : ℤ

-- The answer to a poll of the device login.
pub record DeviceAnswer : Type 0 where
  pub token : Text
  pub refresh_token : Text
  pub expires_at : Text
  pub expires_in : ℤ
  pub refresh_expires_at : Text
  pub refresh_expires_in : ℤ
  pub user_id : Text
  pub user_name : Text

-- main.go: the answer to the exchange of a personal access token.
pub record ExchangeAnswer : Type 0 where
  pub token : Text
  pub device_token : Text
  pub access_token : Text
  pub refresh_token : Text
  pub expires_at : Text
  pub expires_in : ℤ
  pub refresh_exp_at : Text
  pub refresh_exp_in : ℤ

pub record Profile : Type 0 where
  pub uid : Text
  pub name : Text
  pub email : Text
  pub org_id : Text
  pub org_name : Text
  pub org_tags : List Text

abbrev pub is_zero : ℤ → Bool
is_zero (pos n) = n == 0
is_zero _ = false

abbrev pub or_text : Text → Text → Text
or_text [] b = b
or_text (c ∷ a) b = c ∷ a

-- `parseExpiry`: `time.Parse` is a parameter, as is the time now.
unfoldable pub parse_expiry : (Text → Option ℤ) → ℤ → Text → ℤ → ℤ
parse_expiry parse_time now iso in_sec =
    let relative = if is_zero in_sec then pos 0 else add64 now in_sec in
    if is_nil iso then relative else elim (parse_time iso) [ some t ↦ t | none ↦ relative ]

-- The token of a refresh, empty when it is missing.
unfoldable pub token_of : RefreshAnswer → Text
token_of r = or_text r.device_token r.token

-- The login that a refresh makes, before its runtime fields.
unfoldable pub refreshed : (Text → Option ℤ) → ℤ → RefreshAnswer → UserInfo → UserInfo
refreshed parse_time now r u =
    let expiry = parse_expiry parse_time now r.refresh_exp_at r.refresh_exp_in in
    record u {
      security_oauth_token = token_of r;
      access_token = token_of r;
      refresh_token = or_text r.refresh_token u.refresh_token;
      expire_time = parse_expiry parse_time now r.expires_at r.expires_in;
      refresh_token_expire_time = if is_zero expiry then u.refresh_token_expire_time else expiry;
    }

unfoldable pub device_candidate : (Text → Option ℤ) → ℤ → DeviceAnswer → UserInfo
device_candidate parse_time now r = record {
  uid = r.user_id;
  name = r.user_name;
  email = [];
  avatar_url = [];
  org_id = [];
  org_name = [];
  org_tags = [];
  data_policy_agreed = false;
  is_data_policy_modifiable = false;
  security_oauth_token = r.token;
  access_token = r.token;
  refresh_token = r.refresh_token;
  expire_time = parse_expiry parse_time now r.expires_at r.expires_in;
  refresh_token_expire_time = parse_expiry parse_time now r.refresh_expires_at r.refresh_expires_in;
  login_method = codes "browser";
  login_timestamp = now;
  encrypt_user_info = [];
  key = [];
  personal_access_token = [];
}

unfoldable pub exchanged_token : ExchangeAnswer → Text
exchanged_token r = or_text r.token (or_text r.device_token r.access_token)

unfoldable pub pat_candidate : (Text → Option ℤ) → ℤ → Text → ExchangeAnswer → UserInfo
pat_candidate parse_time now pat r = record {
  uid = [];
  name = [];
  email = [];
  avatar_url = [];
  org_id = [];
  org_name = [];
  org_tags = [];
  data_policy_agreed = false;
  is_data_policy_modifiable = false;
  security_oauth_token = exchanged_token r;
  access_token = exchanged_token r;
  refresh_token = r.refresh_token;
  expire_time = parse_expiry parse_time now r.expires_at r.expires_in;
  refresh_token_expire_time = parse_expiry parse_time now r.refresh_exp_at r.refresh_exp_in;
  login_method = codes "token";
  login_timestamp = now;
  encrypt_user_info = [];
  key = [];
  personal_access_token = pat;
}

-- `applyAuthUserInfoProfile`.
unfoldable pub apply_profile : Profile → UserInfo → UserInfo
apply_profile p u = record u {
  uid = or_text p.uid u.uid;
  email = or_text p.email u.email;
  name = or_text p.name u.name;
  org_id = or_text p.org_id u.org_id;
  org_name = if is_nil p.org_id then u.org_name else p.org_name;
  org_tags = if is_nil p.org_tags then u.org_tags else p.org_tags;
}

-- `machineCredentialKey`.
unfoldable pub machine_credential_key : Text → Text
machine_credential_key id = if ltb 16 (length id) then take 16 id else id
