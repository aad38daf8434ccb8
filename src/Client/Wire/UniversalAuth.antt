-- ===== src/Client/Wire/UniversalAuth.antt =====
-- The structs of internal/infisicalclient/universalauth.go and their JSON.
use infisical_entity_operato.Base.{
  ℤ, pos, String, Bool, false, ◌||◌, Option, none, some, List, ◌==◌, if◌then◌else◌,
}
use infisical_entity_operato.Result.{Result, ok, err, ◌>>=◌}
use infisical_entity_operato.Failure.{Error, plain}
use infisical_entity_operato.Json.{
  Json, Fields, obj, end, field, str, bool, num, member, string_of, bool_of, int_of, object_of,
  items_of, omit_empty, omit_nil, omit_no_items,
}

pub record UniversalAuthTrustedIp : Type 0 where
  pub ip_address : String

unfoldable pub decode_universal_auth_trusted_ip : Json → Result Error UniversalAuthTrustedIp
decode_universal_auth_trusted_ip v =
    object_of
      (λ fs. do
        ip_address ← string_of (member "ipAddress" fs)
        ok (record { ip_address = ip_address }))
      (some v)

unfoldable pub encode_universal_auth_trusted_ip : UniversalAuthTrustedIp → Json
encode_universal_auth_trusted_ip ip = obj (field "ipAddress" (str ip.ip_address) end)

pub record UniversalAuthConfig : Type 0 where
  pub id : String
  pub client_id : String
  pub identity_id : String
  pub client_secret_trusted_ips : Option (List UniversalAuthTrustedIp)
  pub access_token_trusted_ips : Option (List UniversalAuthTrustedIp)
  pub access_token_ttl : ℤ
  pub access_token_max_ttl : ℤ
  pub access_token_num_uses_limit : ℤ
  pub access_token_period : ℤ
  pub lockout_enabled : Bool
  pub lockout_threshold : ℤ
  pub lockout_duration_seconds : ℤ
  pub lockout_counter_reset_seconds : ℤ

abbrev pub no_universal_auth : UniversalAuthConfig
no_universal_auth = record {
  id = "";
  client_id = "";
  identity_id = "";
  client_secret_trusted_ips = none;
  access_token_trusted_ips = none;
  access_token_ttl = pos 0;
  access_token_max_ttl = pos 0;
  access_token_num_uses_limit = pos 0;
  access_token_period = pos 0;
  lockout_enabled = false;
  lockout_threshold = pos 0;
  lockout_duration_seconds = pos 0;
  lockout_counter_reset_seconds = pos 0;
}

unfoldable pub decode_universal_auth : Fields → Result Error UniversalAuthConfig
decode_universal_auth fs = do
  id ← string_of (member "id" fs)
  client_id ← string_of (member "clientId" fs)
  identity_id ← string_of (member "identityId" fs)
  client_secret_trusted_ips ←
      items_of decode_universal_auth_trusted_ip (member "clientSecretTrustedIps" fs)
  access_token_trusted_ips ←
      items_of decode_universal_auth_trusted_ip (member "accessTokenTrustedIps" fs)
  access_token_ttl ← int_of 63 (member "accessTokenTTL" fs)
  access_token_max_ttl ← int_of 63 (member "accessTokenMaxTTL" fs)
  access_token_num_uses_limit ← int_of 63 (member "accessTokenNumUsesLimit" fs)
  access_token_period ← int_of 63 (member "accessTokenPeriod" fs)
  lockout_enabled ← bool_of (member "lockoutEnabled" fs)
  lockout_threshold ← int_of 63 (member "lockoutThreshold" fs)
  lockout_duration_seconds ← int_of 63 (member "lockoutDurationSeconds" fs)
  lockout_counter_reset_seconds ← int_of 63 (member "lockoutCounterResetSeconds" fs)
  ok (record {
    id = id;
    client_id = client_id;
    identity_id = identity_id;
    client_secret_trusted_ips = client_secret_trusted_ips;
    access_token_trusted_ips = access_token_trusted_ips;
    access_token_ttl = access_token_ttl;
    access_token_max_ttl = access_token_max_ttl;
    access_token_num_uses_limit = access_token_num_uses_limit;
    access_token_period = access_token_period;
    lockout_enabled = lockout_enabled;
    lockout_threshold = lockout_threshold;
    lockout_duration_seconds = lockout_duration_seconds;
    lockout_counter_reset_seconds = lockout_counter_reset_seconds;
  })

unfoldable pub validate_universal_auth : UniversalAuthConfig → Result Error UniversalAuthConfig
validate_universal_auth config =
    if config.id == ""
    then err (plain "infisical API returned Universal Auth without an ID")
    else if config.client_id == ""
    then err (plain "infisical API returned Universal Auth without a client ID")
    else if config.identity_id == ""
    then err (plain "infisical API returned Universal Auth without an identity ID")
    else ok config

pub record UniversalAuthConfigRequest : Type 0 where
  pub client_secret_trusted_ips : Option (List UniversalAuthTrustedIp)
  pub access_token_trusted_ips : Option (List UniversalAuthTrustedIp)
  pub access_token_ttl : Option ℤ
  pub access_token_max_ttl : Option ℤ
  pub access_token_num_uses_limit : Option ℤ
  pub access_token_period : Option ℤ
  pub lockout_enabled : Option Bool
  pub lockout_threshold : Option ℤ
  pub lockout_duration_seconds : Option ℤ
  pub lockout_counter_reset_seconds : Option ℤ

unfoldable pub encode_universal_auth_config : UniversalAuthConfigRequest → Json
encode_universal_auth_config request = obj (
    omit_no_items "clientSecretTrustedIps" encode_universal_auth_trusted_ip
      request.client_secret_trusted_ips
      (omit_no_items "accessTokenTrustedIps" encode_universal_auth_trusted_ip
        request.access_token_trusted_ips
        (omit_nil "accessTokenTTL" num request.access_token_ttl (
          omit_nil "accessTokenMaxTTL" num request.access_token_max_ttl (
            omit_nil "accessTokenNumUsesLimit" num request.access_token_num_uses_limit (
              omit_nil "accessTokenPeriod" num request.access_token_period (
                omit_nil "lockoutEnabled" bool request.lockout_enabled (
                  omit_nil "lockoutThreshold" num request.lockout_threshold (
                    omit_nil "lockoutDurationSeconds" num request.lockout_duration_seconds (
                      omit_nil "lockoutCounterResetSeconds" num
                        request.lockout_counter_reset_seconds end))))))))))

pub record UniversalAuthClientSecret : Type 0 where
  pub id : String
  pub description : String
  pub client_secret_prefix : String
  pub client_secret_num_uses : ℤ
  pub client_secret_num_uses_limit : ℤ
  pub client_secret_ttl : ℤ
  pub identity_universal_auth_id : String
  pub is_client_secret_revoked : Bool

abbrev pub no_client_secret : UniversalAuthClientSecret
no_client_secret = record {
  id = "";
  description = "";
  client_secret_prefix = "";
  client_secret_num_uses = pos 0;
  client_secret_num_uses_limit = pos 0;
  client_secret_ttl = pos 0;
  identity_universal_auth_id = "";
  is_client_secret_revoked = false;
}

unfoldable pub decode_client_secret : Fields → Result Error UniversalAuthClientSecret
decode_client_secret fs = do
  id ← string_of (member "id" fs)
  description ← string_of (member "description" fs)
  client_secret_prefix ← string_of (member "clientSecretPrefix" fs)
  client_secret_num_uses ← int_of 63 (member "clientSecretNumUses" fs)
  client_secret_num_uses_limit ← int_of 63 (member "clientSecretNumUsesLimit" fs)
  client_secret_ttl ← int_of 63 (member "clientSecretTTL" fs)
  identity_universal_auth_id ← string_of (member "identityUAId" fs)
  is_client_secret_revoked ← bool_of (member "isClientSecretRevoked" fs)
  ok (record {
    id = id;
    description = description;
    client_secret_prefix = client_secret_prefix;
    client_secret_num_uses = client_secret_num_uses;
    client_secret_num_uses_limit = client_secret_num_uses_limit;
    client_secret_ttl = client_secret_ttl;
    identity_universal_auth_id = identity_universal_auth_id;
    is_client_secret_revoked = is_client_secret_revoked;
  })

pub record CreateUniversalAuthClientSecretRequest : Type 0 where
  pub description : String
  pub num_uses_limit : Option ℤ
  pub ttl : Option ℤ

unfoldable pub encode_create_client_secret : CreateUniversalAuthClientSecretRequest → Json
encode_create_client_secret request = obj (
    omit_empty "description" request.description
      (omit_nil "numUsesLimit" num request.num_uses_limit (omit_nil "ttl" num request.ttl end)))

pub record CreateUniversalAuthClientSecretResponse : Type 0 where
  pub client_secret : String
  pub client_secret_data : UniversalAuthClientSecret

abbrev pub no_created_client_secret : CreateUniversalAuthClientSecretResponse
no_created_client_secret = record { client_secret = ""; client_secret_data = no_client_secret }

unfoldable pub decode_created_client_secret :
    Fields → Result Error CreateUniversalAuthClientSecretResponse
decode_created_client_secret fs = do
  client_secret ← string_of (member "clientSecret" fs)
  client_secret_data ← object_of decode_client_secret (member "clientSecretData" fs)
  ok (record { client_secret = client_secret; client_secret_data = client_secret_data })

unfoldable pub validate_created_client_secret :
    CreateUniversalAuthClientSecretResponse → Result Error CreateUniversalAuthClientSecretResponse
validate_created_client_secret response =
    if response.client_secret == "" || response.client_secret_data.id == ""
    then err (plain "infisical API returned an incomplete Universal Auth client secret")
    else ok response

unfoldable pub validate_client_secret :
    UniversalAuthClientSecret → Result Error UniversalAuthClientSecret
validate_client_secret secret =
    if secret.id == ""
    then err (plain "infisical API returned a Universal Auth client secret without an ID")
    else ok secret
