-- ===== src/Controller/UniversalAuth/State.antt =====
-- infisicaluniversalauth_controller.go: the status, the requests, and what Infisical's configuration is
-- compared with.
use infisical_entity_operato.Base.{
  pos, String, Bool, false, not, ◌||◌, Option, none, some, List, map, ◌∷◌, [], ◌==◌, concat, quote,
  if◌then◌else◌,
}
use mathlib.Core.Option
use infisical_entity_operato.Failure.{Error, dependency}
use infisical_entity_operato.Api
use infisical_entity_operato.Api.{
  InfisicalUniversalAuth, InfisicalUniversalAuth-discrete, UniversalAuthConfigSpec,
  UniversalAuthConfigStatus, UniversalAuthClientSecretStatus,
}
use infisical_entity_operato.Platform.{Object}
use infisical_entity_operato.Client.Wire.UniversalAuth.{
  UniversalAuthTrustedIp, UniversalAuthConfig, UniversalAuthConfigRequest,
}
use infisical_entity_operato.Controller.Optional.{
  optional_int64_diff, optional_bool_diff, optional_list_diff,
}
use infisical_entity_operato.Controller.Objects.{Resource}
use infisical_entity_operato.Controller.Status.{Conditioned}

abbrev pub no_client_secret_status : UniversalAuthClientSecretStatus
no_client_secret_status = record {
  secret_name = "";
  client_secret_id = "";
  client_secret_prefix = "";
  last_rotation_nonce = "";
  last_rotated_at = none;
}

abbrev pub no_config_status : UniversalAuthConfigStatus
no_config_status = record {
  client_secret_trusted_ips = none;
  access_token_trusted_ips = none;
  access_token_ttl = pos 0;
  access_token_max_ttl = pos 0;
  access_token_num_uses_limit = pos 0;
  access_token_period = pos 0;
  lockout_enabled = false;
  lockout_threshold = pos 0;
  lockout_duration_seconds = pos 0;
  lockout_counter_reset_seconds = pos 0;
}

unfoldable pub clear_universal_auth_status : InfisicalUniversalAuth → InfisicalUniversalAuth
clear_universal_auth_status auth = record auth {
  status = record auth.status {
    auth_id = "";
    identity_id = "";
    client_id = "";
    config = no_config_status;
    client_secret = no_client_secret_status;
  };
}

unfoldable pub universal_auth_resource : Resource InfisicalUniversalAuth
unfolding InfisicalUniversalAuth-discrete
universal_auth_resource = record {
  meta = λ a. a.meta;
  with_meta = λ m a. record a { meta = m };
  object = Object.universal_auth;
  same = InfisicalUniversalAuth-discrete;
}

unfoldable pub universal_auth_status : Conditioned InfisicalUniversalAuth
unfolding universal_auth_resource clear_universal_auth_status
universal_auth_status = record {
  resource = universal_auth_resource;
  conditions = λ a. a.status.conditions;
  with_conditions = λ cs a. record a { status = record a.status { conditions = cs } };
  observe = λ a. record a { status = record a.status { observed_generation = a.meta.generation } };
  forget = clear_universal_auth_status;
}

unfoldable pub universal_auth_trusted_ips_from :
    Option (List Api.UniversalAuthTrustedIp) → Option (List UniversalAuthTrustedIp)
universal_auth_trusted_ips_from values =
    Option.map (map (λ (ip : Api.UniversalAuthTrustedIp). record { ip_address = ip.ip_address }))
      values

unfoldable pub universal_auth_trusted_ips_to :
    Option (List UniversalAuthTrustedIp) → Option (List Api.UniversalAuthTrustedIp)
universal_auth_trusted_ips_to values =
    Option.map (map (λ (ip : UniversalAuthTrustedIp). record { ip_address = ip.ip_address })) values

abbrev pub no_config_request : UniversalAuthConfigRequest
no_config_request = record {
  client_secret_trusted_ips = none;
  access_token_trusted_ips = none;
  access_token_ttl = none;
  access_token_max_ttl = none;
  access_token_num_uses_limit = none;
  access_token_period = none;
  lockout_enabled = none;
  lockout_threshold = none;
  lockout_duration_seconds = none;
  lockout_counter_reset_seconds = none;
}

abbrev pub request_of : Option UniversalAuthConfigSpec → UniversalAuthConfigRequest
request_of none = no_config_request
request_of (some config) = record {
  client_secret_trusted_ips = universal_auth_trusted_ips_from config.client_secret_trusted_ips;
  access_token_trusted_ips = universal_auth_trusted_ips_from config.access_token_trusted_ips;
  access_token_ttl = config.access_token_ttl;
  access_token_max_ttl = config.access_token_max_ttl;
  access_token_num_uses_limit = config.access_token_num_uses_limit;
  access_token_period = config.access_token_period;
  lockout_enabled = config.lockout_enabled;
  lockout_threshold = config.lockout_threshold;
  lockout_duration_seconds = config.lockout_duration_seconds;
  lockout_counter_reset_seconds = config.lockout_counter_reset_seconds;
}

unfoldable pub universal_auth_config_request : InfisicalUniversalAuth → UniversalAuthConfigRequest
unfolding universal_auth_trusted_ips_from
universal_auth_config_request auth = request_of auth.spec.config

abbrev pub addresses : Option (List UniversalAuthTrustedIp) → Option (List String)
addresses ips = Option.map (map (λ (ip : UniversalAuthTrustedIp). ip.ip_address)) ips

unfoldable pub differs : UniversalAuthConfigRequest → UniversalAuthConfig → Bool
differs desired current =
    optional_list_diff (addresses desired.client_secret_trusted_ips)
      (addresses current.client_secret_trusted_ips)
    || optional_list_diff (addresses desired.access_token_trusted_ips)
        (addresses current.access_token_trusted_ips)
    || optional_int64_diff desired.access_token_ttl current.access_token_ttl
    || optional_int64_diff desired.access_token_max_ttl current.access_token_max_ttl
    || optional_int64_diff desired.access_token_num_uses_limit current.access_token_num_uses_limit
    || optional_int64_diff desired.access_token_period current.access_token_period
    || optional_bool_diff desired.lockout_enabled current.lockout_enabled
    || optional_int64_diff desired.lockout_threshold current.lockout_threshold
    || optional_int64_diff desired.lockout_duration_seconds current.lockout_duration_seconds
    || optional_int64_diff desired.lockout_counter_reset_seconds
        current.lockout_counter_reset_seconds

unfoldable pub universal_auth_config_needs_update :
    InfisicalUniversalAuth → UniversalAuthConfig → Bool
universal_auth_config_needs_update auth current = elim auth.spec.config [
  | none ↦ false
  | some config ↦ differs (universal_auth_config_request auth) current
]

unfoldable pub validate_universal_auth_ownership :
    UniversalAuthConfig → (identity_id : String) → Option Error
validate_universal_auth_ownership config identity_id =
    if not (config.identity_id == identity_id)
    then some (
        dependency (
          concat (
            "Infisical Universal Auth belongs to identity "
            ∷ quote config.identity_id
            ∷ ", want "
            ∷ quote identity_id
            ∷ [])))
    else none

unfoldable pub universal_auth_config_status : UniversalAuthConfig → UniversalAuthConfigStatus
unfolding universal_auth_trusted_ips_to
universal_auth_config_status config = record {
  client_secret_trusted_ips = universal_auth_trusted_ips_to config.client_secret_trusted_ips;
  access_token_trusted_ips = universal_auth_trusted_ips_to config.access_token_trusted_ips;
  access_token_ttl = config.access_token_ttl;
  access_token_max_ttl = config.access_token_max_ttl;
  access_token_num_uses_limit = config.access_token_num_uses_limit;
  access_token_period = config.access_token_period;
  lockout_enabled = config.lockout_enabled;
  lockout_threshold = config.lockout_threshold;
  lockout_duration_seconds = config.lockout_duration_seconds;
  lockout_counter_reset_seconds = config.lockout_counter_reset_seconds;
}

unfoldable pub set_universal_auth_observed_state :
    InfisicalUniversalAuth → UniversalAuthConfig → InfisicalUniversalAuth
unfolding universal_auth_config_status
set_universal_auth_observed_state auth observed = record auth {
  status = record auth.status {
    auth_id = observed.id;
    identity_id = observed.identity_id;
    client_id = observed.client_id;
    config = universal_auth_config_status observed;
    observed_generation = auth.meta.generation;
  };
}
