-- ===== src/Api/UniversalAuth.antt =====
-- api/infisical/v1alpha1/infisicaluniversalauth_types.go. A list of trusted addresses can be nil, which
-- the code tells from the empty list.
use infisical_entity_operato.Base.{
  ℕ, ℤ, String, Bool, Option, List, string_discrete, ℕ_discrete, ℤ-discrete,
}
use infisical_entity_operato.Api.Meta.{
  CreationPolicy, DeletionPolicy, LocalObjectReference, UniversalAuthSecretReference, ObjectMeta,
  Condition, LocalObjectReference-discrete, UniversalAuthSecretReference-discrete,
  ObjectMeta-discrete, Condition-discrete,
}

pub record UniversalAuthTrustedIp : Type 0 where
  pub ip_address : String

pub record UniversalAuthConfigSpec : Type 0 where
  pub client_secret_trusted_ips : Option (List UniversalAuthTrustedIp)
  pub access_token_trusted_ips : Option (List UniversalAuthTrustedIp)
  pub access_token_ttl : Option ℤ
  pub access_token_max_ttl : Option ℤ
  pub access_token_num_uses_limit : Option ℤ
  pub access_token_period : Option ℤ
  pub lockout_enabled : Option Bool
  pub lockout_threshold : Option ℤ
  pub lockout_duration_seconds : Option ℤ
  pub lockout_counter_reset_seconds : Option ℤ

pub record UniversalAuthClientSecretSpec : Type 0 where
  pub secret_ref : UniversalAuthSecretReference
  pub description : String
  pub num_uses_limit : Option ℤ
  pub ttl : Option ℤ
  pub rotation_nonce : String

pub record InfisicalUniversalAuthSpec : Type 0 where
  pub connection_ref : LocalObjectReference
  pub identity_ref : LocalObjectReference
  pub config : Option UniversalAuthConfigSpec
  pub client_secret : UniversalAuthClientSecretSpec
  pub creation_policy : CreationPolicy
  pub deletion_policy : DeletionPolicy

pub record UniversalAuthConfigStatus : Type 0 where
  pub client_secret_trusted_ips : Option (List UniversalAuthTrustedIp)
  pub access_token_trusted_ips : Option (List UniversalAuthTrustedIp)
  pub access_token_ttl : ℤ
  pub access_token_max_ttl : ℤ
  pub access_token_num_uses_limit : ℤ
  pub access_token_period : ℤ
  pub lockout_enabled : Bool
  pub lockout_threshold : ℤ
  pub lockout_duration_seconds : ℤ
  pub lockout_counter_reset_seconds : ℤ

pub record UniversalAuthClientSecretStatus : Type 0 where
  pub secret_name : String
  pub client_secret_id : String
  pub client_secret_prefix : String
  pub last_rotation_nonce : String
  pub last_rotated_at : Option ℕ

pub record InfisicalUniversalAuthStatus : Type 0 where
  pub auth_id : String
  pub identity_id : String
  pub client_id : String
  pub config : UniversalAuthConfigStatus
  pub client_secret : UniversalAuthClientSecretStatus
  pub observed_generation : ℕ
  pub conditions : List Condition

pub record InfisicalUniversalAuth : Type 0 where
  pub meta : ObjectMeta
  pub spec : InfisicalUniversalAuthSpec
  pub status : InfisicalUniversalAuthStatus

UniversalAuthTrustedIp-discrete : Discrete UniversalAuthTrustedIp
unfolding string_discrete
UniversalAuthTrustedIp-discrete = hlevel string_discrete

UniversalAuthConfigSpec-discrete : Discrete UniversalAuthConfigSpec
unfolding ℤ-discrete UniversalAuthTrustedIp-discrete
UniversalAuthConfigSpec-discrete = hlevel (ℤ-discrete, UniversalAuthTrustedIp-discrete)

UniversalAuthClientSecretSpec-discrete : Discrete UniversalAuthClientSecretSpec
unfolding string_discrete ℤ-discrete UniversalAuthSecretReference-discrete
UniversalAuthClientSecretSpec-discrete =
    hlevel (string_discrete, ℤ-discrete, UniversalAuthSecretReference-discrete)

InfisicalUniversalAuthSpec-discrete : Discrete InfisicalUniversalAuthSpec
unfolding string_discrete LocalObjectReference-discrete UniversalAuthConfigSpec-discrete
    UniversalAuthClientSecretSpec-discrete
InfisicalUniversalAuthSpec-discrete = hlevel (
  string_discrete, LocalObjectReference-discrete, UniversalAuthConfigSpec-discrete,
  UniversalAuthClientSecretSpec-discrete,
)

UniversalAuthConfigStatus-discrete : Discrete UniversalAuthConfigStatus
unfolding ℤ-discrete UniversalAuthTrustedIp-discrete
UniversalAuthConfigStatus-discrete = hlevel (ℤ-discrete, UniversalAuthTrustedIp-discrete)

UniversalAuthClientSecretStatus-discrete : Discrete UniversalAuthClientSecretStatus
unfolding string_discrete ℕ_discrete
UniversalAuthClientSecretStatus-discrete = hlevel (string_discrete, ℕ_discrete)

InfisicalUniversalAuthStatus-discrete : Discrete InfisicalUniversalAuthStatus
unfolding string_discrete ℕ_discrete UniversalAuthConfigStatus-discrete
    UniversalAuthClientSecretStatus-discrete Condition-discrete
InfisicalUniversalAuthStatus-discrete = hlevel (
  string_discrete, ℕ_discrete, UniversalAuthConfigStatus-discrete,
  UniversalAuthClientSecretStatus-discrete, Condition-discrete,
)

unfoldable pub InfisicalUniversalAuth-discrete : Discrete InfisicalUniversalAuth
unfolding ObjectMeta-discrete InfisicalUniversalAuthSpec-discrete
    InfisicalUniversalAuthStatus-discrete
InfisicalUniversalAuth-discrete = hlevel (
  ObjectMeta-discrete, InfisicalUniversalAuthSpec-discrete, InfisicalUniversalAuthStatus-discrete,
)
