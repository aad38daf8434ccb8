-- ===== src/Api/KubernetesAuth.antt =====
-- api/infisical/v1alpha1/infisicalkubernetesauth_types.go. The list of trusted addresses can be nil,
-- which the code tells from the empty list.
use infisical_entity_operato.Base.{
  ℕ, ℤ, String, Bool, Option, List, string_discrete, ℕ_discrete, ℤ-discrete,
}
use infisical_entity_operato.Api.Meta.{
  CreationPolicy, DeletionPolicy, LocalObjectReference, SecretKeyReference, ObjectMeta, Condition,
  LocalObjectReference-discrete, SecretKeyReference-discrete, ObjectMeta-discrete,
  Condition-discrete,
}

abbrev pub KubernetesTokenReviewMode : Type 0
KubernetesTokenReviewMode = String

abbrev pub kubernetes_token_review_mode_api : KubernetesTokenReviewMode
kubernetes_token_review_mode_api = "api"

pub record KubernetesTrustedIp : Type 0 where
  pub ip_address : String

pub record InfisicalKubernetesAuthSpec : Type 0 where
  pub connection_ref : LocalObjectReference
  pub identity_ref : LocalObjectReference
  pub kubernetes_host : String
  pub allowed_namespaces : List String
  pub allowed_names : List String
  pub allowed_audience : String
  pub ca_cert_secret_ref : Option SecretKeyReference
  pub verify_tls_certificate : Option Bool
  pub token_reviewer_jwt_secret_ref : Option SecretKeyReference
  pub token_review_mode : KubernetesTokenReviewMode
  pub access_token_trusted_ips : Option (List KubernetesTrustedIp)
  pub access_token_ttl : Option ℤ
  pub access_token_max_ttl : Option ℤ
  pub access_token_num_uses_limit : Option ℤ
  pub creation_policy : CreationPolicy
  pub deletion_policy : DeletionPolicy

pub record InfisicalKubernetesAuthStatus : Type 0 where
  pub auth_id : String
  pub identity_id : String
  pub kubernetes_host : String
  pub allowed_namespaces : List String
  pub allowed_names : List String
  pub allowed_audience : String
  pub token_review_mode : KubernetesTokenReviewMode
  pub verify_tls_certificate : Bool
  pub has_ca_certificate : Bool
  pub has_token_reviewer_jwt : Bool
  pub access_token_trusted_ips : Option (List KubernetesTrustedIp)
  pub access_token_ttl : ℤ
  pub access_token_max_ttl : ℤ
  pub access_token_num_uses_limit : ℤ
  pub observed_generation : ℕ
  pub conditions : List Condition

pub record InfisicalKubernetesAuth : Type 0 where
  pub meta : ObjectMeta
  pub spec : InfisicalKubernetesAuthSpec
  pub status : InfisicalKubernetesAuthStatus

KubernetesTrustedIp-discrete : Discrete KubernetesTrustedIp
unfolding string_discrete
KubernetesTrustedIp-discrete = hlevel string_discrete

InfisicalKubernetesAuthSpec-discrete : Discrete InfisicalKubernetesAuthSpec
unfolding string_discrete ℤ-discrete LocalObjectReference-discrete SecretKeyReference-discrete
    KubernetesTrustedIp-discrete
InfisicalKubernetesAuthSpec-discrete = hlevel (
  string_discrete, ℤ-discrete, LocalObjectReference-discrete, SecretKeyReference-discrete,
  KubernetesTrustedIp-discrete,
)

InfisicalKubernetesAuthStatus-discrete : Discrete InfisicalKubernetesAuthStatus
unfolding string_discrete ℕ_discrete ℤ-discrete KubernetesTrustedIp-discrete Condition-discrete
InfisicalKubernetesAuthStatus-discrete =
    hlevel
      (string_discrete, ℕ_discrete, ℤ-discrete, KubernetesTrustedIp-discrete, Condition-discrete)

unfoldable pub InfisicalKubernetesAuth-discrete : Discrete InfisicalKubernetesAuth
unfolding ObjectMeta-discrete InfisicalKubernetesAuthSpec-discrete
    InfisicalKubernetesAuthStatus-discrete
InfisicalKubernetesAuth-discrete = hlevel (
  ObjectMeta-discrete, InfisicalKubernetesAuthSpec-discrete, InfisicalKubernetesAuthStatus-discrete,
)
