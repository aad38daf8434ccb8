-- ===== src/Controller/KubernetesAuth/Spec.antt =====
-- infisicalkubernetesauth_controller.go: validateKubernetesAuthSpec and what it calls.
pub mod Checks
pub mod Valid
use infisical_entity_operato.Base.{
  ℕ, suc, ℤ, pos, negsuc, String, Bool, true, false, not, ◌&&◌, ◌||◌, Option, none, some, List, [],
  ◌∷◌, ◌==◌, ltb, is_blank, is_empty, is_negative, trim_space, contains_whitespace, concat, decimal,
  quote, if◌then◌else◌,
}
use infisical_entity_operato.Failure.{Error, plain}
use infisical_entity_operato.Api.{
  SecretKeyReference, InfisicalKubernetesAuth, KubernetesTokenReviewMode,
  kubernetes_token_review_mode_api, KubernetesTrustedIp,
}
use infisical_entity_operato.Platform.{Platform}
use infisical_entity_operato.Controller.Connections.{is_some, secret_ref_blank}

-- `if test { return fmt.Errorf(text) }`
abbrev pub refuse : Bool → String → Option Error
refuse true text = some (plain text)
refuse false text = none

-- The checks one after the other, up to the first that fails
unfoldable pub first_error : List (Option Error) → Option Error
first_error [] = none
first_error (none ∷ rest) = first_error rest
first_error (some e ∷ rest) = some e

abbrev pub at_index : (field : String) → ℕ → String → String
at_index field i text = concat (field ∷ "[" ∷ decimal i ∷ "]" ∷ text ∷ [])

-- The checks of one value, and those of the values after it
abbrev pub value_checks : (field : String) → ℕ → String → Option Error → List (Option Error)
value_checks field i value rest =
    refuse (value == "" || is_blank value) (at_index field i " must not be empty")
    ∷ refuse (not (value == trim_space value))
        (at_index field i " must not have leading or trailing whitespace")
    ∷ rest
    ∷ []

unfoldable pub values_error : (field : String) → ℕ → List String → Option Error
unfolding first_error
values_error field i [] = none
values_error field i (value ∷ values) =
    first_error (value_checks field i value (values_error field (suc i) values))

unfoldable pub validate_kubernetes_auth_values : List String → (field : String) → Option Error
unfolding values_error
validate_kubernetes_auth_values values field =
    if is_empty values
    then some (plain (concat (field ∷ " must contain at least one value" ∷ [])))
    else values_error field 0 values

-- A duration in seconds that is set lies in the range.
abbrev pub bad_duration : Option ℤ → Bool
bad_duration none = false
bad_duration (some (negsuc n)) = true
bad_duration (some (pos n)) = ltb 315360000 n

unfoldable pub validate_kubernetes_auth_duration : Option ℤ → (field : String) → Option Error
validate_kubernetes_auth_duration value field =
    refuse (bad_duration value) (concat (field ∷ " must be between 0 and 315360000 seconds" ∷ []))

unfoldable pub kubernetes_auth_mode : KubernetesTokenReviewMode → KubernetesTokenReviewMode
kubernetes_auth_mode mode = if mode == "" then kubernetes_token_review_mode_api else mode

abbrev pub negative_limit : Option ℤ → Bool
negative_limit none = false
negative_limit (some n) = is_negative n

unfoldable pub verification_error : Option Bool → Option SecretKeyReference → Option Error
verification_error none ref = none
verification_error (some true) ref =
    refuse (not (is_some ref)) "caCertSecretRef is required when verifyTLSCertificate is true"
verification_error (some false) ref =
    refuse (is_some ref) "caCertSecretRef cannot be set when verifyTLSCertificate is false"

abbrev items_or_none {ℓ} : {A : Type ℓ} → Option (List A) → List A
items_or_none none = []
items_or_none (some xs) = xs

module _ (platform : Platform) where
  abbrev pub address_checks : ℕ → String → Option Error → List (Option Error)
  address_checks i address rest =
      refuse (address == "" || is_blank address)
        (at_index "accessTokenTrustedIPs" i ".ipAddress must not be empty")
      ∷ refuse (not (address == trim_space address)) (
          at_index "accessTokenTrustedIPs" i
            ".ipAddress must not have leading or trailing whitespace")
      ∷ refuse (not (platform.is_ip address) && not (platform.is_cidr address)) (
          at_index "accessTokenTrustedIPs" i
            (concat (".ipAddress " ∷ quote address ∷ " must be an IP address or CIDR range" ∷ [])))
      ∷ rest
      ∷ []

  unfoldable pub trusted_ips_error : ℕ → List KubernetesTrustedIp → Option Error
  unfolding first_error
  trusted_ips_error i [] = none
  trusted_ips_error i (ip ∷ ips) =
      first_error (address_checks i ip.ip_address (trusted_ips_error (suc i) ips))

  unfoldable pub validate_kubernetes_trusted_ips : Option (List KubernetesTrustedIp) → Option Error
  unfolding trusted_ips_error
  validate_kubernetes_trusted_ips ips = trusted_ips_error 0 (items_or_none ips)

  unfoldable pub spec_checks : InfisicalKubernetesAuth → List (Option Error)
  unfolding verification_error
  spec_checks auth =
      let spec = auth.spec in
      (refuse (is_blank spec.connection_ref.name) "connectionRef.name is required"
        ∷ refuse (is_blank spec.identity_ref.name) "identityRef.name is required"
        ∷ validate_kubernetes_auth_values spec.allowed_namespaces "allowedNamespaces"
        ∷ validate_kubernetes_auth_values spec.allowed_names "allowedNames"
        ∷ refuse
            (not (spec.kubernetes_host == "")
              && not (trim_space spec.kubernetes_host == spec.kubernetes_host))
            "kubernetesHost must not have leading or trailing whitespace"
        ∷ refuse (contains_whitespace spec.kubernetes_host)
            "kubernetesHost must not contain whitespace"
        ∷ refuse
            (not (kubernetes_auth_mode spec.token_review_mode == kubernetes_token_review_mode_api))
            (concat (
              "tokenReviewMode "
              ∷ quote spec.token_review_mode
              ∷ " is unsupported; only api is available in the free-tier API"
              ∷ []))
        ∷ verification_error spec.verify_tls_certificate spec.ca_cert_secret_ref
        ∷ refuse (secret_ref_blank spec.ca_cert_secret_ref) "caCertSecretRef.name is required"
        ∷ refuse (secret_ref_blank spec.token_reviewer_jwt_secret_ref)
            "tokenReviewerJWTSecretRef.name is required"
        ∷ validate_kubernetes_trusted_ips spec.access_token_trusted_ips
        ∷ validate_kubernetes_auth_duration spec.access_token_ttl "accessTokenTTL"
        ∷ validate_kubernetes_auth_duration spec.access_token_max_ttl "accessTokenMaxTTL"
        ∷ refuse (negative_limit spec.access_token_num_uses_limit)
            "accessTokenNumUsesLimit must not be negative"
        ∷ [])

  unfoldable pub validate_kubernetes_auth_spec : InfisicalKubernetesAuth → Option Error
  unfolding first_error spec_checks
  validate_kubernetes_auth_spec auth = first_error (spec_checks auth)
