-- ===== src/Controller/KubernetesAuth/Spec/Valid.antt =====
-- Which specifications of Kubernetes Auth pass the checks.
use infisical_entity_operato.Base.{
  false, ◌≡◌, ◌≢◌, ◌↔◌, ◌⊎◌, none, [], All, is_blank, trim_space, contains_whitespace,
}
use infisical_entity_operato.Api.{InfisicalKubernetesAuth, InfisicalKubernetesAuthSpec}
use infisical_entity_operato.Platform.{Platform}
use infisical_entity_operato.Controller.KubernetesAuth.Spec.{
  spec_checks, items_or_none, validate_kubernetes_trusted_ips, validate_kubernetes_auth_spec,
}
use infisical_entity_operato.Controller.KubernetesAuth.Spec.Checks.{
  first_error_iff, refuse_iff, named_values_iff, duration_iff, negative_iff, verification_iff,
  IsNamed-iff, addresses_iff, host_iff, mode_iff, IsWord, InRange, NotNegative, MatchesVerification,
  IsNamed, IsAddress,
}

pub record IsValidSpec (platform : Platform) (spec : InfisicalKubernetesAuthSpec) : Type 0 where
  pub connection_named : is_blank spec.connection_ref.name ≡ false
  pub identity_named : is_blank spec.identity_ref.name ≡ false
  pub namespaces : (spec.allowed_namespaces ≢ []) × All IsWord spec.allowed_namespaces
  pub names : (spec.allowed_names ≢ []) × All IsWord spec.allowed_names
  pub host_trimmed :
      (spec.kubernetes_host ≡ "") ⊎ (trim_space spec.kubernetes_host ≡ spec.kubernetes_host)
  pub host_unbroken : contains_whitespace spec.kubernetes_host ≡ false
  pub mode : (spec.token_review_mode ≡ "") ⊎ (spec.token_review_mode ≡ "api")
  pub verification : MatchesVerification spec.verify_tls_certificate spec.ca_cert_secret_ref
  pub ca_cert_named : IsNamed spec.ca_cert_secret_ref
  pub token_reviewer_jwt_named : IsNamed spec.token_reviewer_jwt_secret_ref
  pub addresses : All (IsAddress platform) (items_or_none spec.access_token_trusted_ips)
  pub ttl : InRange spec.access_token_ttl
  pub max_ttl : InRange spec.access_token_max_ttl
  pub uses : NotNegative spec.access_token_num_uses_limit

module _ (platform : Platform) (auth : InfisicalKubernetesAuth) where
  valid-IsValidSpec :
      validate_kubernetes_auth_spec platform auth ≡ none → IsValidSpec platform auth.spec
  unfolding validate_kubernetes_auth_spec spec_checks validate_kubernetes_trusted_ips
  valid-IsValidSpec h =
      let (
        connection,
        (
          identity,
          (
            namespaces,
            (
              names,
              (
                trimmed,
                (
                  unbroken,
                  (mode, (verification, (ca, (jwt, (addresses, (ttl, (max_ttl, (uses, _)))))))),
                ),
              ),
            ),
          ),
        ),
      ) =
        (first_error_iff (spec_checks platform auth)).0 h in
      record {
        connection_named = (refuse_iff _ _).0 connection;
        identity_named = (refuse_iff _ _).0 identity;
        namespaces = (named_values_iff _ _).0 namespaces;
        names = (named_values_iff _ _).0 names;
        host_trimmed = (host_iff _).0 ((refuse_iff _ _).0 trimmed);
        host_unbroken = (refuse_iff _ _).0 unbroken;
        mode = (mode_iff _).0 ((refuse_iff _ _).0 mode);
        verification = (verification_iff _ _).0 verification;
        ca_cert_named = (IsNamed-iff _).0 ((refuse_iff _ _).0 ca);
        token_reviewer_jwt_named = (IsNamed-iff _).0 ((refuse_iff _ _).0 jwt);
        addresses = (addresses_iff platform 0 _).0 addresses;
        ttl = (duration_iff _ _).0 ttl;
        max_ttl = (duration_iff _ _).0 max_ttl;
        uses = (negative_iff _).0 ((refuse_iff _ _).0 uses);
      }

  IsValidSpec-valid :
      IsValidSpec platform auth.spec → validate_kubernetes_auth_spec platform auth ≡ none
  unfolding validate_kubernetes_auth_spec spec_checks validate_kubernetes_trusted_ips
  IsValidSpec-valid v = (first_error_iff (spec_checks platform auth)).1 (
    (refuse_iff _ _).1 v.connection_named,
    (
      (refuse_iff _ _).1 v.identity_named,
      (
        (named_values_iff _ _).1 v.namespaces,
        (
          (named_values_iff _ _).1 v.names,
          (
            (refuse_iff _ _).1 ((host_iff _).1 v.host_trimmed),
            (
              (refuse_iff _ _).1 v.host_unbroken,
              (
                (refuse_iff _ _).1 ((mode_iff _).1 v.mode),
                (
                  (verification_iff _ _).1 v.verification,
                  (
                    (refuse_iff _ _).1 ((IsNamed-iff _).1 v.ca_cert_named),
                    (
                      (refuse_iff _ _).1 ((IsNamed-iff _).1 v.token_reviewer_jwt_named),
                      (
                        (addresses_iff platform 0 _).1 v.addresses,
                        (
                          (duration_iff _ _).1 v.ttl,
                          (
                            (duration_iff _ _).1 v.max_ttl,
                            ((refuse_iff _ _).1 ((negative_iff _).1 v.uses), tt),
                          ),
                        ),
                      ),
                    ),
                  ),
                ),
              ),
            ),
          ),
        ),
      ),
    ),
  )

  -- A specification of Kubernetes Auth passes the checks exactly when it names its connection and its
  -- identity, and each setting of it is valid.
  pub validate_kubernetes_auth_spec_iff :
      (validate_kubernetes_auth_spec platform auth ≡ none) ↔ IsValidSpec platform auth.spec
  validate_kubernetes_auth_spec_iff = (valid-IsValidSpec, IsValidSpec-valid)
