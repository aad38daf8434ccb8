-- ===== src/Controller/KubernetesAuth/State.antt =====
-- infisicalkubernetesauth_controller.go: the status, the requests, and what Infisical's configuration is
-- compared with. A time or limit is an int64 of the API.
use infisical_entity_operato.Base.{
  String, Bool, true, false, not, ◌&&◌, ◌||◌, Option, none, some, List, map, ◌==◌, if◌then◌else◌,
}
use mathlib.Core.Option
use infisical_entity_operato.Api.{
  InfisicalKubernetesAuth, InfisicalKubernetesAuth-discrete, KubernetesTrustedIp,
}
use infisical_entity_operato.Platform.{Object}
use infisical_entity_operato.Client.Wire.KubernetesAuth.{
  TrustedIp, KubernetesAuth, CreateKubernetesAuthRequest, KubernetesAuthPatch,
}
use infisical_entity_operato.Controller.Connections.{is_some}
use infisical_entity_operato.Controller.Optional.{
  optional_int64_diff, optional_bool_diff, optional_list_diff,
}
use infisical_entity_operato.Controller.Objects.{Resource}
use infisical_entity_operato.Controller.Status.{Conditioned}
use infisical_entity_operato.Controller.KubernetesAuth.Csv.{split_csv, join_csv}
use infisical_entity_operato.Controller.KubernetesAuth.Spec.{kubernetes_auth_mode}

unfoldable pub kubernetes_auth_resource : Resource InfisicalKubernetesAuth
unfolding InfisicalKubernetesAuth-discrete
kubernetes_auth_resource = record {
  meta = λ a. a.meta;
  with_meta = λ m a. record a { meta = m };
  object = Object.kubernetes_auth;
  same = InfisicalKubernetesAuth-discrete;
}

-- Only the identifier is cleared where the auth method is gone.
unfoldable pub kubernetes_auth_status : Conditioned InfisicalKubernetesAuth
unfolding kubernetes_auth_resource
kubernetes_auth_status = record {
  resource = kubernetes_auth_resource;
  conditions = λ a. a.status.conditions;
  with_conditions = λ cs a. record a { status = record a.status { conditions = cs } };
  observe = λ a. record a { status = record a.status { observed_generation = a.meta.generation } };
  forget = λ a. record a { status = record a.status { auth_id = "" } };
}

unfoldable pub kubernetes_trusted_ips_from :
    Option (List KubernetesTrustedIp) → Option (List TrustedIp)
kubernetes_trusted_ips_from ips =
    Option.map (map (λ (ip : KubernetesTrustedIp). record { ip_address = ip.ip_address })) ips

unfoldable pub kubernetes_trusted_ips_to :
    Option (List TrustedIp) → Option (List KubernetesTrustedIp)
kubernetes_trusted_ips_to ips =
    Option.map (map (λ (ip : TrustedIp). record { ip_address = ip.ip_address })) ips

unfoldable pub kubernetes_auth_request_from :
    InfisicalKubernetesAuth → (ca_cert token_reviewer_jwt : String) → CreateKubernetesAuthRequest
unfolding kubernetes_trusted_ips_from
kubernetes_auth_request_from auth ca_cert token_reviewer_jwt = record {
  kubernetes_host = auth.spec.kubernetes_host;
  ca_cert = ca_cert;
  verify_tls_certificate = auth.spec.verify_tls_certificate;
  token_reviewer_jwt = token_reviewer_jwt;
  token_review_mode = kubernetes_auth_mode auth.spec.token_review_mode;
  allowed_namespaces = join_csv auth.spec.allowed_namespaces;
  allowed_names = join_csv auth.spec.allowed_names;
  allowed_audience = auth.spec.allowed_audience;
  access_token_trusted_ips = kubernetes_trusted_ips_from auth.spec.access_token_trusted_ips;
  access_token_ttl = auth.spec.access_token_ttl;
  access_token_max_ttl = auth.spec.access_token_max_ttl;
  access_token_num_uses_limit = auth.spec.access_token_num_uses_limit;
}

abbrev pub if_set : String → Option String
if_set text = if text == "" then none else some text

abbrev pub when {ℓ} : {A : Type ℓ} → Bool → A → Option A
when true a = some a
when false a = none

unfoldable pub kubernetes_auth_patch_from :
    InfisicalKubernetesAuth → (ca_cert token_reviewer_jwt : String) → KubernetesAuthPatch
unfolding kubernetes_trusted_ips_from
kubernetes_auth_patch_from auth ca_cert token_reviewer_jwt = record {
  kubernetes_host = if_set auth.spec.kubernetes_host;
  ca_cert = when (is_some auth.spec.ca_cert_secret_ref) ca_cert;
  verify_tls_certificate = auth.spec.verify_tls_certificate;
  token_reviewer_jwt = when (is_some auth.spec.token_reviewer_jwt_secret_ref) token_reviewer_jwt;
  token_review_mode = some (kubernetes_auth_mode auth.spec.token_review_mode);
  allowed_namespaces = some (join_csv auth.spec.allowed_namespaces);
  allowed_names = some (join_csv auth.spec.allowed_names);
  allowed_audience = if_set auth.spec.allowed_audience;
  access_token_trusted_ips = kubernetes_trusted_ips_from auth.spec.access_token_trusted_ips;
  access_token_ttl = auth.spec.access_token_ttl;
  access_token_max_ttl = auth.spec.access_token_max_ttl;
  access_token_num_uses_limit = auth.spec.access_token_num_uses_limit;
}

abbrev pub addresses : Option (List TrustedIp) → Option (List String)
addresses ips = Option.map (map (λ (ip : TrustedIp). ip.ip_address)) ips

-- `want != "" && current != want`
abbrev pub text_differs : (want current : String) → Bool
text_differs want current = not (want == "") && not (current == want)

unfoldable pub kubernetes_auth_needs_update :
    InfisicalKubernetesAuth → KubernetesAuth → (ca_cert token_reviewer_jwt : String) → Bool
unfolding kubernetes_trusted_ips_from
kubernetes_auth_needs_update auth current ca_cert token_reviewer_jwt =
    let spec = auth.spec in
    not (current.allowed_namespaces == join_csv spec.allowed_namespaces)
    || not (current.allowed_names == join_csv spec.allowed_names)
    || text_differs spec.kubernetes_host current.kubernetes_host
    || text_differs spec.allowed_audience current.allowed_audience
    || (not (spec.token_review_mode == "")
        && not (current.token_review_mode == kubernetes_auth_mode spec.token_review_mode))
    || optional_bool_diff spec.verify_tls_certificate current.verify_tls_certificate
    || (is_some spec.ca_cert_secret_ref && not (current.ca_cert == ca_cert))
    || (is_some spec.token_reviewer_jwt_secret_ref
        && not (current.token_reviewer_jwt == token_reviewer_jwt))
    || optional_list_diff (addresses (kubernetes_trusted_ips_from spec.access_token_trusted_ips))
        (addresses current.access_token_trusted_ips)
    || optional_int64_diff spec.access_token_ttl current.access_token_ttl
    || optional_int64_diff spec.access_token_max_ttl current.access_token_max_ttl
    || optional_int64_diff spec.access_token_num_uses_limit current.access_token_num_uses_limit

unfoldable pub set_kubernetes_auth_observed_state :
    InfisicalKubernetesAuth → KubernetesAuth → (identity_id : String) → InfisicalKubernetesAuth
unfolding kubernetes_trusted_ips_to
set_kubernetes_auth_observed_state auth observed identity_id = record auth {
  status = record auth.status {
    auth_id = observed.id;
    identity_id = identity_id;
    kubernetes_host = observed.kubernetes_host;
    allowed_namespaces = split_csv observed.allowed_namespaces;
    allowed_names = split_csv observed.allowed_names;
    allowed_audience = observed.allowed_audience;
    token_review_mode = observed.token_review_mode;
    verify_tls_certificate = observed.verify_tls_certificate;
    has_ca_certificate = not (observed.ca_cert == "");
    has_token_reviewer_jwt = not (observed.token_reviewer_jwt == "");
    access_token_trusted_ips = kubernetes_trusted_ips_to observed.access_token_trusted_ips;
    access_token_ttl = observed.access_token_ttl;
    access_token_max_ttl = observed.access_token_max_ttl;
    access_token_num_uses_limit = observed.access_token_num_uses_limit;
    observed_generation = auth.meta.generation;
  };
}
