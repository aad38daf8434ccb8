-- ===== src/Controller/KubernetesAuth/Drift.antt =====
-- When Kubernetes Auth is updated, and that an update ends it.
use infisical_entity_operato.Base.{String, Bool, true, false, ◌≡◌, ◌&&◌, not, arith, eq_iff, ◌==◌}
use infisical_entity_operato.Api.{InfisicalKubernetesAuth}
use infisical_entity_operato.Client.Wire.KubernetesAuth.{KubernetesAuth, KubernetesAuthPatch}
use infisical_entity_operato.Controller.Connections.{is_some}
use infisical_entity_operato.Controller.Optional.{
  Met, MetList, optional_int64_diff_iff, optional_bool_diff_iff, optional_list_diff_iff,
}
use infisical_entity_operato.Controller.KubernetesAuth.Csv.{join_csv}
use infisical_entity_operato.Controller.KubernetesAuth.Spec.{kubernetes_auth_mode}
use infisical_entity_operato.Controller.KubernetesAuth.State.{
  addresses, text_differs, if_set, when, kubernetes_trusted_ips_from, kubernetes_auth_patch_from,
  kubernetes_auth_needs_update,
}

-- The configuration has every value that a patch sets.
pub record Applied (patch : KubernetesAuthPatch) (current : KubernetesAuth) : Type 0 where
  pub kubernetes_host : Met patch.kubernetes_host current.kubernetes_host
  pub ca_cert : Met patch.ca_cert current.ca_cert
  pub verify_tls_certificate : Met patch.verify_tls_certificate current.verify_tls_certificate
  pub token_reviewer_jwt : Met patch.token_reviewer_jwt current.token_reviewer_jwt
  pub token_review_mode : Met patch.token_review_mode current.token_review_mode
  pub allowed_namespaces : Met patch.allowed_namespaces current.allowed_namespaces
  pub allowed_names : Met patch.allowed_names current.allowed_names
  pub allowed_audience : Met patch.allowed_audience current.allowed_audience
  pub access_token_trusted_ips :
      MetList
        (addresses patch.access_token_trusted_ips)
        (addresses current.access_token_trusted_ips)
  pub access_token_ttl : Met patch.access_token_ttl current.access_token_ttl
  pub access_token_max_ttl : Met patch.access_token_max_ttl current.access_token_max_ttl
  pub access_token_num_uses_limit :
      Met patch.access_token_num_uses_limit current.access_token_num_uses_limit

text_differs-Met :
    (want current : String) → Met (if_set want) current → text_differs want current ≡ false
text_differs-Met want current met = ground (arith, eq_iff current want)

unless-Met :
    (b : Bool) (want current : String)
    → Met (when b want) current
    → (b && not (current == want)) ≡ false
unless-Met true want current met = ground (arith, eq_iff current want)
unless-Met false want current met = ground arith

-- A configuration that has every value that the patch of the operator sets is not updated again.
pub kubernetes_auth_needs_update-Applied :
    (auth : InfisicalKubernetesAuth) (current : KubernetesAuth)
    (ca_cert token_reviewer_jwt : String)
    → Applied (kubernetes_auth_patch_from auth ca_cert token_reviewer_jwt) current
    → kubernetes_auth_needs_update auth current ca_cert token_reviewer_jwt ≡ false
unfolding kubernetes_auth_needs_update kubernetes_auth_patch_from
kubernetes_auth_needs_update-Applied auth current ca_cert token_reviewer_jwt applied = ground (
  arith,
  applied.allowed_namespaces,
  applied.allowed_names,
  applied.token_review_mode,
  eq_iff current.allowed_namespaces (join_csv auth.spec.allowed_namespaces),
  eq_iff current.allowed_names (join_csv auth.spec.allowed_names),
  eq_iff current.token_review_mode (kubernetes_auth_mode auth.spec.token_review_mode),
  text_differs-Met auth.spec.kubernetes_host current.kubernetes_host applied.kubernetes_host,
  text_differs-Met auth.spec.allowed_audience current.allowed_audience applied.allowed_audience,
  unless-Met (is_some auth.spec.ca_cert_secret_ref) ca_cert current.ca_cert applied.ca_cert,
  unless-Met (is_some auth.spec.token_reviewer_jwt_secret_ref) token_reviewer_jwt
      current.token_reviewer_jwt applied.token_reviewer_jwt,
  (optional_bool_diff_iff auth.spec.verify_tls_certificate current.verify_tls_certificate).1
      applied.verify_tls_certificate,
  (optional_list_diff_iff
        (addresses (kubernetes_trusted_ips_from auth.spec.access_token_trusted_ips))
        (addresses current.access_token_trusted_ips)).1
      applied.access_token_trusted_ips,
  (optional_int64_diff_iff auth.spec.access_token_ttl current.access_token_ttl).1
      applied.access_token_ttl,
  (optional_int64_diff_iff auth.spec.access_token_max_ttl current.access_token_max_ttl).1
      applied.access_token_max_ttl,
  (optional_int64_diff_iff auth.spec.access_token_num_uses_limit
        current.access_token_num_uses_limit).1
      applied.access_token_num_uses_limit,
)
