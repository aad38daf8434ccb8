-- ===== src/Controller/KubernetesAuth/Tests.antt =====
-- Instances of the theorems on the Kubernetes Auth controller.
use infisical_entity_operato.Base.{
  ◌≡◌, ◌↔◌, refl, false, none, [], ◌∷◌, sort_strings, insert_by, str_le, join, trim_space,
  trim_right, arith, eq_iff,
}
use infisical_entity_operato.Client.Wire.KubernetesAuth.{KubernetesAuth, no_kubernetes_auth}
use infisical_entity_operato.Controller.KubernetesAuth.Csv.{split_csv, join_csv, sorted_strings}
use infisical_entity_operato.Controller.KubernetesAuth.Csv.RoundTrip.{split_csv-join_csv}
use infisical_entity_operato.Controller.KubernetesAuth.Spec.{
  validate_kubernetes_auth_spec, kubernetes_auth_mode,
}
use infisical_entity_operato.Controller.KubernetesAuth.Spec.Valid.{
  IsValidSpec, validate_kubernetes_auth_spec_iff,
}
use infisical_entity_operato.Controller.KubernetesAuth.State.{
  kubernetes_auth_needs_update, kubernetes_auth_patch_from, kubernetes_trusted_ips_from,
}
use infisical_entity_operato.Base.Strings.Trim.{lacks}
use infisical_entity_operato.Controller.KubernetesAuth.Drift.{
  Applied, kubernetes_auth_needs_update-Applied,
}
use infisical_entity_operato.Demo.{demo_platform, demo_kubernetes_auth}

validate_kubernetes_auth_spec_iff_example :
    (validate_kubernetes_auth_spec demo_platform demo_kubernetes_auth ≡ none)
    ↔ IsValidSpec demo_platform demo_kubernetes_auth.spec
validate_kubernetes_auth_spec_iff_example =
    validate_kubernetes_auth_spec_iff demo_platform demo_kubernetes_auth

split_csv-join_csv_example :
    split_csv (join_csv ("web" ∷ "api" ∷ [])) ≡ sort_strings ("web" ∷ "api" ∷ [])
unfolding trim_space trim_right lacks
split_csv-join_csv_example =
    split_csv-join_csv ("web" ∷ "api" ∷ []) (λ e. cc)
      (
        (refl, (λ e. ground (arith, (eq_iff "web" "").1 e)), refl),
        ((refl, (λ e. ground (arith, (eq_iff "api" "").1 e)), refl), tt),
      )

-- The configuration that the demo asks for
abbrev applied_auth : KubernetesAuth
applied_auth = record no_kubernetes_auth {
  kubernetes_host = "https://kube";
  allowed_namespaces = "api,web";
  allowed_names = "default";
  token_review_mode = "api";
}

demo-Applied : Applied (kubernetes_auth_patch_from demo_kubernetes_auth "" "") applied_auth
unfolding kubernetes_auth_patch_from kubernetes_auth_mode join_csv sorted_strings sort_strings
    insert_by str_le join kubernetes_trusted_ips_from
demo-Applied = record {
  kubernetes_host = refl;
  ca_cert = tt;
  verify_tls_certificate = tt;
  token_reviewer_jwt = tt;
  token_review_mode = refl;
  allowed_namespaces = refl;
  allowed_names = refl;
  allowed_audience = tt;
  access_token_trusted_ips = tt;
  access_token_ttl = tt;
  access_token_max_ttl = tt;
  access_token_num_uses_limit = tt;
}

kubernetes_auth_needs_update-Applied_example :
    kubernetes_auth_needs_update demo_kubernetes_auth applied_auth "" "" ≡ false
kubernetes_auth_needs_update-Applied_example =
    kubernetes_auth_needs_update-Applied demo_kubernetes_auth applied_auth "" "" demo-Applied
