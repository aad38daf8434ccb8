-- ===== src/Client/Wire/KubernetesAuth.antt =====
-- The structs of internal/infisicalclient/kubernetesauth.go and their JSON. A pointer to a nil slice is
-- read as one to an empty slice.
use infisical_entity_operato.Base.{
  ℤ, pos, String, Bool, false, Option, none, some, List, ◌==◌, if◌then◌else◌,
}
use infisical_entity_operato.Result.{Result, ok, err, ◌>>=◌}
use infisical_entity_operato.Failure.{Error, plain}
use infisical_entity_operato.Json.{
  Json, Fields, obj, end, field, str, bool, num, arr, items, member, string_of, bool_of, int_of,
  object_of, items_of, omit_empty, omit_nil, omit_no_items,
}

pub record TrustedIp : Type 0 where
  pub ip_address : String

unfoldable pub decode_trusted_ip : Json → Result Error TrustedIp
decode_trusted_ip v =
    object_of
      (λ fs. do
        ip_address ← string_of (member "ipAddress" fs)
        ok (record { ip_address = ip_address }))
      (some v)

unfoldable pub encode_trusted_ip : TrustedIp → Json
encode_trusted_ip ip = obj (field "ipAddress" (str ip.ip_address) end)

pub record KubernetesAuth : Type 0 where
  pub id : String
  pub identity_id : String
  pub kubernetes_host : String
  pub allowed_namespaces : String
  pub allowed_names : String
  pub allowed_audience : String
  pub token_review_mode : String
  pub verify_tls_certificate : Bool
  pub ca_cert : String
  pub token_reviewer_jwt : String
  pub access_token_trusted_ips : Option (List TrustedIp)
  pub access_token_ttl : ℤ
  pub access_token_max_ttl : ℤ
  pub access_token_num_uses_limit : ℤ

abbrev pub no_kubernetes_auth : KubernetesAuth
no_kubernetes_auth = record {
  id = "";
  identity_id = "";
  kubernetes_host = "";
  allowed_namespaces = "";
  allowed_names = "";
  allowed_audience = "";
  token_review_mode = "";
  verify_tls_certificate = false;
  ca_cert = "";
  token_reviewer_jwt = "";
  access_token_trusted_ips = none;
  access_token_ttl = pos 0;
  access_token_max_ttl = pos 0;
  access_token_num_uses_limit = pos 0;
}

unfoldable pub decode_kubernetes_auth : Fields → Result Error KubernetesAuth
decode_kubernetes_auth fs = do
  id ← string_of (member "id" fs)
  identity_id ← string_of (member "identityId" fs)
  kubernetes_host ← string_of (member "kubernetesHost" fs)
  allowed_namespaces ← string_of (member "allowedNamespaces" fs)
  allowed_names ← string_of (member "allowedNames" fs)
  allowed_audience ← string_of (member "allowedAudience" fs)
  token_review_mode ← string_of (member "tokenReviewMode" fs)
  verify_tls_certificate ← bool_of (member "verifyTlsCertificate" fs)
  ca_cert ← string_of (member "caCert" fs)
  token_reviewer_jwt ← string_of (member "tokenReviewerJwt" fs)
  access_token_trusted_ips ← items_of decode_trusted_ip (member "accessTokenTrustedIps" fs)
  access_token_ttl ← int_of 63 (member "accessTokenTTL" fs)
  access_token_max_ttl ← int_of 63 (member "accessTokenMaxTTL" fs)
  access_token_num_uses_limit ← int_of 63 (member "accessTokenNumUsesLimit" fs)
  ok (record {
    id = id;
    identity_id = identity_id;
    kubernetes_host = kubernetes_host;
    allowed_namespaces = allowed_namespaces;
    allowed_names = allowed_names;
    allowed_audience = allowed_audience;
    token_review_mode = token_review_mode;
    verify_tls_certificate = verify_tls_certificate;
    ca_cert = ca_cert;
    token_reviewer_jwt = token_reviewer_jwt;
    access_token_trusted_ips = access_token_trusted_ips;
    access_token_ttl = access_token_ttl;
    access_token_max_ttl = access_token_max_ttl;
    access_token_num_uses_limit = access_token_num_uses_limit;
  })

unfoldable pub validate_kubernetes_auth : KubernetesAuth → Result Error KubernetesAuth
validate_kubernetes_auth auth =
    if auth.id == ""
    then err (plain "infisical API returned Kubernetes Auth without an ID")
    else ok auth

pub record CreateKubernetesAuthRequest : Type 0 where
  pub kubernetes_host : String
  pub ca_cert : String
  pub verify_tls_certificate : Option Bool
  pub token_reviewer_jwt : String
  pub token_review_mode : String
  pub allowed_namespaces : String
  pub allowed_names : String
  pub allowed_audience : String
  pub access_token_trusted_ips : Option (List TrustedIp)
  pub access_token_ttl : Option ℤ
  pub access_token_max_ttl : Option ℤ
  pub access_token_num_uses_limit : Option ℤ

unfoldable pub encode_create_kubernetes_auth : CreateKubernetesAuthRequest → Json
encode_create_kubernetes_auth request = obj (
    omit_empty "kubernetesHost" request.kubernetes_host (
      omit_empty "caCert" request.ca_cert (
        omit_nil "verifyTlsCertificate" bool request.verify_tls_certificate (
          omit_empty "tokenReviewerJwt" request.token_reviewer_jwt (
            omit_empty "tokenReviewMode" request.token_review_mode (
              field "allowedNamespaces" (str request.allowed_namespaces) (
                field "allowedNames" (str request.allowed_names) (
                  omit_empty "allowedAudience" request.allowed_audience (
                    omit_no_items "accessTokenTrustedIps" encode_trusted_ip
                      request.access_token_trusted_ips
                      (omit_nil "accessTokenTTL" num request.access_token_ttl (
                        omit_nil "accessTokenMaxTTL" num request.access_token_max_ttl (
                          omit_nil "accessTokenNumUsesLimit" num request.access_token_num_uses_limit
                            end))))))))))))

pub record KubernetesAuthPatch : Type 0 where
  pub kubernetes_host : Option String
  pub ca_cert : Option String
  pub verify_tls_certificate : Option Bool
  pub token_reviewer_jwt : Option String
  pub token_review_mode : Option String
  pub allowed_namespaces : Option String
  pub allowed_names : Option String
  pub allowed_audience : Option String
  pub access_token_trusted_ips : Option (List TrustedIp)
  pub access_token_ttl : Option ℤ
  pub access_token_max_ttl : Option ℤ
  pub access_token_num_uses_limit : Option ℤ

unfoldable pub encode_kubernetes_auth_patch : KubernetesAuthPatch → Json
encode_kubernetes_auth_patch patch = obj (
    omit_nil "kubernetesHost" str patch.kubernetes_host (
      omit_nil "caCert" str patch.ca_cert (
        omit_nil "verifyTlsCertificate" bool patch.verify_tls_certificate (
          omit_nil "tokenReviewerJwt" str patch.token_reviewer_jwt (
            omit_nil "tokenReviewMode" str patch.token_review_mode (
              omit_nil "allowedNamespaces" str patch.allowed_namespaces (
                omit_nil "allowedNames" str patch.allowed_names (
                  omit_nil "allowedAudience" str patch.allowed_audience (
                    omit_nil "accessTokenTrustedIps" (λ ips. arr (items encode_trusted_ip ips))
                      patch.access_token_trusted_ips
                      (omit_nil "accessTokenTTL" num patch.access_token_ttl (
                        omit_nil "accessTokenMaxTTL" num patch.access_token_max_ttl (
                          omit_nil "accessTokenNumUsesLimit" num patch.access_token_num_uses_limit
                            end))))))))))))
