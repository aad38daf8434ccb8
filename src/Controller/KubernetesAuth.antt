-- ===== src/Controller/KubernetesAuth.antt =====
-- internal/controller/infisical/infisicalkubernetesauth_controller.go
pub mod Csv
pub mod Spec
pub mod State
pub mod Calls
pub mod Safety
pub mod Drift
mod Tests
use infisical_entity_operato.Base.{
  String, Bool, true, false, not, ◌&&◌, ◌||◌, Option, none, some, [], ◌∷◌, ◌==◌, concat,
  if◌then◌else◌,
}
use infisical_entity_operato.Result.{Result, ok, err}
use infisical_entity_operato.Failure.{Error, dependency, is_not_found, is_kube_not_found}
use infisical_entity_operato.Api.{InfisicalKubernetesAuth, deletion_policy_orphan}
use infisical_entity_operato.Platform.{Key, Platform}
use infisical_entity_operato.Exec.{
  Exec, Response, pure, raise, check, attempt, or_return, read_identity, read_kubernetes_auth,
  ◌>>=◌, ◌>>◌,
}
use infisical_entity_operato.Client.{
  Client, get_kubernetes_auth, attach_kubernetes_auth, update_kubernetes_auth,
  delete_kubernetes_auth,
}
use infisical_entity_operato.Client.Wire.KubernetesAuth.{KubernetesAuth}
use infisical_entity_operato.Controller.Policies.{deletion_policy, can_adopt, can_create}
use infisical_entity_operato.Controller.Connections.{
  infisical_client_for_connection, optional_secret_value_from_reference,
}
use infisical_entity_operato.Controller.Objects.{reconcile_object, delete_external}
use infisical_entity_operato.Controller.Status.{status_error, status_missing, status_ready}
use infisical_entity_operato.Controller.KubernetesAuth.Spec.{validate_kubernetes_auth_spec}
use infisical_entity_operato.Controller.KubernetesAuth.State.{
  kubernetes_auth_resource, kubernetes_auth_status, kubernetes_auth_request_from,
  kubernetes_auth_patch_from, kubernetes_auth_needs_update, set_kubernetes_auth_observed_state,
}

-- The values of the two Secrets
pub record Credentials : Type 0 where
  pub ca_cert : String
  pub token_reviewer_jwt : String

module _ (platform : Platform) where
  unfoldable pub kubernetes_auth_error :
      InfisicalKubernetesAuth → (reason : String) → Error → Exec Response Response
  kubernetes_auth_error = status_error platform kubernetes_auth_status

  -- The identifier of the identity that the auth method belongs to
  unfoldable pub identity_step : InfisicalKubernetesAuth → Exec Response String
  identity_step auth = do
    let namespace = auth.meta.namespace
    let name = auth.spec.identity_ref.name
    identity ←
        or_return (read_identity platform (record { namespace = namespace; name = name })) (λ e.
          if is_kube_not_found e
          then kubernetes_auth_error auth "IdentityNotReady" (
              dependency
                (concat ("InfisicalIdentity " ∷ namespace ∷ "/" ∷ name ∷ " was not found" ∷ [])))
          else kubernetes_auth_error auth "IdentityReadFailed" e)
    or_return
        (check (
          if identity.status.identity_id == ""
          then some (
              dependency (
                concat (
                  "InfisicalIdentity " ∷ identity.meta.namespace ∷ "/" ∷ identity.meta.name
                  ∷ " has no observed Infisical identity ID" ∷ [])))
          else none))
        (kubernetes_auth_error auth "IdentityNotReady")
    pure identity.status.identity_id

  unfoldable pub kubernetes_auth_secrets : InfisicalKubernetesAuth → Exec Error Credentials
  kubernetes_auth_secrets auth = do
    ca_cert ←
        optional_secret_value_from_reference platform auth.meta.namespace
          auth.spec.ca_cert_secret_ref "ca.crt" "Kubernetes CA certificate"
    token_reviewer_jwt ←
        optional_secret_value_from_reference platform auth.meta.namespace
          auth.spec.token_reviewer_jwt_secret_ref "token" "Kubernetes token reviewer JWT"
    pure (record { ca_cert = ca_cert; token_reviewer_jwt = token_reviewer_jwt })

  module _ (c : Client) (identity_id : String) where
    adopt_found :
        InfisicalKubernetesAuth
        → Result Error KubernetesAuth
        → Exec Response InfisicalKubernetesAuth
    adopt_found auth (err e) =
        if not (is_not_found e)
        then (or_return (raise e) (kubernetes_auth_error auth "ExternalReadFailed"))
        else pure auth
    adopt_found auth (ok adopted) =
        pure (set_kubernetes_auth_observed_state auth adopted identity_id)

    unfoldable pub adopt_step : InfisicalKubernetesAuth → Exec Response InfisicalKubernetesAuth
    unfolding adopt_found
    adopt_step auth =
        if auth.status.auth_id == "" && can_adopt auth.spec.creation_policy
        then (do
          found ← attempt (get_kubernetes_auth platform c identity_id)
          adopt_found auth found)
        else pure auth

    unfoldable pub create_missing :
        Credentials → InfisicalKubernetesAuth → Exec Response InfisicalKubernetesAuth
    create_missing secrets auth = do
      or_return
          (check (
            if not (can_create auth.spec.creation_policy)
            then some (dependency "Kubernetes Auth was not found and creationPolicy is Adopt")
            else none))
          (kubernetes_auth_error auth "CreationNotAllowed")
      created ←
          or_return
            (attach_kubernetes_auth platform c identity_id
              (kubernetes_auth_request_from auth secrets.ca_cert secrets.token_reviewer_jwt))
            (kubernetes_auth_error auth "ExternalCreateFailed")
      pure (set_kubernetes_auth_observed_state auth created identity_id)

    unfoldable pub create_step :
        Credentials → InfisicalKubernetesAuth → Exec Response InfisicalKubernetesAuth
    create_step secrets auth =
        if auth.status.auth_id == "" then create_missing secrets auth else pure auth

    unfoldable pub read_step : InfisicalKubernetesAuth → Exec Response KubernetesAuth
    read_step auth = or_return (get_kubernetes_auth platform c identity_id) (λ e.
        if is_not_found e
        then status_missing platform kubernetes_auth_status auth "RemoteKubernetesAuthMissing"
            "the Kubernetes Auth method no longer exists in Infisical; it will be recreated according to creationPolicy"
        else kubernetes_auth_error auth "ExternalReadFailed" e)

    unfoldable pub update_step :
        Credentials → InfisicalKubernetesAuth → KubernetesAuth → Exec Response KubernetesAuth
    update_step secrets auth current =
        if kubernetes_auth_needs_update auth current secrets.ca_cert secrets.token_reviewer_jwt
        then or_return
            (update_kubernetes_auth platform c identity_id
              (kubernetes_auth_patch_from auth secrets.ca_cert secrets.token_reviewer_jwt))
            (kubernetes_auth_error auth "ExternalUpdateFailed")
        else pure current

  unfoldable pub reconcile_kubernetes_auth : InfisicalKubernetesAuth → Exec Response Response
  reconcile_kubernetes_auth auth = do
    or_return (check (validate_kubernetes_auth_spec platform auth))
        (kubernetes_auth_error auth "InvalidSpec")
    identity_id ← identity_step auth
    c ←
        or_return
          (infisical_client_for_connection platform auth.meta.namespace auth.spec.connection_ref)
          (kubernetes_auth_error auth "ConnectionNotReady")
    adopted ← adopt_step c identity_id auth
    secrets ←
        or_return (kubernetes_auth_secrets adopted) (kubernetes_auth_error adopted "SecretNotReady")
    acquired ← create_step c identity_id secrets adopted
    current ← read_step c identity_id acquired
    updated ← update_step c identity_id secrets acquired current
    status_ready platform kubernetes_auth_status auth
        (set_kubernetes_auth_observed_state acquired updated identity_id)
        "Infisical Kubernetes Auth is reconciled"

  unfoldable pub reconcile_kubernetes_auth_deletion :
      InfisicalKubernetesAuth → Exec Response Response
  reconcile_kubernetes_auth_deletion auth =
      delete_external platform kubernetes_auth_resource
        (deletion_policy auth.spec.deletion_policy == deletion_policy_orphan
          || auth.status.identity_id == "")
        auth.spec.connection_ref (λ c. delete_kubernetes_auth platform c auth.status.identity_id)
        auth

  unfoldable pub reconcile_kubernetes_auth_request : Key → Exec Response Response
  reconcile_kubernetes_auth_request key =
      reconcile_object platform kubernetes_auth_resource (λ a. a.spec.deletion_policy)
        reconcile_kubernetes_auth reconcile_kubernetes_auth_deletion
        (read_kubernetes_auth platform key)
