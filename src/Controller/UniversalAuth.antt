-- ===== src/Controller/UniversalAuth.antt =====
-- internal/controller/infisical/infisicaluniversalauth_controller.go
pub mod State
pub mod Publish
pub mod Recovery
pub mod Rotation
pub mod Calls
pub mod Safety
pub mod Drift
pub mod Acquire
mod Tests
use infisical_entity_operato.Base.{
  String, Bool, true, false, not, ◌&&◌, ◌||◌, Option, none, some, [], ◌∷◌, ◌==◌, concat,
  if◌then◌else◌,
}
use infisical_entity_operato.Result.{Result, ok, err}
use infisical_entity_operato.Failure.{
  Error, dependency, is_not_found, is_kube_not_found, external_retry,
}
use infisical_entity_operato.Api.{
  InfisicalIdentity, InfisicalUniversalAuth, deletion_policy_orphan, condition_false,
}
use infisical_entity_operato.Platform.{Key, Platform}
use infisical_entity_operato.Exec.{
  Exec, Response, pure, raise, check, attempt, or_return, or_wrap, read_identity,
  read_universal_auth, ◌>>=◌, ◌>>◌,
}
use infisical_entity_operato.Client.{
  Client, get_universal_auth, attach_universal_auth, update_universal_auth, delete_universal_auth,
  revoke_universal_auth_client_secret,
}
use infisical_entity_operato.Client.Wire.UniversalAuth.{UniversalAuthConfig}
use infisical_entity_operato.Controller.Policies.{deletion_policy, can_adopt, can_create}
use infisical_entity_operato.Controller.Conditions.{condition_ready}
use infisical_entity_operato.Controller.Connections.{infisical_client_for_connection}
use infisical_entity_operato.Controller.Objects.{
  persist_status, respond, reconcile_object, delete_external,
}
use infisical_entity_operato.Controller.Status.{set_status, status_error, status_ready}
use infisical_entity_operato.Controller.UniversalAuth.State.{
  universal_auth_resource, universal_auth_status, clear_universal_auth_status,
  universal_auth_config_request, universal_auth_config_needs_update,
  validate_universal_auth_ownership, set_universal_auth_observed_state,
}
use infisical_entity_operato.Controller.UniversalAuth.Rotation.{ensure_universal_auth_client_secret}

module _ (platform : Platform) where
  unfoldable pub universal_auth_error :
      InfisicalUniversalAuth → (reason : String) → Error → Exec Response Response
  universal_auth_error = status_error platform universal_auth_status

  -- The observed generation stays where the auth method is gone.
  unfoldable pub universal_auth_missing : InfisicalUniversalAuth → Exec Response Response
  universal_auth_missing auth r =
      respond external_retry
        (persist_status platform universal_auth_resource
          (set_status universal_auth_status (platform.now r.calls)
            (clear_universal_auth_status auth) condition_false "RemoteAuthMissing"
            "Universal Auth is no longer attached; it will be recreated according to creationPolicy")
          auth)
        r

  unfoldable pub universal_auth_identity : InfisicalUniversalAuth → Exec Error InfisicalIdentity
  universal_auth_identity auth = do
    let namespace = auth.meta.namespace
    let name = auth.spec.identity_ref.name
    identity ←
        or_wrap (read_identity platform (record { namespace = namespace; name = name })) (λ e.
          if is_kube_not_found e
          then dependency
              (concat ("InfisicalIdentity " ∷ namespace ∷ "/" ∷ name ∷ " was not found" ∷ []))
          else e)
    check (
        if identity.status.identity_id == "" || not (condition_ready identity.status.conditions)
        then some (
            dependency (
              concat (
                "InfisicalIdentity " ∷ identity.meta.namespace ∷ "/" ∷ identity.meta.name
                ∷ " is not ready" ∷ [])))
        else none)
    pure identity

  module _ (c : Client) (identity_id : String) where
    adopt_found :
        InfisicalUniversalAuth
        → Result Error UniversalAuthConfig
        → Exec Response InfisicalUniversalAuth
    adopt_found auth (err e) =
        if not (is_not_found e)
        then (or_return (raise e) (universal_auth_error auth "ExternalReadFailed"))
        else (do
          or_return
              (check (
                if not (can_create auth.spec.creation_policy)
                then some (dependency "Universal Auth is not attached and creationPolicy is Adopt")
                else none))
              (universal_auth_error auth "RemoteAuthMissing")
          pure auth)
    adopt_found auth (ok adopted) = do
      or_return (check (validate_universal_auth_ownership adopted identity_id))
          (universal_auth_error auth "ExternalAuthMismatch")
      pure (set_universal_auth_observed_state auth adopted)

    unfoldable pub adopt_step : InfisicalUniversalAuth → Exec Response InfisicalUniversalAuth
    unfolding adopt_found
    adopt_step auth =
        if auth.status.auth_id == "" && can_adopt auth.spec.creation_policy
        then (do
          found ← attempt (get_universal_auth platform c identity_id)
          adopt_found auth found)
        else pure auth

    unfoldable pub create_missing : InfisicalUniversalAuth → Exec Response InfisicalUniversalAuth
    create_missing auth = do
      or_return
          (check (
            if not (can_create auth.spec.creation_policy)
            then some (dependency "Universal Auth is not attached and creationPolicy is Adopt")
            else none))
          (universal_auth_error auth "CreationNotAllowed")
      attached ←
          or_return
            (attach_universal_auth platform c identity_id (universal_auth_config_request auth))
            (universal_auth_error auth "ExternalCreateFailed")
      pure (set_universal_auth_observed_state auth attached)

    unfoldable pub create_step : InfisicalUniversalAuth → Exec Response InfisicalUniversalAuth
    create_step auth = if auth.status.auth_id == "" then create_missing auth else pure auth

    unfoldable pub read_step : InfisicalUniversalAuth → Exec Response UniversalAuthConfig
    read_step auth = do
      current ← or_return (get_universal_auth platform c identity_id) (λ e.
          if is_not_found e
          then universal_auth_missing auth
          else universal_auth_error auth "ExternalReadFailed" e)
      or_return (check (validate_universal_auth_ownership current identity_id))
          (universal_auth_error auth "ExternalAuthMismatch")
      pure current

    unfoldable pub update_step :
        InfisicalUniversalAuth → UniversalAuthConfig → Exec Response UniversalAuthConfig
    update_step auth current =
        if universal_auth_config_needs_update auth current
        then or_return
            (update_universal_auth platform c identity_id (universal_auth_config_request auth))
            (universal_auth_error auth "ExternalUpdateFailed")
        else pure current

  unfoldable pub reconcile_universal_auth : InfisicalUniversalAuth → Exec Response Response
  reconcile_universal_auth auth = do
    identity ←
        or_return (universal_auth_identity auth) (universal_auth_error auth "IdentityNotReady")
    c ←
        or_return
          (infisical_client_for_connection platform auth.meta.namespace auth.spec.connection_ref)
          (universal_auth_error auth "ConnectionNotReady")
    let identity_id = identity.status.identity_id
    adopted ← adopt_step c identity_id auth
    acquired ← create_step c identity_id adopted
    current ← read_step c identity_id acquired
    updated ← update_step c identity_id acquired current
    published ←
        or_return
          (ensure_universal_auth_client_secret platform c
            (set_universal_auth_observed_state acquired updated) updated)
          (λ failure. universal_auth_error failure.0 "ClientSecretNotReady" failure.1)
    status_ready platform universal_auth_status auth published
        "Infisical Universal Auth is reconciled and its client Secret is published"

  -- An error of Infisical other than 404 ends the deletion.
  after_revoke : Result Error (Unit {0}) → Exec Error (Unit {0})
  after_revoke (ok u) = pure tt
  after_revoke (err e) = if not (is_not_found e) then raise e else pure tt

  unfoldable pub remove_universal_auth : InfisicalUniversalAuth → Client → Exec Error (Unit {0})
  unfolding after_revoke
  remove_universal_auth auth c = do
    if not (auth.status.client_secret.client_secret_id == "")
        then (do
          revoked ← attempt (
              revoke_universal_auth_client_secret platform c auth.status.identity_id
                auth.status.client_secret.client_secret_id)
          after_revoke revoked)
        else pure tt
    if not (auth.status.auth_id == "")
        then delete_universal_auth platform c auth.status.identity_id
        else pure tt

  unfoldable pub reconcile_universal_auth_deletion : InfisicalUniversalAuth → Exec Response Response
  reconcile_universal_auth_deletion auth =
      delete_external platform universal_auth_resource
        (deletion_policy auth.spec.deletion_policy == deletion_policy_orphan
          || auth.status.identity_id == "")
        auth.spec.connection_ref (remove_universal_auth auth) auth

  unfoldable pub reconcile_universal_auth_request : Key → Exec Response Response
  reconcile_universal_auth_request key =
      reconcile_object platform universal_auth_resource (λ a. a.spec.deletion_policy)
        reconcile_universal_auth reconcile_universal_auth_deletion
        (read_universal_auth platform key)
