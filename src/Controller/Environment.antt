-- ===== src/Controller/Environment.antt =====
-- internal/controller/infisical/infisicalenvironment_controller.go
pub mod State
pub mod Calls
pub mod Safety
pub mod Drift
pub mod Acquire
mod Tests
use infisical_entity_operato.Base.{
  ℤ, String, Bool, true, false, not, ◌&&◌, ◌||◌, Option, none, some, [], ◌∷◌, ◌==◌, int_eq, concat,
  if◌then◌else◌,
}
use infisical_entity_operato.Result.{Result, ok, err}
use infisical_entity_operato.Failure.{Error, dependency, is_not_found, is_kube_not_found}
use infisical_entity_operato.Api.{
  InfisicalEnvironment, InfisicalEnvironment-discrete, deletion_policy_orphan,
}
use infisical_entity_operato.Platform.{Key, Object, Platform}
use infisical_entity_operato.Exec.{
  Exec, Response, pure, raise, check, attempt, or_return, read_project, read_environment, ◌>>=◌,
  ◌>>◌,
}
use infisical_entity_operato.Client.{
  Client, get_environment_by_id, get_environment_by_slug, create_environment, update_environment,
  delete_environment, restore_environment,
}
use infisical_entity_operato.Client.Wire.{Environment}
use infisical_entity_operato.Controller.Policies.{deletion_policy, can_adopt, can_create, or_name}
use infisical_entity_operato.Controller.Connections.{infisical_client_for_connection}
use infisical_entity_operato.Controller.Objects.{Resource, reconcile_object, delete_external}
use infisical_entity_operato.Controller.Status.{
  Conditioned, status_error, status_missing, status_ready,
}
use infisical_entity_operato.Controller.Environment.State.{
  environment_resource, environment_status, environment_name, environment_slug,
  environment_needs_update, set_environment_observed_state,
}

module _ (platform : Platform) where
  unfoldable pub environment_error :
      InfisicalEnvironment → (reason : String) → Error → Exec Response Response
  environment_error = status_error platform environment_status

  -- The identifier of the project that the environment belongs to
  unfoldable pub project_step : InfisicalEnvironment → Exec Response String
  project_step environment = do
    let namespace = environment.meta.namespace
    let name = environment.spec.project_ref.name
    project ←
        or_return (read_project platform (record { namespace = namespace; name = name })) (λ e.
          if is_kube_not_found e
          then environment_error environment "ProjectNotReady" (
              dependency
                (concat ("InfisicalProject " ∷ namespace ∷ "/" ∷ name ∷ " was not found" ∷ [])))
          else environment_error environment "ProjectReadFailed" e)
    or_return
        (check (
          if project.status.project_id == ""
          then some (
              dependency (
                concat (
                  "InfisicalProject " ∷ project.meta.namespace ∷ "/" ∷ project.meta.name
                  ∷ " has no observed Infisical project ID" ∷ [])))
          else none))
        (environment_error environment "ProjectNotReady")
    pure project.status.project_id

  module _ (c : Client) (project_id : String) where
    restore_deleted : Environment → Option String → Exec Error Environment
    restore_deleted environment none = pure environment
    restore_deleted environment (some time) =
        restore_environment platform c project_id environment.id

    unfoldable pub restore_environment_if_deleted : Environment → Exec Error Environment
    unfolding restore_deleted
    restore_environment_if_deleted environment =
        restore_deleted environment environment.soft_deleted_at

    adopt_found :
        InfisicalEnvironment → Result Error Environment → Exec Response InfisicalEnvironment
    adopt_found environment (err e) =
        if not (is_not_found e)
        then (or_return (raise e) (environment_error environment "ExternalReadFailed"))
        else pure environment
    adopt_found environment (ok adopted) = do
      restored ←
          or_return (restore_environment_if_deleted adopted)
            (environment_error environment "ExternalRestoreFailed")
      pure (set_environment_observed_state environment restored project_id)

    unfoldable pub adopt_step : InfisicalEnvironment → Exec Response InfisicalEnvironment
    unfolding adopt_found
    adopt_step environment =
        if environment.status.environment_id == "" && can_adopt environment.spec.creation_policy
        then (do
          found ←
              attempt (get_environment_by_slug platform c project_id (environment_slug environment))
          adopt_found environment found)
        else pure environment

    unfoldable pub create_missing : InfisicalEnvironment → Exec Response InfisicalEnvironment
    create_missing environment = do
      or_return
          (check (
            if not (can_create environment.spec.creation_policy)
            then some (dependency "environment was not found and creationPolicy is Adopt")
            else none))
          (environment_error environment "CreationNotAllowed")
      created ←
          or_return
            (create_environment platform c project_id (record {
              name = environment_name environment;
              slug = environment_slug environment;
              position = environment.spec.position;
            }))
            (environment_error environment "ExternalCreateFailed")
      pure (set_environment_observed_state environment created project_id)

    unfoldable pub create_step : InfisicalEnvironment → Exec Response InfisicalEnvironment
    create_step environment =
        if environment.status.environment_id == ""
        then create_missing environment
        else pure environment

    unfoldable pub read_step : InfisicalEnvironment → Exec Response Environment
    read_step environment = do
      current ←
          or_return (get_environment_by_id platform c project_id environment.status.environment_id)
            (λ e.
              if is_not_found e
              then status_missing platform environment_status environment "RemoteEnvironmentMissing"
                  "the environment no longer exists in Infisical; it will be recreated according to creationPolicy"
              else environment_error environment "ExternalReadFailed" e)
      or_return (restore_environment_if_deleted current)
          (environment_error environment "ExternalRestoreFailed")

    unfoldable pub update_step : InfisicalEnvironment → Environment → Exec Response Environment
    update_step environment current =
        if environment_needs_update environment current
        then or_return
            (update_environment platform c project_id current.id (record {
              name = environment_name environment;
              position = environment.spec.position;
            }))
            (environment_error environment "ExternalUpdateFailed")
        else pure current

  unfoldable pub reconcile_environment : InfisicalEnvironment → Exec Response Response
  reconcile_environment environment = do
    project_id ← project_step environment
    c ←
        or_return
          (infisical_client_for_connection platform environment.meta.namespace
            environment.spec.connection_ref)
          (environment_error environment "ConnectionNotReady")
    adopted ← adopt_step c project_id environment
    acquired ← create_step c project_id adopted
    current ← read_step c project_id acquired
    updated ← update_step c project_id acquired current
    status_ready platform environment_status environment
        (set_environment_observed_state acquired updated project_id)
        "Infisical environment is reconciled"

  unfoldable pub reconcile_environment_deletion : InfisicalEnvironment → Exec Response Response
  reconcile_environment_deletion environment =
      delete_external platform environment_resource
        (deletion_policy environment.spec.deletion_policy == deletion_policy_orphan
          || environment.status.environment_id == ""
          || environment.status.project_id == "")
        environment.spec.connection_ref
        (λ c.
          delete_environment platform c environment.status.project_id
            environment.status.environment_id)
        environment

  unfoldable pub reconcile_environment_request : Key → Exec Response Response
  reconcile_environment_request key =
      reconcile_object platform environment_resource (λ e. e.spec.deletion_policy)
        reconcile_environment reconcile_environment_deletion (read_environment platform key)
