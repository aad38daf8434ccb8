-- ===== src/Controller/Project.antt =====
-- internal/controller/infisical/infisicalproject_controller.go
pub mod State
pub mod Calls
pub mod Safety
pub mod Drift
pub mod Acquire
mod Tests
use infisical_entity_operato.Base.{
  String, Bool, not, ◌&&◌, ◌||◌, Option, none, some, List, [], ◌∷◌, ◌==◌, concat, quote, is_empty,
  if◌then◌else◌,
}
use infisical_entity_operato.Failure.{Error, wrapped, dependency, is_not_found, is_kube_not_found}
use infisical_entity_operato.Api.{InfisicalProject, LocalObjectReference, deletion_policy_orphan}
use infisical_entity_operato.Platform.{Key, Platform}
use infisical_entity_operato.Exec.{
  Exec, Response, pure, raise, check, or_return, or_wrap, read_organization, read_project, ◌>>=◌,
  ◌>>◌,
}
use infisical_entity_operato.Client.{
  Client, find_project, create_project, get_project, update_project, delete_project,
  token_identity_id_context, ensure_identity_project_membership,
}
use infisical_entity_operato.Client.Wire.{Project}
use infisical_entity_operato.Controller.Policies.{
  deletion_policy, can_adopt, can_create, bool_value,
}
use infisical_entity_operato.Controller.Roles.{infisical_admin_role}
use infisical_entity_operato.Controller.Connections.{infisical_client_for_connection}
use infisical_entity_operato.Controller.Objects.{reconcile_object, delete_external}
use infisical_entity_operato.Controller.Status.{status_error, status_missing, status_ready}
use infisical_entity_operato.Controller.Project.State.{
  project_resource, project_status, project_name, project_type, validate_project_organization,
  project_needs_update, set_project_observed_state,
}

module _ (platform : Platform) where
  unfoldable pub project_error :
      InfisicalProject → (reason : String) → Error → Exec Response Response
  project_error = status_error platform project_status

  organization_id_of : (namespace : String) → Option LocalObjectReference → Exec Error String
  organization_id_of namespace none = pure ""
  organization_id_of namespace (some ref) = if ref.name == "" then pure "" else (do
    organization ←
        or_wrap (read_organization platform (record { namespace = namespace; name = ref.name }))
          (λ e.
            if is_kube_not_found e
            then dependency (
                concat
                  ("InfisicalOrganization " ∷ namespace ∷ "/" ∷ ref.name ∷ " was not found" ∷ []))
            else e)
    check (
        if organization.status.organization_id == ""
        then some (
            dependency (
              concat (
                "InfisicalOrganization " ∷ organization.meta.namespace ∷ "/"
                ∷ organization.meta.name ∷ " has no observed Infisical organization ID" ∷ [])))
        else none)
    pure organization.status.organization_id)

  unfoldable pub expected_organization_id : InfisicalProject → Exec Error String
  unfolding organization_id_of
  expected_organization_id project =
      organization_id_of project.meta.namespace project.spec.organization_ref

  creator_membership :
      Client → InfisicalProject → Option LocalObjectReference → Exec Error (Unit {0})
  creator_membership c project none = pure tt
  creator_membership c project (some ref) = if project.status.project_id == "" then pure tt else (do
    identity_id ←
        or_wrap (token_identity_id_context platform c)
          (wrapped "resolve creating identity from access token: ")
    (if identity_id == ""
        then pure tt
        else or_wrap
            (ensure_identity_project_membership platform c project.status.project_id identity_id
              (infisical_admin_role ∷ []))
            (wrapped (
              concat (
                "ensure creating identity "
                ∷ quote identity_id
                ∷ " has project admin access: "
                ∷ [])))))

  unfoldable pub ensure_project_creator_membership :
      Client → InfisicalProject → Exec Error (Unit {0})
  unfolding creator_membership
  ensure_project_creator_membership c project =
      creator_membership c project project.spec.organization_ref

  module _ (c : Client) (expected : String) where
    adopt_found : InfisicalProject → Option Project → Exec Response InfisicalProject
    adopt_found project (some adopted) = do
      or_return (check (validate_project_organization adopted expected))
          (project_error project "ExternalProjectMismatch")
      pure (set_project_observed_state project adopted)
    adopt_found project none = do
      or_return
          (check (
            if not (can_create project.spec.creation_policy)
            then some
                (dependency "the project was not found in Infisical and creationPolicy is Adopt")
            else none))
          (project_error project "RemoteProjectMissing")
      pure project

    unfoldable pub adopt_step : InfisicalProject → Exec Response InfisicalProject
    unfolding adopt_found
    adopt_step project =
        if project.status.project_id == "" && can_adopt project.spec.creation_policy
        then (do
          adopted ←
              or_return (find_project platform c (project_name project) project.spec.slug)
                (project_error project "ExternalReadFailed")
          adopt_found project adopted)
        else pure project

    -- A project of another organization is recorded before the error is reported.
    unfoldable pub create_missing : InfisicalProject → Exec Response InfisicalProject
    create_missing project = do
      or_return
          (check (
            if not (can_create project.spec.creation_policy)
            then some (dependency "project was not found and creationPolicy is Adopt")
            else none))
          (project_error project "CreationNotAllowed")
      created ←
          or_return
            (create_project platform c (record {
              project_name = project_name project;
              project_description = project.spec.description;
              slug = project.spec.slug;
              type = project_type project;
              should_create_default_envs =
                  bool_value project.spec.should_create_default_envs Bool.true;
              has_delete_protection = bool_value project.spec.has_delete_protection Bool.false;
            }))
            (project_error project "ExternalCreateFailed")
      or_return (check (validate_project_organization created expected))
          (project_error (set_project_observed_state project created) "ExternalProjectMismatch")
      pure (set_project_observed_state project created)

    unfoldable pub create_step : InfisicalProject → Exec Response InfisicalProject
    create_step project =
        if project.status.project_id == "" then create_missing project else pure project

    unfoldable pub read_step : InfisicalProject → Exec Response Project
    read_step project = do
      current ← or_return (get_project platform c project.status.project_id) (λ e.
          if is_not_found e
          then status_missing platform project_status project "RemoteProjectMissing"
              "the project no longer exists in Infisical; it will be recreated according to creationPolicy"
          else project_error project "ExternalReadFailed" e)
      or_return (check (validate_project_organization current expected))
          (project_error project "ExternalProjectMismatch")
      pure current

    unfoldable pub update_step : InfisicalProject → Project → Exec Response Project
    update_step project current =
        if project_needs_update project current
        then or_return
            (update_project platform c current.id (record {
              name = project_name project;
              description = project.spec.description;
              slug = project.spec.slug;
              has_delete_protection = project.spec.has_delete_protection;
            }))
            (project_error project "ExternalUpdateFailed")
        else pure current

  unfoldable pub reconcile_project : InfisicalProject → Exec Response Response
  reconcile_project project = do
    expected ←
        or_return (expected_organization_id project) (project_error project "OrganizationNotReady")
    c ←
        or_return
          (infisical_client_for_connection platform project.meta.namespace
            project.spec.connection_ref)
          (project_error project "ConnectionNotReady")
    adopted ← adopt_step c expected project
    acquired ← create_step c expected adopted
    or_return (ensure_project_creator_membership c acquired)
        (project_error acquired "ExternalMembershipFailed")
    current ← read_step c expected acquired
    updated ← update_step c expected acquired current
    status_ready platform project_status project (set_project_observed_state acquired updated)
        "Infisical project is reconciled"

  unfoldable pub reconcile_project_deletion : InfisicalProject → Exec Response Response
  reconcile_project_deletion project =
      delete_external platform project_resource
        (deletion_policy project.spec.deletion_policy == deletion_policy_orphan
          || project.status.project_id == "")
        project.spec.connection_ref (λ c. delete_project platform c project.status.project_id)
        project

  unfoldable pub reconcile_project_request : Key → Exec Response Response
  reconcile_project_request key =
      reconcile_object platform project_resource (λ p. p.spec.deletion_policy) reconcile_project
        reconcile_project_deletion (read_project platform key)
