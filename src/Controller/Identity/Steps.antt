-- ===== src/Controller/Identity/Steps.antt =====
-- infisicalidentity_controller.go: the anchor of an identity, and the steps of reconcileIdentity.
pub mod Calls
use infisical_entity_operato.Base.{
  String, Bool, true, false, not, ◌&&◌, Option, none, some, List, [], ◌∷◌, ◌==◌, concat, quote,
  if◌then◌else◌,
}
use infisical_entity_operato.Result.{Result, ok, err}
use infisical_entity_operato.Failure.{
  Error, plain, dependency, configuration, is_not_found, is_kube_not_found, is_configuration_error,
}
use infisical_entity_operato.Api.{
  InfisicalIdentity, IdentityScope, identity_scope_organization, IdentityProjectRoleBinding,
}
use infisical_entity_operato.Platform.{Key, Platform}
use infisical_entity_operato.Exec.{
  Exec, Response, pure, raise, lift, check, or_return, or_wrap, read_organization, read_project,
  ◌>>=◌, ◌>>◌,
}
use infisical_entity_operato.Client.{
  Client, find_identity, find_organization_identity, create_identity, create_organization_identity,
  get_identity, get_organization_identity, update_identity, update_organization_identity,
}
use infisical_entity_operato.Client.Wire.Identities.{Identity}
use infisical_entity_operato.Controller.Policies.{can_adopt, can_create, bool_value}
use infisical_entity_operato.Controller.Roles.{identity_metadata_from}
use infisical_entity_operato.Controller.Identity.Spec.{identity_name, organization_role, name_of}
use infisical_entity_operato.Controller.Identity.State.{
  IdentityAnchor, validate_observed_identity, metadata_patch, identity_needs_update,
  set_identity_observed_state, identity_error, identity_missing,
}

abbrev qualified : (kind : String) → Key → (rest : String) → String
qualified kind key rest = concat (kind ∷ " " ∷ key.namespace ∷ "/" ∷ key.name ∷ rest ∷ [])

-- The error of a read, as a dependency error where the object is missing
abbrev missing_as : (kind : String) → Key → Error → Error
missing_as kind key e =
    if is_kube_not_found e then dependency (qualified kind key " was not found") else e

module _ (platform : Platform) where
  -- The loop over the bindings: each project is there and belongs to the organization.
  check_bindings :
      (namespace organization_id : String) → List IdentityProjectRoleBinding → Exec Error (Unit {0})
  check_bindings namespace organization_id [] = pure tt
  check_bindings namespace organization_id (binding ∷ rest) = do
    let key : Key = record { namespace = namespace; name = binding.project_ref.name }
    project ← or_wrap (read_project platform key) (missing_as "InfisicalProject" key)
    check (
        if project.status.project_id == ""
        then some (
            dependency (
              qualified "InfisicalProject"
                (record { namespace = project.meta.namespace; name = project.meta.name })
                " has no observed Infisical project ID"))
        else if not (project.status.organization_id == organization_id)
        then some (
            configuration (
              plain (
                concat (
                  "projectRoleBindings project "
                  ∷ quote binding.project_ref.name
                  ∷ " belongs to organization "
                  ∷ quote project.status.organization_id
                  ∷ ", want "
                  ∷ quote organization_id
                  ∷ []))))
        else none)
    check_bindings namespace organization_id rest

  organization_anchor : InfisicalIdentity → Exec Error IdentityAnchor
  unfolding check_bindings
  organization_anchor identity = do
    let key : Key = record {
      namespace = identity.meta.namespace;
      name = name_of identity.spec.organization_ref;
    }
    organization ← or_wrap (read_organization platform key) (missing_as "InfisicalOrganization" key)
    check (
        if organization.status.organization_id == ""
        then some (
            dependency (
              qualified "InfisicalOrganization"
                (record { namespace = organization.meta.namespace; name = organization.meta.name })
                " has no observed Infisical organization ID"))
        else none)
    check_bindings identity.meta.namespace organization.status.organization_id
        identity.spec.project_role_bindings
    pure (record { project_id = ""; organization_id = organization.status.organization_id })

  project_anchor : InfisicalIdentity → Exec Error IdentityAnchor
  project_anchor identity = do
    let key : Key = record {
      namespace = identity.meta.namespace;
      name = name_of identity.spec.project_ref;
    }
    project ← or_wrap (read_project platform key) (missing_as "InfisicalProject" key)
    check (
        if project.status.project_id == ""
        then some (
            dependency (
              qualified "InfisicalProject"
                (record { namespace = project.meta.namespace; name = project.meta.name })
                " has no observed Infisical project ID"))
        else none)
    pure (record { project_id = project.status.project_id; organization_id = "" })

  unfoldable pub identity_anchor : InfisicalIdentity → IdentityScope → Exec Error IdentityAnchor
  unfolding organization_anchor project_anchor
  identity_anchor identity scope =
      if scope == identity_scope_organization
      then organization_anchor identity
      else project_anchor identity

  unfoldable pub anchor_reason : IdentityScope → Error → String
  anchor_reason scope e =
      if is_configuration_error e
      then "ConfigurationInvalid"
      else if scope == identity_scope_organization
      then "OrganizationNotReady"
      else "ProjectNotReady"

  module _ (c : Client) (anchor : IdentityAnchor) (scope : IdentityScope) where
    adopt_found : InfisicalIdentity → Option Identity → Exec Response InfisicalIdentity
    adopt_found identity none = pure identity
    adopt_found identity (some adopted) = do
      or_return (check (validate_observed_identity adopted anchor scope))
          (identity_error platform identity "ExternalIdentityMismatch")
      pure (set_identity_observed_state identity adopted anchor scope)

    unfoldable pub adopt_step : InfisicalIdentity → Exec Response InfisicalIdentity
    unfolding adopt_found
    adopt_step identity =
        if identity.status.identity_id == "" && can_adopt identity.spec.creation_policy
        then (do
          adopted ←
              or_return
                (if scope == identity_scope_organization
                  then find_organization_identity platform c anchor.organization_id
                      (identity_name identity)
                  else find_identity platform c anchor.project_id (identity_name identity))
                (identity_error platform identity "ExternalReadFailed")
          adopt_found identity adopted)
        else pure identity

    unfoldable pub create_remote : InfisicalIdentity → Exec Error Identity
    create_remote identity =
        if scope == identity_scope_organization
        then create_organization_identity platform c anchor.organization_id (record {
          name = identity_name identity;
          organization_id = anchor.organization_id;
          role = organization_role identity;
          has_delete_protection = bool_value identity.spec.has_delete_protection false;
          metadata = identity_metadata_from identity.spec.metadata;
        })
        else create_identity platform c anchor.project_id (record {
          name = identity_name identity;
          has_delete_protection = bool_value identity.spec.has_delete_protection false;
          metadata = identity_metadata_from identity.spec.metadata;
        })

    unfoldable pub create_missing : InfisicalIdentity → Exec Response InfisicalIdentity
    unfolding create_remote
    create_missing identity = do
      or_return
          (check (
            if not (can_create identity.spec.creation_policy)
            then some (dependency "identity was not found and creationPolicy is Adopt")
            else none))
          (identity_error platform identity "CreationNotAllowed")
      created ←
          or_return (create_remote identity)
            (identity_error platform identity "ExternalCreateFailed")
      or_return (check (validate_observed_identity created anchor scope))
          (identity_error platform identity "ExternalIdentityMismatch")
      pure (set_identity_observed_state identity created anchor scope)

    unfoldable pub create_step : InfisicalIdentity → Exec Response InfisicalIdentity
    create_step identity =
        if identity.status.identity_id == "" then create_missing identity else pure identity

    unfoldable pub read_step : InfisicalIdentity → Exec Response Identity
    read_step identity = do
      current ←
          or_return
            (if scope == identity_scope_organization
              then get_organization_identity platform c identity.status.identity_id
              else get_identity platform c anchor.project_id identity.status.identity_id)
            (λ e.
              if is_not_found e
              then identity_missing platform identity
              else identity_error platform identity "ExternalReadFailed" e)
      or_return (check (validate_observed_identity current anchor scope))
          (identity_error platform identity "ExternalIdentityMismatch")
      pure current

    unfoldable pub update_step : InfisicalIdentity → Identity → Exec Response Identity
    update_step identity current =
        if identity_needs_update identity current scope
        then or_return
            (if scope == identity_scope_organization
              then update_organization_identity platform c current.id (record {
                name = identity_name identity;
                role = some (organization_role identity);
                has_delete_protection = identity.spec.has_delete_protection;
                metadata =
                    metadata_patch identity.spec.metadata
                      (identity_metadata_from identity.spec.metadata);
              })
              else update_identity platform c anchor.project_id current.id (record {
                name = identity_name identity;
                role = none;
                has_delete_protection = identity.spec.has_delete_protection;
                metadata =
                    metadata_patch identity.spec.metadata
                      (identity_metadata_from identity.spec.metadata);
              }))
            (identity_error platform identity "ExternalUpdateFailed")
        else pure current
