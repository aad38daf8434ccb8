-- ===== src/Controller/Organization.antt =====
-- internal/controller/infisical/infisicalorganization_controller.go
pub mod Calls
pub mod Safety
use infisical_entity_operato.Base.{
  String, Bool, not, ◌&&◌, ◌||◌, Option, none, some, [], ◌∷◌, ◌==◌, concat, quote, if◌then◌else◌,
}
use infisical_entity_operato.Failure.{Error, plain, dependency}
use infisical_entity_operato.Api.{
  InfisicalOrganization, InfisicalOrganization-discrete, creation_policy_create,
  deletion_policy_orphan,
}
use infisical_entity_operato.Platform.{Key, Object, Platform}
use infisical_entity_operato.Exec.{
  Exec, Response, pure, raise, check, or_return, read_organization, ◌>>=◌, ◌>>◌,
}
use infisical_entity_operato.Client.{
  Client, create_organization, find_organization, delete_organization,
}
use infisical_entity_operato.Client.Wire.{Organization}
use infisical_entity_operato.Controller.Policies.{
  creation_policy, deletion_policy, can_adopt, can_create, or_name,
}
use infisical_entity_operato.Controller.Connections.{infisical_client_for_connection}
use infisical_entity_operato.Controller.Objects.{Resource, reconcile_object, delete_external}
use infisical_entity_operato.Controller.Status.{
  Conditioned, status_error, status_missing, status_ready,
}

unfoldable pub organization_resource : Resource InfisicalOrganization
unfolding InfisicalOrganization-discrete
organization_resource = record {
  meta = λ o. o.meta;
  with_meta = λ m o. record o { meta = m };
  object = Object.organization;
  same = InfisicalOrganization-discrete;
}

unfoldable pub organization_status : Conditioned InfisicalOrganization
unfolding organization_resource
organization_status = record {
  resource = organization_resource;
  conditions = λ o. o.status.conditions;
  with_conditions = λ cs o. record o { status = record o.status { conditions = cs } };
  observe = λ o. record o { status = record o.status { observed_generation = o.meta.generation } };
  forget = λ o. record o {
    status = record o.status { organization_id = ""; organization_name = ""; slug = "" };
  };
}

unfoldable pub organization_name : InfisicalOrganization → String
organization_name organization = or_name organization.spec.organization_name organization.meta.name

unfoldable pub validate_organization_spec : InfisicalOrganization → Option Error
unfolding organization_name creation_policy
validate_organization_spec organization =
    if not (organization.spec.organization_id == "")
      && creation_policy organization.spec.creation_policy == creation_policy_create
    then some (
        plain "organizationID cannot be set with creationPolicy Create; use Adopt or CreateOrAdopt")
    else if organization_name organization == ""
    then some (plain "organizationName or metadata.name is required")
    else none

unfoldable pub set_organization_observed_state :
    InfisicalOrganization → Organization → InfisicalOrganization
set_organization_observed_state organization observed = record organization {
  status = record organization.status {
    organization_id = observed.id;
    organization_name = observed.name;
    slug = observed.slug;
    observed_generation = organization.meta.generation;
  };
}

module _ (platform : Platform) where
  unfoldable pub organization_error :
      InfisicalOrganization → (reason : String) → Error → Exec Response Response
  organization_error = status_error platform organization_status

  module _ (c : Client) where
    adopt_found : InfisicalOrganization → Option Organization → Exec Response InfisicalOrganization
    adopt_found organization (some adopted) =
        pure (set_organization_observed_state organization adopted)
    adopt_found organization none = do
      or_return
          (check (
            if not (can_create organization.spec.creation_policy)
            then some (
                dependency
                  "the organization was not found in Infisical and creationPolicy is Adopt")
            else none))
          (organization_error organization "RemoteOrganizationMissing")
      pure organization

    unfoldable pub adopt_step : InfisicalOrganization → Exec Response InfisicalOrganization
    unfolding adopt_found
    adopt_step organization =
        if organization.status.organization_id == "" && can_adopt organization.spec.creation_policy
        then (do
          adopted ←
              or_return
                (find_organization platform c organization.spec.organization_id
                  (organization_name organization))
                (organization_error organization "ExternalReadFailed")
          adopt_found organization adopted)
        else pure organization

    -- A missing organization is created, and the reconciliation ends there.
    unfoldable pub create_organization_step :
        (before : InfisicalOrganization) → InfisicalOrganization → Exec Response Response
    create_organization_step before organization = do
      or_return
          (check (
            if not (can_create organization.spec.creation_policy)
            then some (dependency "organization was not found and creationPolicy is Adopt")
            else none))
          (organization_error organization "CreationNotAllowed")
      created ←
          or_return
            (create_organization platform c (record { name = organization_name organization }))
            (organization_error organization "ExternalCreateFailed")
      status_ready platform organization_status before
          (set_organization_observed_state organization created)
          "Infisical organization is reconciled"

    verify_found :
        (before organization : InfisicalOrganization) → Option Organization → Exec Response Response
    verify_found before organization none =
        status_missing platform organization_status organization "RemoteOrganizationMissing"
          "the organization is not visible to the configured Infisical credential; it will be reacquired according to creationPolicy"
    verify_found before organization (some current) =
        if not (organization.spec.organization_id == "")
          && not (current.id == organization.spec.organization_id)
        then organization_error organization "ExternalOrganizationMismatch" (
            plain (
              concat (
                "infisical organization ID "
                ∷ quote current.id
                ∷ " does not match requested organizationID "
                ∷ quote organization.spec.organization_id
                ∷ [])))
        else status_ready platform organization_status before
            (set_organization_observed_state organization current)
            "Infisical organization is reconciled"

    unfoldable pub verify_organization_step :
        (before : InfisicalOrganization) → InfisicalOrganization → Exec Response Response
    unfolding verify_found
    verify_organization_step before organization = do
      current ←
          or_return (find_organization platform c organization.status.organization_id "")
            (organization_error organization "ExternalReadFailed")
      verify_found before organization current

  unfoldable pub reconcile_organization : InfisicalOrganization → Exec Response Response
  unfolding create_organization_step verify_organization_step
  reconcile_organization organization = do
    or_return (check (validate_organization_spec organization))
        (organization_error organization "ConfigurationInvalid")
    c ←
        or_return
          (infisical_client_for_connection platform organization.meta.namespace
            organization.spec.connection_ref)
          (organization_error organization "ConnectionNotReady")
    adopted ← adopt_step c organization
    (if adopted.status.organization_id == ""
        then create_organization_step c organization adopted
        else verify_organization_step c organization adopted)

  unfoldable pub reconcile_organization_deletion : InfisicalOrganization → Exec Response Response
  reconcile_organization_deletion organization =
      delete_external platform organization_resource
        (deletion_policy organization.spec.deletion_policy == deletion_policy_orphan
          || organization.status.organization_id == "")
        organization.spec.connection_ref
        (λ c. delete_organization platform c organization.status.organization_id) organization

  unfoldable pub reconcile_organization_request : Key → Exec Response Response
  reconcile_organization_request key =
      reconcile_object platform organization_resource (λ o. o.spec.deletion_policy)
        reconcile_organization reconcile_organization_deletion (read_organization platform key)
