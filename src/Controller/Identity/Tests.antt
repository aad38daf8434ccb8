-- ===== src/Controller/Identity/Tests.antt =====
-- Instances of the theorems on the identity controller.
use infisical_entity_operato.Base.{[], ◌∷◌, ◌↔◌, false, none, some}
use infisical_entity_operato.Controller.Identity.Drift.{identity_needs_update_iff}
use infisical_entity_operato.Controller.Identity.State.{identity_needs_update}
use infisical_entity_operato.Controller.Identity.Spec.{identity_name, organization_role}
use infisical_entity_operato.Controller.Roles.MetadataEqual.{MetadataAgrees, items_there}
use infisical_entity_operato.Base.{refl, All}
use infisical_entity_operato.Controller.Identity.Reconcile.{reconcile_identity}
use infisical_entity_operato.Controller.Identity.Safety.{
  RecordsWhenReady, reconcile_identity-RecordsWhenReady,
}
use infisical_entity_operato.Base.{String, ◌≢◌, ◌⊎◌, ◌≡◌, refl}
use infisical_entity_operato.Api.{InfisicalIdentity}
use infisical_entity_operato.Exec.{or_return, check, ◌>>=◌, pure, lift}
use infisical_entity_operato.Json.{object_of, member, string_of, bool_of, items_of}
use infisical_entity_operato.Client.{
  create_identity, get_identity, exchange_with, bearer_token, do_with_token, send_request,
  interpret, inside,
}
use infisical_entity_operato.Client.Wire.Identities.{
  Identity, no_identity, decode_identity, validate_identity,
}
use infisical_entity_operato.Controller.Policies.{can_create, creation_policy}
use infisical_entity_operato.Controller.Identity.State.{
  IdentityAnchor, set_identity_observed_state, validate_observed_identity,
}
use infisical_entity_operato.Controller.Identity.Steps.{
  create_step, create_missing, create_remote, read_step,
}
use infisical_entity_operato.Controller.Identity.Acquire.{
  create_step-HasIdentity, read_step-InAnchor,
}
use infisical_entity_operato.Api.{identity_scope_project, identity_scope_organization}
use infisical_entity_operato.Controller.Identity.Spec.{identity_scope, validate_identity_spec}
use infisical_entity_operato.Controller.Identity.Spec.Accepted.{
  IsProjectSpec, IsOrganizationSpec, validate_identity_spec_iff,
}
use infisical_entity_operato.Demo.{demo_client, demo_platform, demo_identity, empty_run}

reconcile_identity-RecordsWhenReady_example :
    All RecordsWhenReady (reconcile_identity demo_platform demo_identity empty_run).1.calls
reconcile_identity-RecordsWhenReady_example =
    reconcile_identity-RecordsWhenReady demo_platform demo_identity empty_run tt

abbrev project_scope : String
project_scope = "Project"

abbrev anchored : IdentityAnchor
anchored = record { project_id = "p-1"; organization_id = "" }

abbrev acquired_identity : InfisicalIdentity
acquired_identity = record demo_identity {
  status = record demo_identity.status {
    identity_id = "i-1";
    project_id = "p-1";
    observed_generation = 2;
  };
}

abbrev created_identity : Identity
created_identity = record no_identity { id = "i-1"; name = "web"; project_id = "p-1" }

create_step-HasIdentity_example : acquired_identity.status.identity_id ≢ ""
unfolding create_step create_missing create_remote can_create creation_policy or_return check ◌>>=◌
    pure lift create_identity exchange_with bearer_token do_with_token send_request interpret inside
    object_of decode_identity validate_identity set_identity_observed_state
    validate_observed_identity member string_of bool_of items_of
create_step-HasIdentity_example =
    create_step-HasIdentity demo_platform demo_client anchored "Project" demo_identity
      acquired_identity empty_run
      (create_step demo_platform demo_client anchored "Project" demo_identity empty_run).1 refl

read_step-InAnchor_example :
    ((project_scope ≡ "Organization")
      × ((created_identity.organization_id ≡ "") ⊎ (created_identity.organization_id ≡ "")))
    ⊎ ((project_scope ≢ "Organization")
        × ((created_identity.project_id ≡ "") ⊎ (created_identity.project_id ≡ "p-1")))
unfolding read_step or_return check ◌>>=◌ pure lift get_identity exchange_with bearer_token
    do_with_token send_request interpret inside object_of decode_identity validate_identity
    validate_observed_identity member string_of bool_of items_of
read_step-InAnchor_example =
    read_step-InAnchor demo_platform demo_client anchored "Project" acquired_identity
      created_identity empty_run
      (read_step demo_platform demo_client anchored "Project" acquired_identity empty_run).1 refl

-- An identity with metadata, and what Infisical says of it
abbrev tagged_identity : InfisicalIdentity
tagged_identity = record demo_identity {
  spec = record demo_identity.spec {
    metadata = some (record { key = "team"; value = "shop" } ∷ []);
  };
}

abbrev tagged : Identity
tagged = record created_identity {
  metadata = some (record { id = "m-1"; key = "team"; value = "shop" } ∷ []);
}

identity_needs_update_iff_example :
    (identity_needs_update tagged_identity tagged project_scope ≡ false) ↔ (
      (tagged.name ≡ identity_name tagged_identity)
      × ((tagged_identity.spec.has_delete_protection ≡ none)
          ⊎ (tagged_identity.spec.has_delete_protection ≡ some tagged.has_delete_protection))
      × ((project_scope ≢ "Organization")
          ⊎ (tagged.organization_role ≡ organization_role tagged_identity))
      × MetadataAgrees tagged_identity.spec.metadata (items_there tagged.metadata))
identity_needs_update_iff_example = identity_needs_update_iff tagged_identity tagged project_scope

validate_identity_spec_iff_example : (validate_identity_spec demo_identity ≡ none) ↔ (
    ((identity_scope demo_identity ≡ identity_scope_project) × IsProjectSpec demo_identity.spec)
    ⊎ ((identity_scope demo_identity ≡ identity_scope_organization)
        × IsOrganizationSpec demo_identity.spec))
validate_identity_spec_iff_example = validate_identity_spec_iff demo_identity
