-- ===== src/Controller/Identity/State.antt =====
-- infisicalidentity_controller.go: the status of an identity, and what the Infisical identity is
-- compared with.
pub mod Calls
use infisical_entity_operato.Base.{
  ℕ, String, Bool, true, false, not, ◌&&◌, ◌||◌, Option, none, some, List, [], ◌∷◌, ◌==◌, bool_eq,
  concat, quote, if◌then◌else◌,
}
use infisical_entity_operato.Failure.{Error, plain, retry_for, external_retry, status_error_message}
use infisical_entity_operato.Api.{
  InfisicalIdentity, InfisicalIdentity-discrete, IdentityScope, identity_scope_organization,
  IdentityMetadata, condition_true, condition_false,
}
use infisical_entity_operato.Platform.{Object, Platform}
use infisical_entity_operato.Exec.{Exec, Response}
use infisical_entity_operato.Client.Wire.Identities.{Identity, Metadata}
use infisical_entity_operato.Controller.Conditions.{set_condition}
use infisical_entity_operato.Controller.Roles.{identity_metadata_equal}
use infisical_entity_operato.Controller.Objects.{Resource, persist_status, respond}
use infisical_entity_operato.Controller.Identity.Spec.{identity_name, organization_role}

unfoldable pub identity_resource : Resource InfisicalIdentity
unfolding InfisicalIdentity-discrete
identity_resource = record {
  meta = λ i. i.meta;
  with_meta = λ m i. record i { meta = m };
  object = Object.identity;
  same = InfisicalIdentity-discrete;
}

pub record IdentityAnchor : Type 0 where
  pub project_id : String
  pub organization_id : String

unfoldable pub validate_observed_identity : Identity → IdentityAnchor → IdentityScope → Option Error
validate_observed_identity observed anchor scope =
    if scope == identity_scope_organization
    then if not (observed.organization_id == "")
        && not (observed.organization_id == anchor.organization_id)
      then some (
          plain (
            concat (
              "infisical identity belongs to organization "
              ∷ quote observed.organization_id
              ∷ ", want "
              ∷ quote anchor.organization_id
              ∷ [])))
      else none
    else if not (observed.project_id == "") && not (observed.project_id == anchor.project_id)
    then some (
        plain (
          concat (
            "infisical identity belongs to project "
            ∷ quote observed.project_id
            ∷ ", want "
            ∷ quote anchor.project_id
            ∷ [])))
    else none

-- The pointer to the metadata is nil where the specification has none.
unfoldable pub metadata_patch :
    Option (List IdentityMetadata) → Option (List Metadata) → Option (List Metadata)
metadata_patch none metadata = none
metadata_patch (some want) none = some []
metadata_patch (some want) (some metadata) = some metadata

abbrev pub protection_differs : Option Bool → Bool → Bool
protection_differs none current = false
protection_differs (some want) current = not (bool_eq current want)

unfoldable pub identity_needs_update : InfisicalIdentity → Identity → IdentityScope → Bool
identity_needs_update identity current scope =
    if not (current.name == identity_name identity)
    then true
    else if protection_differs identity.spec.has_delete_protection current.has_delete_protection
    then true
    else if scope == identity_scope_organization
        && not (current.organization_role == organization_role identity)
    then true
    else not (identity_metadata_equal identity.spec.metadata current.metadata)

unfoldable pub set_identity_observed_state :
    InfisicalIdentity → Identity → IdentityAnchor → IdentityScope → InfisicalIdentity
set_identity_observed_state identity observed anchor scope =
    if scope == identity_scope_organization
    then record identity {
      status = record identity.status {
        identity_id = observed.id;
        observed_generation = identity.meta.generation;
        project_id = "";
        organization_id = anchor.organization_id;
        organization_role =
            if observed.organization_role == ""
            then organization_role identity
            else observed.organization_role;
        membership_id = "";
        roles = [];
      };
    }
    else record identity {
      status = record identity.status {
        identity_id = observed.id;
        observed_generation = identity.meta.generation;
        project_id = anchor.project_id;
        organization_id = "";
        organization_role = "";
        project_memberships = [];
      };
    }

-- The identity with its conditions set at the present time
unfoldable pub with_condition :
    (now : ℕ → ℕ) → InfisicalIdentity → (status reason message : String) → InfisicalIdentity
with_condition now identity status reason message = record identity {
  status = record identity.status {
    conditions =
        set_condition now identity.status.conditions identity.meta.generation status reason message;
  };
}

unfoldable pub observed_now : InfisicalIdentity → InfisicalIdentity
observed_now identity = record identity {
  status = record identity.status { observed_generation = identity.meta.generation };
}

abbrev pub forgotten : InfisicalIdentity → InfisicalIdentity
forgotten identity = record identity {
  status = record identity.status {
    identity_id = "";
    project_id = "";
    organization_id = "";
    organization_role = "";
    membership_id = "";
    roles = [];
    project_memberships = [];
  };
}

module _ (platform : Platform) where
  -- The copy that the patch starts from is taken here, after all earlier changes.
  unfoldable pub identity_error :
      InfisicalIdentity → (reason : String) → Error → Exec Response Response
  identity_error identity reason e r =
      respond (retry_for e)
        (persist_status platform identity_resource
          (with_condition (platform.now r.calls) (observed_now identity) condition_false reason
            (status_error_message e))
          identity)
        r

  -- The identity is gone from Infisical.
  unfoldable pub identity_missing : InfisicalIdentity → Exec Response Response
  identity_missing identity r =
      respond external_retry
        (persist_status platform identity_resource
          (with_condition (platform.now r.calls) (observed_now (forgotten identity)) condition_false
            "RemoteIdentityMissing"
            "the identity no longer exists in Infisical; it will be recreated according to creationPolicy")
          identity)
        r
