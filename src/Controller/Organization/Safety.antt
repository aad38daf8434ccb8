-- ===== src/Controller/Organization/Safety.antt =====
-- What a reconciliation of an organization never does, and when it records the identifier.
use infisical_entity_operato.Base.{◌≡◌, refl, All, eq_iff}
use infisical_entity_operato.Api.{InfisicalOrganization, deletion_policy_orphan}
use infisical_entity_operato.Platform.{Object, Call, patch_status, Run, Platform}
use infisical_entity_operato.Controller.Calls.{
  NotDelete, NotHttp, Permits-get, Permits-post, Reads_NotDelete, Reads_NotHttp,
}
use infisical_entity_operato.Controller.Policies.{deletion_policy, kept_by_policy}
use infisical_entity_operato.Controller.Objects.Calls.{Updates, Emits-delete_external}
use infisical_entity_operato.Controller.Status.Calls.{
  StatusPatches, Identified, KeepsIdentifier, set_status-error, set_status-missing,
  set_status-ready,
}
use infisical_entity_operato.Controller.Organization.{
  reconcile_organization, reconcile_organization_deletion,
}
use infisical_entity_operato.Controller.Organization.{organization_resource, organization_status}
use infisical_entity_operato.Controller.Organization.Calls.{Emits-reconcile_organization}

abbrev pub organization_identified : Identified organization_status
unfolding organization_status
organization_identified = record {
  id = λ o. o.status.organization_id;
  id-with_conditions = λ cs o. refl;
  id-observe = λ o. refl;
  id-forget = λ o. refl;
  conditions-with_conditions = λ cs o. refl;
}

-- A status patch that records an identifier leaves the organization ready.
abbrev pub Records : Call → Type 0
Records (patch_status (Object.organization before) (Object.organization after)) =
    KeepsIdentifier organization_status organization_identified before after
Records _ = Unit

writes_Records : StatusPatches Records organization_status
unfolding organization_status organization_resource
writes_Records = record {
  on_error = set_status-error organization_status organization_identified;
  on_missing = set_status-missing organization_status organization_identified;
  on_ready = set_status-ready organization_status organization_identified;
}

writes_NotDelete : StatusPatches NotDelete organization_status
writes_NotDelete = record {
  on_error = λ now o reason text. tt;
  on_missing = λ now o reason text. tt;
  on_ready = λ now before o reason text. tt;
}

-- Each status patch of a reconciliation keeps the identifier of the organization, clears it, or goes with
-- the condition Ready, if that holds of the calls made before.
pub reconcile_organization-Records :
    (platform : Platform) (organization : InfisicalOrganization) (r : Run)
    → All Records r.calls
    → All Records (reconcile_organization platform organization r).1.calls
reconcile_organization-Records platform organization r h =
    (Emits-reconcile_organization platform writes_Records (record { at = λ kind k. tt })
        (record { at = λ request e. tt }) (record { at = λ request e. tt }) organization).at
      r h

-- Reconciling an organization that is not being deleted sends no DELETE request, if none was sent before,
-- whatever Kubernetes and Infisical answer.
pub reconcile_organization-NotDelete :
    (platform : Platform) (organization : InfisicalOrganization) (r : Run)
    → All NotDelete r.calls
    → All NotDelete (reconcile_organization platform organization r).1.calls
reconcile_organization-NotDelete platform organization r h =
    (Emits-reconcile_organization platform writes_NotDelete Reads_NotDelete Permits-post Permits-get
        organization).at
      r h

Updates-NotHttp : (o : InfisicalOrganization) → Updates NotHttp organization_resource o
unfolding organization_resource
Updates-NotHttp o = record { at = λ fs. tt }

-- With the deletion policy Orphan, or none, the deletion of an organization sends nothing to Infisical, if
-- nothing was sent before.
pub reconcile_organization_deletion-NotHttp :
    (platform : Platform) (organization : InfisicalOrganization) (r : Run)
    → deletion_policy organization.spec.deletion_policy ≡ deletion_policy_orphan
    → All NotHttp r.calls
    → All NotHttp (reconcile_organization_deletion platform organization r).1.calls
unfolding reconcile_organization_deletion
reconcile_organization_deletion-NotHttp platform organization r policy h =
    (Emits-delete_external platform organization_resource organization
        (Updates-NotHttp organization) _ organization.spec.connection_ref _ Reads_NotHttp
        (λ kept c. absurd (kept_by_policy _ _ ((eq_iff _ _).1 policy) kept))).at
      r h
