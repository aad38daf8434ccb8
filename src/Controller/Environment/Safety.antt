-- ===== src/Controller/Environment/Safety.antt =====
-- What a reconciliation of an environment never does, and when it records the identifier.
use infisical_entity_operato.Base.{◌≡◌, refl, All, eq_iff}
use infisical_entity_operato.Api.{InfisicalEnvironment, deletion_policy_orphan}
use infisical_entity_operato.Platform.{Object, Call, patch_status, Run, Platform}
use infisical_entity_operato.Controller.Calls.{
  NotDelete, NotHttp, Permits-get, Permits-post, Permits-patch, Reads_NotDelete, Reads_NotHttp,
}
use infisical_entity_operato.Controller.Policies.{deletion_policy, kept_by_policy, or_false}
use infisical_entity_operato.Controller.Objects.Calls.{Updates, Emits-delete_external}
use infisical_entity_operato.Controller.Status.Calls.{
  StatusPatches, Identified, KeepsIdentifier, set_status-error, set_status-missing,
  set_status-ready,
}
use infisical_entity_operato.Controller.Environment.{
  reconcile_environment, reconcile_environment_deletion,
}
use infisical_entity_operato.Controller.Environment.State.{environment_resource, environment_status}
use infisical_entity_operato.Controller.Environment.Calls.{Emits-reconcile_environment}

abbrev pub environment_identified : Identified environment_status
unfolding environment_status
environment_identified = record {
  id = λ o. o.status.environment_id;
  id-with_conditions = λ cs o. refl;
  id-observe = λ o. refl;
  id-forget = λ o. refl;
  conditions-with_conditions = λ cs o. refl;
}

-- A status patch that records an identifier leaves the environment ready.
abbrev pub Records : Call → Type 0
Records (patch_status (Object.environment before) (Object.environment after)) =
    KeepsIdentifier environment_status environment_identified before after
Records _ = Unit

writes_Records : StatusPatches Records environment_status
unfolding environment_status environment_resource
writes_Records = record {
  on_error = set_status-error environment_status environment_identified;
  on_missing = set_status-missing environment_status environment_identified;
  on_ready = set_status-ready environment_status environment_identified;
}

writes_NotDelete : StatusPatches NotDelete environment_status
writes_NotDelete = record {
  on_error = λ now o reason text. tt;
  on_missing = λ now o reason text. tt;
  on_ready = λ now before o reason text. tt;
}

-- Each status patch of a reconciliation keeps the identifier of the environment, clears it, or goes with
-- the condition Ready, if that holds of the calls made before.
pub reconcile_environment-Records :
    (platform : Platform) (environment : InfisicalEnvironment) (r : Run)
    → All Records r.calls
    → All Records (reconcile_environment platform environment r).1.calls
reconcile_environment-Records platform environment r h =
    (Emits-reconcile_environment platform writes_Records (record { at = λ kind k. tt })
        (record { at = λ request e. tt }) (record { at = λ request e. tt })
        (record { at = λ request e. tt }) environment).at
      r h

-- Reconciling an environment that is not being deleted sends no DELETE request, if none was sent before,
-- whatever Kubernetes and Infisical answer.
pub reconcile_environment-NotDelete :
    (platform : Platform) (environment : InfisicalEnvironment) (r : Run)
    → All NotDelete r.calls
    → All NotDelete (reconcile_environment platform environment r).1.calls
reconcile_environment-NotDelete platform environment r h =
    (Emits-reconcile_environment platform writes_NotDelete Reads_NotDelete Permits-post Permits-get
        Permits-patch environment).at
      r h

Updates-NotHttp : (o : InfisicalEnvironment) → Updates NotHttp environment_resource o
unfolding environment_resource
Updates-NotHttp o = record { at = λ fs. tt }

-- With the deletion policy Orphan, or none, the deletion of an environment sends nothing to Infisical, if
-- nothing was sent before.
pub reconcile_environment_deletion-NotHttp :
    (platform : Platform) (environment : InfisicalEnvironment) (r : Run)
    → deletion_policy environment.spec.deletion_policy ≡ deletion_policy_orphan
    → All NotHttp r.calls
    → All NotHttp (reconcile_environment_deletion platform environment r).1.calls
unfolding reconcile_environment_deletion
reconcile_environment_deletion-NotHttp platform environment r policy h =
    (Emits-delete_external platform environment_resource environment (Updates-NotHttp environment) _
        environment.spec.connection_ref _ Reads_NotHttp
        (λ kept c. absurd (kept_by_policy _ _ ((eq_iff _ _).1 policy) (or_false _ _ kept)))).at
      r h
