-- ===== src/Controller/Project/Safety.antt =====
-- What a reconciliation of a project never does, and when it records the identifier.
use infisical_entity_operato.Base.{◌≡◌, refl, All, eq_iff}
use infisical_entity_operato.Api.{InfisicalProject, deletion_policy_orphan}
use infisical_entity_operato.Platform.{Object, Call, patch_status, Run, Platform}
use infisical_entity_operato.Controller.Calls.{
  NotDelete, NotHttp, Permits-get, Permits-post, Permits-patch, Reads_NotDelete, Reads_NotHttp,
}
use infisical_entity_operato.Controller.Policies.{deletion_policy, kept_by_policy}
use infisical_entity_operato.Controller.Objects.Calls.{Updates, Emits-delete_external}
use infisical_entity_operato.Controller.Status.Calls.{
  StatusPatches, Identified, KeepsIdentifier, set_status-error, set_status-missing,
  set_status-ready,
}
use infisical_entity_operato.Controller.Project.{reconcile_project, reconcile_project_deletion}
use infisical_entity_operato.Controller.Project.State.{project_resource, project_status}
use infisical_entity_operato.Controller.Project.Calls.{Emits-reconcile_project}

abbrev pub project_identified : Identified project_status
unfolding project_status
project_identified = record {
  id = λ o. o.status.project_id;
  id-with_conditions = λ cs o. refl;
  id-observe = λ o. refl;
  id-forget = λ o. refl;
  conditions-with_conditions = λ cs o. refl;
}

-- A status patch that records an identifier leaves the project ready.
abbrev pub Records : Call → Type 0
Records (patch_status (Object.project before) (Object.project after)) =
    KeepsIdentifier project_status project_identified before after
Records _ = Unit

writes_Records : StatusPatches Records project_status
unfolding project_status project_resource
writes_Records = record {
  on_error = set_status-error project_status project_identified;
  on_missing = set_status-missing project_status project_identified;
  on_ready = set_status-ready project_status project_identified;
}

writes_NotDelete : StatusPatches NotDelete project_status
writes_NotDelete = record {
  on_error = λ now o reason text. tt;
  on_missing = λ now o reason text. tt;
  on_ready = λ now before o reason text. tt;
}

-- Each status patch of a reconciliation keeps the identifier of the project, clears it, or goes with
-- the condition Ready, if that holds of the calls made before.
pub reconcile_project-Records :
    (platform : Platform) (project : InfisicalProject) (r : Run)
    → All Records r.calls
    → All Records (reconcile_project platform project r).1.calls
reconcile_project-Records platform project r h =
    (Emits-reconcile_project platform writes_Records (record { at = λ kind k. tt })
        (record { at = λ request e. tt }) (record { at = λ request e. tt })
        (record { at = λ request e. tt }) project).at
      r h

-- Reconciling a project that is not being deleted sends no DELETE request, if none was sent before,
-- whatever Kubernetes and Infisical answer.
pub reconcile_project-NotDelete :
    (platform : Platform) (project : InfisicalProject) (r : Run)
    → All NotDelete r.calls
    → All NotDelete (reconcile_project platform project r).1.calls
reconcile_project-NotDelete platform project r h =
    (Emits-reconcile_project platform writes_NotDelete Reads_NotDelete Permits-post Permits-get
        Permits-patch project).at
      r h

Updates-NotHttp : (o : InfisicalProject) → Updates NotHttp project_resource o
unfolding project_resource
Updates-NotHttp o = record { at = λ fs. tt }

-- With the deletion policy Orphan, or none, the deletion of a project sends nothing to Infisical, if
-- nothing was sent before.
pub reconcile_project_deletion-NotHttp :
    (platform : Platform) (project : InfisicalProject) (r : Run)
    → deletion_policy project.spec.deletion_policy ≡ deletion_policy_orphan
    → All NotHttp r.calls
    → All NotHttp (reconcile_project_deletion platform project r).1.calls
unfolding reconcile_project_deletion
reconcile_project_deletion-NotHttp platform project r policy h =
    (Emits-delete_external platform project_resource project (Updates-NotHttp project) _
        project.spec.connection_ref _ Reads_NotHttp
        (λ kept c. absurd (kept_by_policy _ _ ((eq_iff _ _).1 policy) kept))).at
      r h
