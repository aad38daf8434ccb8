-- ===== src/Controller/KubernetesAuth/Safety.antt =====
-- What a reconciliation of Kubernetes Auth never does, and when it records the identifier.
use infisical_entity_operato.Base.{◌≡◌, refl, All, eq_iff}
use infisical_entity_operato.Api.{InfisicalKubernetesAuth, deletion_policy_orphan}
use infisical_entity_operato.Platform.{Object, Call, patch_status, Run, Platform}
use infisical_entity_operato.Controller.Calls.{
  NotDelete, NotHttp, Permits-get, Permits-post, Permits-patch, Reads_NotDelete, Reads_NotHttp,
}
use infisical_entity_operato.Controller.Policies.{deletion_policy, kept_by_policy}
use infisical_entity_operato.Controller.Objects.Calls.{Updates, Emits-delete_external}
use infisical_entity_operato.Controller.Status.Calls.{
  StatusPatches, Identified, KeepsIdentifier, set_status-error, set_status-missing,
  set_status-ready,
}
use infisical_entity_operato.Controller.KubernetesAuth.{
  reconcile_kubernetes_auth, reconcile_kubernetes_auth_deletion,
}
use infisical_entity_operato.Controller.KubernetesAuth.State.{
  kubernetes_auth_resource, kubernetes_auth_status,
}
use infisical_entity_operato.Controller.KubernetesAuth.Calls.{Emits-reconcile_kubernetes_auth}

abbrev pub kubernetes_auth_identified : Identified kubernetes_auth_status
unfolding kubernetes_auth_status
kubernetes_auth_identified = record {
  id = λ o. o.status.auth_id;
  id-with_conditions = λ cs o. refl;
  id-observe = λ o. refl;
  id-forget = λ o. refl;
  conditions-with_conditions = λ cs o. refl;
}

-- A status patch that records an identifier leaves the auth method ready.
abbrev pub Records : Call → Type 0
Records (patch_status (Object.kubernetes_auth before) (Object.kubernetes_auth after)) =
    KeepsIdentifier kubernetes_auth_status kubernetes_auth_identified before after
Records _ = Unit

writes_Records : StatusPatches Records kubernetes_auth_status
unfolding kubernetes_auth_status kubernetes_auth_resource
writes_Records = record {
  on_error = set_status-error kubernetes_auth_status kubernetes_auth_identified;
  on_missing = set_status-missing kubernetes_auth_status kubernetes_auth_identified;
  on_ready = set_status-ready kubernetes_auth_status kubernetes_auth_identified;
}

writes_NotDelete : StatusPatches NotDelete kubernetes_auth_status
writes_NotDelete = record {
  on_error = λ now o reason text. tt;
  on_missing = λ now o reason text. tt;
  on_ready = λ now before o reason text. tt;
}

-- Each status patch of a reconciliation keeps the identifier of the auth method, clears it, or goes with
-- the condition Ready, if that holds of the calls made before.
pub reconcile_kubernetes_auth-Records :
    (platform : Platform) (auth : InfisicalKubernetesAuth) (r : Run)
    → All Records r.calls
    → All Records (reconcile_kubernetes_auth platform auth r).1.calls
reconcile_kubernetes_auth-Records platform auth r h =
    (Emits-reconcile_kubernetes_auth platform writes_Records (record { at = λ kind k. tt })
        (record { at = λ request e. tt }) (record { at = λ request e. tt })
        (record { at = λ request e. tt }) auth).at
      r h

-- Reconciling Kubernetes Auth that is not being deleted sends no DELETE request, if none was sent before,
-- whatever Kubernetes and Infisical answer.
pub reconcile_kubernetes_auth-NotDelete :
    (platform : Platform) (auth : InfisicalKubernetesAuth) (r : Run)
    → All NotDelete r.calls
    → All NotDelete (reconcile_kubernetes_auth platform auth r).1.calls
reconcile_kubernetes_auth-NotDelete platform auth r h =
    (Emits-reconcile_kubernetes_auth platform writes_NotDelete Reads_NotDelete Permits-post
        Permits-get Permits-patch auth).at
      r h

Updates-NotHttp : (o : InfisicalKubernetesAuth) → Updates NotHttp kubernetes_auth_resource o
unfolding kubernetes_auth_resource
Updates-NotHttp o = record { at = λ fs. tt }

-- With the deletion policy Orphan, or none, the deletion of Kubernetes Auth sends nothing to Infisical, if
-- nothing was sent before.
pub reconcile_kubernetes_auth_deletion-NotHttp :
    (platform : Platform) (auth : InfisicalKubernetesAuth) (r : Run)
    → deletion_policy auth.spec.deletion_policy ≡ deletion_policy_orphan
    → All NotHttp r.calls
    → All NotHttp (reconcile_kubernetes_auth_deletion platform auth r).1.calls
unfolding reconcile_kubernetes_auth_deletion
reconcile_kubernetes_auth_deletion-NotHttp platform auth r policy h =
    (Emits-delete_external platform kubernetes_auth_resource auth (Updates-NotHttp auth) _
        auth.spec.connection_ref _ Reads_NotHttp
        (λ kept c. absurd (kept_by_policy _ _ ((eq_iff _ _).1 policy) kept))).at
      r h
