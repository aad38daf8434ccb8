-- ===== src/Controller/Safety.antt =====
-- What no controller does while its object is not being deleted, or where its policy is Orphan, and what it
-- records.
mod Tests
use infisical_entity_operato.Base.{◌≡◌, All}
use infisical_entity_operato.Api.{
  InfisicalConnection, InfisicalOrganization, InfisicalProject, InfisicalEnvironment,
  InfisicalIdentity, InfisicalUniversalAuth, InfisicalKubernetesAuth, DeletionPolicy,
  deletion_policy_orphan,
}
use infisical_entity_operato.Platform.{Run, Platform}
use infisical_entity_operato.Controller.Calls.{NotDelete, NotHttp}
use infisical_entity_operato.Controller.Policies.{deletion_policy}
use infisical_entity_operato.Controller.Connection.{reconcile_connection}
use infisical_entity_operato.Controller.Connection.Safety.{reconcile_connection-NotDelete}
use infisical_entity_operato.Controller.Organization.{
  reconcile_organization, reconcile_organization_deletion,
}
use infisical_entity_operato.Controller.Organization.Safety.{
  Records as OrganizationRecords, reconcile_organization-Records, reconcile_organization-NotDelete,
  reconcile_organization_deletion-NotHttp,
}
use infisical_entity_operato.Controller.Project.{reconcile_project, reconcile_project_deletion}
use infisical_entity_operato.Controller.Project.Safety.{
  Records as ProjectRecords, reconcile_project-Records, reconcile_project-NotDelete,
  reconcile_project_deletion-NotHttp,
}
use infisical_entity_operato.Controller.Environment.{
  reconcile_environment, reconcile_environment_deletion,
}
use infisical_entity_operato.Controller.Environment.Safety.{
  Records as EnvironmentRecords, reconcile_environment-Records, reconcile_environment-NotDelete,
  reconcile_environment_deletion-NotHttp,
}
use infisical_entity_operato.Controller.Identity.Reconcile.{
  reconcile_identity, reconcile_identity_deletion,
}
use infisical_entity_operato.Controller.Identity.Safety.{
  reconcile_identity-NotDelete, orphan-NotHttp,
}
use infisical_entity_operato.Controller.UniversalAuth.{
  reconcile_universal_auth, reconcile_universal_auth_deletion,
}
use infisical_entity_operato.Controller.UniversalAuth.Safety.{
  Records as UniversalAuthRecords, reconcile_universal_auth-Records,
  reconcile_universal_auth-NotDelete, reconcile_universal_auth_deletion-NotHttp,
}
use infisical_entity_operato.Controller.KubernetesAuth.{
  reconcile_kubernetes_auth, reconcile_kubernetes_auth_deletion,
}
use infisical_entity_operato.Controller.KubernetesAuth.Safety.{
  Records as KubernetesAuthRecords, reconcile_kubernetes_auth-Records,
  reconcile_kubernetes_auth-NotDelete, reconcile_kubernetes_auth_deletion-NotHttp,
}

module _ (platform : Platform) (connection : InfisicalConnection)
    (organization : InfisicalOrganization) (project : InfisicalProject)
    (environment : InfisicalEnvironment) (identity : InfisicalIdentity)
    (universal_auth : InfisicalUniversalAuth) (kubernetes_auth : InfisicalKubernetesAuth)
    (r : Run) where
  -- Reconciling a connection, or an organization, a project, an environment, an identity or an auth method
  -- that is not being deleted sends no DELETE request, if none was sent before, whatever Kubernetes and
  -- Infisical answer.
  pub reconcile-NotDelete :
      All NotDelete r.calls
      → All NotDelete (reconcile_connection platform connection r).1.calls
        × All NotDelete (reconcile_organization platform organization r).1.calls
        × All NotDelete (reconcile_project platform project r).1.calls
        × All NotDelete (reconcile_environment platform environment r).1.calls
        × All NotDelete (reconcile_identity platform identity r).1.calls
        × All NotDelete (reconcile_universal_auth platform universal_auth r).1.calls
        × All NotDelete (reconcile_kubernetes_auth platform kubernetes_auth r).1.calls
  reconcile-NotDelete h = (
    reconcile_connection-NotDelete platform connection r h,
    reconcile_organization-NotDelete platform organization r h,
    reconcile_project-NotDelete platform project r h,
    reconcile_environment-NotDelete platform environment r h,
    reconcile_identity-NotDelete platform identity r h,
    reconcile_universal_auth-NotDelete platform universal_auth r h,
    reconcile_kubernetes_auth-NotDelete platform kubernetes_auth r h,
  )

  -- With the deletion policy Orphan, or none, the deletion of an organization, a project, an environment,
  -- an identity or an auth method sends nothing to Infisical, if nothing was sent before.
  pub reconcile_deletion-NotHttp :
      deletion_policy organization.spec.deletion_policy ≡ deletion_policy_orphan
      → deletion_policy project.spec.deletion_policy ≡ deletion_policy_orphan
      → deletion_policy environment.spec.deletion_policy ≡ deletion_policy_orphan
      → deletion_policy identity.spec.deletion_policy ≡ deletion_policy_orphan
      → deletion_policy universal_auth.spec.deletion_policy ≡ deletion_policy_orphan
      → deletion_policy kubernetes_auth.spec.deletion_policy ≡ deletion_policy_orphan
      → All NotHttp r.calls
      → All NotHttp (reconcile_organization_deletion platform organization r).1.calls
        × All NotHttp (reconcile_project_deletion platform project r).1.calls
        × All NotHttp (reconcile_environment_deletion platform environment r).1.calls
        × All NotHttp (reconcile_identity_deletion platform identity r).1.calls
        × All NotHttp (reconcile_universal_auth_deletion platform universal_auth r).1.calls
        × All NotHttp (reconcile_kubernetes_auth_deletion platform kubernetes_auth r).1.calls
  reconcile_deletion-NotHttp o p e i u k h = (
    reconcile_organization_deletion-NotHttp platform organization r o h,
    reconcile_project_deletion-NotHttp platform project r p h,
    reconcile_environment_deletion-NotHttp platform environment r e h,
    orphan-NotHttp platform identity r i h,
    reconcile_universal_auth_deletion-NotHttp platform universal_auth r u h,
    reconcile_kubernetes_auth_deletion-NotHttp platform kubernetes_auth r k h,
  )

  -- Each status patch of a reconciliation of an organization, a project, an environment or an auth method
  -- keeps the external identifier, clears it, or goes with the condition Ready, if that holds of the calls
  -- made before.
  pub reconcile-Records :
      All OrganizationRecords r.calls
      → All ProjectRecords r.calls
      → All EnvironmentRecords r.calls
      → All UniversalAuthRecords r.calls
      → All KubernetesAuthRecords r.calls
      → All OrganizationRecords (reconcile_organization platform organization r).1.calls
        × All ProjectRecords (reconcile_project platform project r).1.calls
        × All EnvironmentRecords (reconcile_environment platform environment r).1.calls
        × All UniversalAuthRecords (reconcile_universal_auth platform universal_auth r).1.calls
        × All KubernetesAuthRecords (reconcile_kubernetes_auth platform kubernetes_auth r).1.calls
  reconcile-Records o p e u k = (
    reconcile_organization-Records platform organization r o,
    reconcile_project-Records platform project r p,
    reconcile_environment-Records platform environment r e,
    reconcile_universal_auth-Records platform universal_auth r u,
    reconcile_kubernetes_auth-Records platform kubernetes_auth r k,
  )
