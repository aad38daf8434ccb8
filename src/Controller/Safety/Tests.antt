-- ===== src/Controller/Safety/Tests.antt =====
-- Instances of the theorems on all controllers.
use infisical_entity_operato.Base.{refl, All}
use infisical_entity_operato.Controller.Calls.{NotDelete, NotHttp}
use infisical_entity_operato.Controller.Policies.{deletion_policy}
use infisical_entity_operato.Controller.Connection.{reconcile_connection}
use infisical_entity_operato.Controller.Organization.{
  reconcile_organization, reconcile_organization_deletion,
}
use infisical_entity_operato.Controller.Organization.Safety.{Records as OrganizationRecords}
use infisical_entity_operato.Controller.Project.{reconcile_project, reconcile_project_deletion}
use infisical_entity_operato.Controller.Project.Safety.{Records as ProjectRecords}
use infisical_entity_operato.Controller.Environment.{
  reconcile_environment, reconcile_environment_deletion,
}
use infisical_entity_operato.Controller.Environment.Safety.{Records as EnvironmentRecords}
use infisical_entity_operato.Controller.Identity.Reconcile.{
  reconcile_identity, reconcile_identity_deletion,
}
use infisical_entity_operato.Controller.UniversalAuth.{
  reconcile_universal_auth, reconcile_universal_auth_deletion,
}
use infisical_entity_operato.Controller.UniversalAuth.Safety.{Records as UniversalAuthRecords}
use infisical_entity_operato.Controller.KubernetesAuth.{
  reconcile_kubernetes_auth, reconcile_kubernetes_auth_deletion,
}
use infisical_entity_operato.Controller.KubernetesAuth.Safety.{Records as KubernetesAuthRecords}
use infisical_entity_operato.Controller.Safety.{
  reconcile-NotDelete, reconcile_deletion-NotHttp, reconcile-Records,
}
use infisical_entity_operato.Demo.{
  demo_platform, demo_connection, demo_organization, demo_project, demo_environment, demo_identity,
  demo_universal_auth, demo_kubernetes_auth, empty_run,
}

reconcile-NotDelete_example :
    All NotDelete (reconcile_connection demo_platform demo_connection empty_run).1.calls
    × All NotDelete (reconcile_organization demo_platform demo_organization empty_run).1.calls
    × All NotDelete (reconcile_project demo_platform demo_project empty_run).1.calls
    × All NotDelete (reconcile_environment demo_platform demo_environment empty_run).1.calls
    × All NotDelete (reconcile_identity demo_platform demo_identity empty_run).1.calls
    × All NotDelete (reconcile_universal_auth demo_platform demo_universal_auth empty_run).1.calls
    × All NotDelete (reconcile_kubernetes_auth demo_platform demo_kubernetes_auth empty_run).1.calls
reconcile-NotDelete_example =
    reconcile-NotDelete demo_platform demo_connection demo_organization demo_project
      demo_environment demo_identity demo_universal_auth demo_kubernetes_auth empty_run tt

reconcile_deletion-NotHttp_example :
    All NotHttp (reconcile_organization_deletion demo_platform demo_organization empty_run).1.calls
    × All NotHttp (reconcile_project_deletion demo_platform demo_project empty_run).1.calls
    × All NotHttp (reconcile_environment_deletion demo_platform demo_environment empty_run).1.calls
    × All NotHttp (reconcile_identity_deletion demo_platform demo_identity empty_run).1.calls
    × All NotHttp
        (reconcile_universal_auth_deletion demo_platform demo_universal_auth empty_run).1.calls
    × All NotHttp
        (reconcile_kubernetes_auth_deletion demo_platform demo_kubernetes_auth empty_run).1.calls
unfolding deletion_policy
reconcile_deletion-NotHttp_example =
    reconcile_deletion-NotHttp demo_platform demo_connection demo_organization demo_project
      demo_environment demo_identity demo_universal_auth demo_kubernetes_auth empty_run refl refl
      refl refl refl refl tt

reconcile-Records_example :
    All OrganizationRecords
      (reconcile_organization demo_platform demo_organization empty_run).1.calls
    × All ProjectRecords (reconcile_project demo_platform demo_project empty_run).1.calls
    × All EnvironmentRecords
        (reconcile_environment demo_platform demo_environment empty_run).1.calls
    × All UniversalAuthRecords
        (reconcile_universal_auth demo_platform demo_universal_auth empty_run).1.calls
    × All KubernetesAuthRecords
        (reconcile_kubernetes_auth demo_platform demo_kubernetes_auth empty_run).1.calls
reconcile-Records_example =
    reconcile-Records demo_platform demo_connection demo_organization demo_project demo_environment
      demo_identity demo_universal_auth demo_kubernetes_auth empty_run tt tt tt tt tt
