-- ===== src/Controller/Watches/Tests.antt =====
-- Instances of the theorems on watches.
use infisical_entity_operato.Base.{refl, [], ◌∷◌}
use infisical_entity_operato.Exec.{
  list_organizations, list_projects, list_environments, list_identities, list_universal_auths,
  list_kubernetes_auths,
}
use infisical_entity_operato.Controller.Organization.{organization_resource}
use infisical_entity_operato.Controller.Project.State.{project_resource}
use infisical_entity_operato.Controller.Environment.State.{environment_resource}
use infisical_entity_operato.Controller.Identity.State.{identity_resource}
use infisical_entity_operato.Controller.UniversalAuth.State.{universal_auth_resource}
use infisical_entity_operato.Controller.KubernetesAuth.State.{kubernetes_auth_resource}
use infisical_entity_operato.Controller.Watches.{
  organizations_of_connection, projects_of_connection, environments_of_connection,
  identities_of_connection, universal_auths_of_connection, kubernetes_auths_of_connection,
}
use infisical_entity_operato.Controller.Watches.Exact.{Enqueues, of_connection-Enqueues}
use infisical_entity_operato.Base.{◌==◌}
use infisical_entity_operato.Result.{ok}
use infisical_entity_operato.Exec.{read_connection, list_connections}
use infisical_entity_operato.Controller.Connection.{connection_resource}
use infisical_entity_operato.Controller.Connections.{connection_references_secret}
use infisical_entity_operato.Controller.Watches.{
  connections_of_secret, organizations_of_secret, projects_of_secret, environments_of_secret,
  identities_of_secret, universal_auths_of_secret, kubernetes_auths_of_secret,
}
use infisical_entity_operato.Controller.Watches.Secrets.{
  EnqueuesThose, through_connection, auth_refers, of_secret-Enqueues,
}
use infisical_entity_operato.Demo.{
  demo_connection, demo_platform, demo_organization, demo_project, demo_environment, demo_identity,
  demo_universal_auth, demo_kubernetes_auth, empty_run,
}

of_connection-Enqueues_example :
    Enqueues demo_platform "team" "infisical" empty_run organization_resource
      (λ o. o.spec.connection_ref)
      (demo_organization ∷ [])
      (organizations_of_connection demo_platform "team" "infisical")
    × Enqueues demo_platform "team" "infisical" empty_run project_resource
        (λ p. p.spec.connection_ref)
        (demo_project ∷ [])
        (projects_of_connection demo_platform "team" "infisical")
    × Enqueues demo_platform "team" "infisical" empty_run environment_resource
        (λ e. e.spec.connection_ref)
        (demo_environment ∷ [])
        (environments_of_connection demo_platform "team" "infisical")
    × Enqueues demo_platform "team" "infisical" empty_run identity_resource
        (λ i. i.spec.connection_ref)
        (demo_identity ∷ [])
        (identities_of_connection demo_platform "team" "infisical")
    × Enqueues demo_platform "team" "infisical" empty_run universal_auth_resource
        (λ a. a.spec.connection_ref)
        (demo_universal_auth ∷ [])
        (universal_auths_of_connection demo_platform "team" "infisical")
    × Enqueues demo_platform "team" "infisical" empty_run kubernetes_auth_resource
        (λ a. a.spec.connection_ref)
        (demo_kubernetes_auth ∷ [])
        (kubernetes_auths_of_connection demo_platform "team" "infisical")
unfolding list_organizations list_projects list_environments list_identities list_universal_auths
    list_kubernetes_auths
of_connection-Enqueues_example =
    of_connection-Enqueues demo_platform "team" "infisical" empty_run (demo_organization ∷ [])
      (demo_project ∷ []) (demo_environment ∷ []) (demo_identity ∷ []) (demo_universal_auth ∷ [])
      (demo_kubernetes_auth ∷ []) (list_organizations demo_platform "team" empty_run).1
      (list_projects demo_platform "team" empty_run).1
      (list_environments demo_platform "team" empty_run).1
      (list_identities demo_platform "team" empty_run).1
      (list_universal_auths demo_platform "team" empty_run).1
      (list_kubernetes_auths demo_platform "team" empty_run).1 refl refl refl refl refl refl

of_secret-Enqueues_example :
    EnqueuesThose connection_resource
      (λ c. connection_references_secret c "token")
      (demo_connection ∷ [])
      (connections_of_secret demo_platform "team" "token")
      empty_run
    × EnqueuesThose organization_resource
        (through_connection
          (λ key. ok demo_connection)
          "token"
          organization_resource
          (λ o. o.spec.connection_ref))
        (demo_organization ∷ [])
        (organizations_of_secret demo_platform "team" "token")
        empty_run
    × EnqueuesThose project_resource
        (through_connection
          (λ key. ok demo_connection)
          "token"
          project_resource
          (λ o. o.spec.connection_ref))
        (demo_project ∷ [])
        (projects_of_secret demo_platform "team" "token")
        empty_run
    × EnqueuesThose environment_resource
        (through_connection
          (λ key. ok demo_connection)
          "token"
          environment_resource
          (λ o. o.spec.connection_ref))
        (demo_environment ∷ [])
        (environments_of_secret demo_platform "team" "token")
        empty_run
    × EnqueuesThose identity_resource
        (through_connection
          (λ key. ok demo_connection)
          "token"
          identity_resource
          (λ o. o.spec.connection_ref))
        (demo_identity ∷ [])
        (identities_of_secret demo_platform "team" "token")
        empty_run
    × EnqueuesThose universal_auth_resource
        (λ a. a.spec.client_secret.secret_ref.name == "token")
        (demo_universal_auth ∷ [])
        (universal_auths_of_secret demo_platform "team" "token")
        empty_run
    × EnqueuesThose kubernetes_auth_resource
        (auth_refers (λ key. ok demo_connection) "token")
        (demo_kubernetes_auth ∷ [])
        (kubernetes_auths_of_secret demo_platform "team" "token")
        empty_run
unfolding read_connection list_connections list_organizations list_projects list_environments
    list_identities list_universal_auths list_kubernetes_auths
of_secret-Enqueues_example =
    of_secret-Enqueues demo_platform (λ key. ok demo_connection) (λ key r. refl) "team" "token"
      empty_run (demo_connection ∷ []) (demo_organization ∷ []) (demo_project ∷ [])
      (demo_environment ∷ []) (demo_identity ∷ []) (demo_universal_auth ∷ [])
      (demo_kubernetes_auth ∷ []) (list_connections demo_platform "team" empty_run).1
      (list_organizations demo_platform "team" empty_run).1
      (list_projects demo_platform "team" empty_run).1
      (list_environments demo_platform "team" empty_run).1
      (list_identities demo_platform "team" empty_run).1
      (list_universal_auths demo_platform "team" empty_run).1
      (list_kubernetes_auths demo_platform "team" empty_run).1 refl refl refl refl refl refl refl
