-- ===== src/Controller/Watches.antt =====
-- The functions that SetupWithManager of each controller gives to its watches: which objects are
-- reconciled when an object that they refer to has changed.
pub mod Exact
pub mod Secrets
mod Tests
use infisical_entity_operato.Base.{
  String, Bool, true, false, ◌&&◌, ◌||◌, Option, none, some, List, [], ◌∷◌, ◌==◌, if◌then◌else◌,
}
use infisical_entity_operato.Result.{Result, ok, err}
use infisical_entity_operato.Failure.{Error}
use infisical_entity_operato.Api.{
  ObjectMeta, LocalObjectReference, SecretKeyReference, InfisicalConnection, InfisicalOrganization,
  InfisicalProject, InfisicalEnvironment, InfisicalIdentity, InfisicalUniversalAuth,
  InfisicalKubernetesAuth,
}
use infisical_entity_operato.Platform.{Key, Platform}
use infisical_entity_operato.Exec.{
  Exec, pure, attempt, read_connection, list_connections, list_organizations, list_projects,
  list_environments, list_identities, list_universal_auths, list_kubernetes_auths, ◌>>=◌,
}
use infisical_entity_operato.Controller.Connections.{connection_references_secret}
use infisical_entity_operato.Controller.Objects.{Resource}
use infisical_entity_operato.Controller.Connection.{connection_resource}
use infisical_entity_operato.Controller.Organization.{organization_resource}
use infisical_entity_operato.Controller.Project.State.{project_resource}
use infisical_entity_operato.Controller.Environment.State.{environment_resource}
use infisical_entity_operato.Controller.Identity.State.{identity_resource}
use infisical_entity_operato.Controller.Identity.Spec.{
  identity_references_project, identity_references_organization,
}
use infisical_entity_operato.Controller.UniversalAuth.State.{universal_auth_resource}
use infisical_entity_operato.Controller.KubernetesAuth.State.{kubernetes_auth_resource}

-- client.ObjectKeyFromObject
abbrev pub key_of : ObjectMeta → Key
key_of meta = record { namespace = meta.namespace; name = meta.name }

module _ {O : Type 0} (resource : Resource O) where
  abbrev pub onto : Bool → O → List Key → List Key
  onto true o keys = key_of (resource.meta o) ∷ keys
  onto false o keys = keys

  unfoldable pub requests_for : (O → Exec Error Bool) → List O → Exec Error (List Key)
  requests_for refers [] = pure []
  requests_for refers (o ∷ os) = do
    referring ← refers o
    rest ← requests_for refers os
    pure (onto referring o rest)

  listed : (O → Exec Error Bool) → Result Error (List O) → Exec Error (List Key)
  listed refers (err e) = pure []
  listed refers (ok os) = requests_for refers os

  -- No request where the list cannot be read
  unfoldable pub enqueue : Exec Error (List O) → (O → Exec Error Bool) → Exec Error (List Key)
  unfolding listed
  enqueue list refers = do found ← attempt list; listed refers found

  -- The reference to another object has its name.
  unfoldable pub refers_to : (O → LocalObjectReference) → String → O → Exec Error Bool
  refers_to ref name o = pure ((ref o).name == name)

abbrev pub optional_name_is : Option LocalObjectReference → String → Bool
optional_name_is none name = false
optional_name_is (some ref) name = ref.name == name

abbrev pub secret_name_is : Option SecretKeyReference → String → Bool
secret_name_is none name = false
secret_name_is (some ref) name = ref.name == name

abbrev pub references : Result Error InfisicalConnection → String → Bool
references (err e) name = false
references (ok connection) name = connection_references_secret connection name

-- The same, or the object itself refers to it; but not where the connection cannot be read
abbrev pub also : Result Error InfisicalConnection → (secret : String) → Bool → Bool
also (err e) secret own = false
also (ok connection) secret own = connection_references_secret connection secret || own

module _ (platform : Platform) where
  -- The connection of the object refers to the Secret; a connection that cannot be read does not.
  unfoldable pub connection_refers :
      {O : Type 0}
      → Resource O
      → (O → LocalObjectReference)
      → (secret : String) → O
      → Exec Error Bool
  connection_refers resource ref secret o = do
    found ← attempt (
        read_connection platform
          (record { namespace = (resource.meta o).namespace; name = (ref o).name }))
    pure (references found secret)

  module _ (namespace name : String) where
    unfoldable pub connections_of_secret : Exec Error (List Key)
    connections_of_secret =
        enqueue connection_resource (list_connections platform namespace)
          (λ c. pure (connection_references_secret c name))

    unfoldable pub organizations_of_connection : Exec Error (List Key)
    organizations_of_connection =
        enqueue organization_resource (list_organizations platform namespace)
          (refers_to organization_resource (λ o. o.spec.connection_ref) name)

    unfoldable pub organizations_of_secret : Exec Error (List Key)
    organizations_of_secret =
        enqueue organization_resource (list_organizations platform namespace)
          (connection_refers organization_resource (λ o. o.spec.connection_ref) name)

    unfoldable pub projects_of_connection : Exec Error (List Key)
    projects_of_connection =
        enqueue project_resource (list_projects platform namespace)
          (refers_to project_resource (λ p. p.spec.connection_ref) name)

    unfoldable pub projects_of_organization : Exec Error (List Key)
    projects_of_organization =
        enqueue project_resource (list_projects platform namespace)
          (λ p. pure (optional_name_is p.spec.organization_ref name))

    unfoldable pub projects_of_secret : Exec Error (List Key)
    projects_of_secret =
        enqueue project_resource (list_projects platform namespace)
          (connection_refers project_resource (λ p. p.spec.connection_ref) name)

    unfoldable pub environments_of_connection : Exec Error (List Key)
    environments_of_connection =
        enqueue environment_resource (list_environments platform namespace)
          (refers_to environment_resource (λ e. e.spec.connection_ref) name)

    unfoldable pub environments_of_project : Exec Error (List Key)
    environments_of_project =
        enqueue environment_resource (list_environments platform namespace)
          (refers_to environment_resource (λ e. e.spec.project_ref) name)

    unfoldable pub environments_of_secret : Exec Error (List Key)
    environments_of_secret =
        enqueue environment_resource (list_environments platform namespace)
          (connection_refers environment_resource (λ e. e.spec.connection_ref) name)

    unfoldable pub identities_of_connection : Exec Error (List Key)
    identities_of_connection =
        enqueue identity_resource (list_identities platform namespace)
          (refers_to identity_resource (λ i. i.spec.connection_ref) name)

    unfoldable pub identities_of_project : Exec Error (List Key)
    identities_of_project =
        enqueue identity_resource (list_identities platform namespace)
          (λ i. pure (identity_references_project i name))

    unfoldable pub identities_of_organization : Exec Error (List Key)
    identities_of_organization =
        enqueue identity_resource (list_identities platform namespace)
          (λ i. pure (identity_references_organization i name))

    unfoldable pub identities_of_secret : Exec Error (List Key)
    identities_of_secret =
        enqueue identity_resource (list_identities platform namespace)
          (connection_refers identity_resource (λ i. i.spec.connection_ref) name)

    unfoldable pub universal_auths_of_connection : Exec Error (List Key)
    universal_auths_of_connection =
        enqueue universal_auth_resource (list_universal_auths platform namespace)
          (refers_to universal_auth_resource (λ a. a.spec.connection_ref) name)

    unfoldable pub universal_auths_of_identity : Exec Error (List Key)
    universal_auths_of_identity =
        enqueue universal_auth_resource (list_universal_auths platform namespace)
          (refers_to universal_auth_resource (λ a. a.spec.identity_ref) name)

    unfoldable pub universal_auths_of_secret : Exec Error (List Key)
    universal_auths_of_secret =
        enqueue universal_auth_resource (list_universal_auths platform namespace)
          (λ a. pure (a.spec.client_secret.secret_ref.name == name))

    unfoldable pub kubernetes_auths_of_connection : Exec Error (List Key)
    kubernetes_auths_of_connection =
        enqueue kubernetes_auth_resource (list_kubernetes_auths platform namespace)
          (refers_to kubernetes_auth_resource (λ a. a.spec.connection_ref) name)

    unfoldable pub kubernetes_auths_of_identity : Exec Error (List Key)
    kubernetes_auths_of_identity =
        enqueue kubernetes_auth_resource (list_kubernetes_auths platform namespace)
          (refers_to kubernetes_auth_resource (λ a. a.spec.identity_ref) name)

    unfoldable pub kubernetes_auths_of_secret : Exec Error (List Key)
    kubernetes_auths_of_secret =
        enqueue kubernetes_auth_resource (list_kubernetes_auths platform namespace) (λ a. do
          found ← attempt (
              read_connection platform
                (record { namespace = a.meta.namespace; name = a.spec.connection_ref.name }))
          pure (
              also found name (
                secret_name_is a.spec.ca_cert_secret_ref name
                || secret_name_is a.spec.token_reviewer_jwt_secret_ref name)))
