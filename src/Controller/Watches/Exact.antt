-- ===== src/Controller/Watches/Exact.antt =====
-- A watch enqueues the objects that refer to the one that has changed, and no other.
use infisical_entity_operato.Base.{
  String, Bool, true, false, ◌≡◌, refl, List, [], ◌∷◌, map, ◌==◌, if◌then◌else◌,
}
use infisical_entity_operato.Result.{Result, ok}
use infisical_entity_operato.Failure.{Error}
use infisical_entity_operato.Exec.{
  list_organizations, list_projects, list_environments, list_identities, list_universal_auths,
  list_kubernetes_auths,
}
use infisical_entity_operato.Api.{
  InfisicalOrganization, InfisicalProject, InfisicalEnvironment, InfisicalIdentity,
  InfisicalUniversalAuth, InfisicalKubernetesAuth, LocalObjectReference,
}
use infisical_entity_operato.Platform.{Platform, Key, Run}
use infisical_entity_operato.Exec.{Exec, pure, attempt, ◌>>=◌}
use infisical_entity_operato.Controller.Objects.{Resource}
use infisical_entity_operato.Controller.Organization.{organization_resource}
use infisical_entity_operato.Controller.Project.State.{project_resource}
use infisical_entity_operato.Controller.Environment.State.{environment_resource}
use infisical_entity_operato.Controller.Identity.State.{identity_resource}
use infisical_entity_operato.Controller.UniversalAuth.State.{universal_auth_resource}
use infisical_entity_operato.Controller.KubernetesAuth.State.{kubernetes_auth_resource}
use infisical_entity_operato.Controller.Watches.{
  organizations_of_connection, projects_of_connection, environments_of_connection,
  identities_of_connection, universal_auths_of_connection, kubernetes_auths_of_connection, key_of,
  onto, requests_for, listed, enqueue, refers_to,
}

-- The items that pass a test, in their order
unfoldable pub selected : {O : Type 0} → (O → Bool) → List O → List O
selected p [] = []
selected p (o ∷ os) = let rest = selected p os in if p o then o ∷ rest else rest

-- The test gives this answer, whatever was done before.
abbrev pub Answers : {O : Type 0} → (O → Exec Error Bool) → (O → Bool) → Type 0
Answers {O} refers p = (o : O) (r : Run) → (refers o r).0 ≡ ok (p o)

module _ {O : Type 0} (resource : Resource O) (refers : O → Exec Error Bool) (p : O → Bool)
    (answers : Answers refers p) where
  requests_for-selected :
      (os : List O) (r : Run)
      → (requests_for resource refers os r).0
        ≡ ok (map (λ o. key_of (resource.meta o)) (selected p os))
  unfolding requests_for selected pure ◌>>=◌
  requests_for-selected [] r = refl
  requests_for-selected (o ∷ os) r =
      rw (answers o r) (rw (requests_for-selected os (refers o r).1) (added (p o)))
    where
      added :
          (b : Bool)
          → ◌≡◌ {A = Result Error (List Key)}
              (ok (onto resource b o (map (λ o'. key_of (resource.meta o')) (selected p os))))
              (ok (
                map
                  (λ o'. key_of (resource.meta o'))
                  (if b then o ∷ selected p os else selected p os)))
      added true = refl
      added false = refl

  -- Where the list is read, exactly the objects of it that pass the test are enqueued, in its order.
  pub enqueue-selected :
      (list : Exec Error (List O)) (os : List O) (r r1 : Run)
      → list r ≡ (ok os, r1)
      → (enqueue resource list refers r).0
        ≡ ok (map (λ o. key_of (resource.meta o)) (selected p os))
  unfolding enqueue listed attempt ◌>>=◌
  enqueue-selected list os r r1 is = rw is (requests_for-selected os r1)

pub refers_to-Answers :
    {O : Type 0} (resource : Resource O) (ref : O → LocalObjectReference) (name : String)
    → Answers (refers_to resource ref name) (λ o. (ref o).name == name)
unfolding refers_to pure
refers_to-Answers resource ref name o r = refl

module _ (platform : Platform) (namespace name : String) (r : Run) where
  -- The keys of the items that refer to the object by this reference
  abbrev pub Enqueues :
      {O : Type 0}
      → Resource O
      → (O → LocalObjectReference)
      → List O
      → Exec Error (List Key)
      → Type 0
  Enqueues resource ref os watch =
      (watch r).0
      ≡ ok (map (λ o. key_of (resource.meta o)) (selected (λ o. (ref o).name == name) os))

  by_name :
      {O : Type 0} (resource : Resource O) (ref : O → LocalObjectReference)
      (list : Exec Error (List O)) (os : List O) (r1 : Run)
      → list r ≡ (ok os, r1)
      → Enqueues resource ref os (enqueue resource list (refers_to resource ref name))
  by_name resource ref list os r1 is =
      enqueue-selected resource _ _ (refers_to-Answers resource ref name) list os r r1 is

  -- A change of a connection enqueues exactly the organizations, projects, environments, identities and
  -- auth methods of its namespace that refer to it by name, where these are listed.
  pub of_connection-Enqueues :
      (organizations : List InfisicalOrganization) (projects : List InfisicalProject)
      (environments : List InfisicalEnvironment) (identities : List InfisicalIdentity)
      (universal_auths : List InfisicalUniversalAuth)
      (kubernetes_auths : List InfisicalKubernetesAuth) (r1 r2 r3 r4 r5 r6 : Run)
      → list_organizations platform namespace r ≡ (ok organizations, r1)
      → list_projects platform namespace r ≡ (ok projects, r2)
      → list_environments platform namespace r ≡ (ok environments, r3)
      → list_identities platform namespace r ≡ (ok identities, r4)
      → list_universal_auths platform namespace r ≡ (ok universal_auths, r5)
      → list_kubernetes_auths platform namespace r ≡ (ok kubernetes_auths, r6)
      → Enqueues organization_resource
          (λ o. o.spec.connection_ref)
          organizations
          (organizations_of_connection platform namespace name)
        × Enqueues project_resource
            (λ p. p.spec.connection_ref)
            projects
            (projects_of_connection platform namespace name)
        × Enqueues environment_resource
            (λ e. e.spec.connection_ref)
            environments
            (environments_of_connection platform namespace name)
        × Enqueues identity_resource
            (λ i. i.spec.connection_ref)
            identities
            (identities_of_connection platform namespace name)
        × Enqueues universal_auth_resource
            (λ a. a.spec.connection_ref)
            universal_auths
            (universal_auths_of_connection platform namespace name)
        × Enqueues kubernetes_auth_resource
            (λ a. a.spec.connection_ref)
            kubernetes_auths
            (kubernetes_auths_of_connection platform namespace name)
  unfolding organizations_of_connection projects_of_connection environments_of_connection
      identities_of_connection universal_auths_of_connection kubernetes_auths_of_connection
  of_connection-Enqueues organizations projects environments identities universal_auths
        kubernetes_auths r1 r2 r3 r4 r5 r6 h1 h2 h3 h4 h5 h6 =
      (
        by_name organization_resource (λ o. o.spec.connection_ref) _ organizations r1 h1,
        by_name project_resource (λ p. p.spec.connection_ref) _ projects r2 h2,
        by_name environment_resource (λ e. e.spec.connection_ref) _ environments r3 h3,
        by_name identity_resource (λ i. i.spec.connection_ref) _ identities r4 h4,
        by_name universal_auth_resource (λ a. a.spec.connection_ref) _ universal_auths r5 h5,
        by_name kubernetes_auth_resource (λ a. a.spec.connection_ref) _ kubernetes_auths r6 h6,
      )
