-- ===== src/Controller/Watches/Secrets.antt =====
-- A watch of Secrets enqueues the objects whose connection refers to the Secret that has changed, and auth
-- methods that refer to it themselves.
use infisical_entity_operato.Base.{
  String, Bool, true, false, ◌≡◌, refl, ap, ◌∙◌, ◌&&◌, List, map, ◌==◌, ◌||◌,
}
use infisical_entity_operato.Result.{Result, ok, err}
use infisical_entity_operato.Failure.{Error}
use infisical_entity_operato.Exec.{
  Exec, pure, attempt, ◌>>=◌, read_connection, list_connections, list_organizations, list_projects,
  list_environments, list_identities, list_universal_auths, list_kubernetes_auths,
}
use infisical_entity_operato.Api.{
  InfisicalConnection, InfisicalOrganization, InfisicalProject, InfisicalEnvironment,
  InfisicalIdentity, InfisicalUniversalAuth, InfisicalKubernetesAuth, LocalObjectReference,
}
use infisical_entity_operato.Platform.{Platform, Key, Run}
use infisical_entity_operato.Controller.Connection.{connection_resource}
use infisical_entity_operato.Controller.Connections.{connection_references_secret}
use infisical_entity_operato.Controller.Objects.{Resource}
use infisical_entity_operato.Controller.Organization.{organization_resource}
use infisical_entity_operato.Controller.Project.State.{project_resource}
use infisical_entity_operato.Controller.Environment.State.{environment_resource}
use infisical_entity_operato.Controller.Identity.State.{identity_resource}
use infisical_entity_operato.Controller.UniversalAuth.State.{universal_auth_resource}
use infisical_entity_operato.Controller.KubernetesAuth.State.{kubernetes_auth_resource}
use infisical_entity_operato.Controller.Watches.{
  key_of, enqueue, references, connection_refers, also, secret_name_is, connections_of_secret,
  organizations_of_secret, projects_of_secret, environments_of_secret, identities_of_secret,
  universal_auths_of_secret, kubernetes_auths_of_secret,
}
use infisical_entity_operato.Controller.Watches.Exact.{Answers, selected, enqueue-selected}

-- The keys of the items that pass a test, in their order
abbrev pub EnqueuesThose :
    {O : Type 0} → Resource O → (O → Bool) → List O → Exec Error (List Key) → Run → Type 0
EnqueuesThose resource p os watch r =
    (watch r).0 ≡ ok (map (λ o. key_of (resource.meta o)) (selected p os))

-- What Kubernetes says of connections, as a function of the key
abbrev pub Connections : Type 0
Connections = Key → Result Error InfisicalConnection

abbrev pub can_be_read : Result Error InfisicalConnection → Bool
can_be_read (err e) = false
can_be_read (ok connection) = true

abbrev pub is_read_and_refers : Result Error InfisicalConnection → (secret : String) → Bool
is_read_and_refers (err e) secret = false
is_read_and_refers (ok connection) secret = connection_references_secret connection secret

-- The connection of the object can be read, and refers to the Secret.
abbrev pub through_connection :
    {O : Type 0}
    → Connections
    → (secret : String) → Resource O
    → (O → LocalObjectReference)
    → O
    → Bool
through_connection connections secret resource ref o =
    is_read_and_refers
      (connections (record { namespace = (resource.meta o).namespace; name = (ref o).name })) secret

-- Kubernetes Auth itself refers to the Secret.
abbrev pub names_secret : (secret : String) → InfisicalKubernetesAuth → Bool
names_secret secret a =
    secret_name_is a.spec.ca_cert_secret_ref secret
    || secret_name_is a.spec.token_reviewer_jwt_secret_ref secret

-- The connection of Kubernetes Auth can be read, and it or Kubernetes Auth itself refers to the Secret.
abbrev pub auth_refers : Connections → (secret : String) → InfisicalKubernetesAuth → Bool
auth_refers connections secret a =
    let found =
      connections (record { namespace = a.meta.namespace; name = a.spec.connection_ref.name }) in
    can_be_read found && (is_read_and_refers found secret || names_secret secret a)

references-read :
    (found : Result Error InfisicalConnection) (secret : String)
    → references found secret ≡ is_read_and_refers found secret
references-read (err e) secret = refl
references-read (ok connection) secret = refl

also-read :
    (found : Result Error InfisicalConnection) (secret : String) (own : Bool)
    → also found secret own ≡ (can_be_read found && (is_read_and_refers found secret || own))
also-read (err e) secret own = refl
also-read (ok connection) secret own = refl

module _ (platform : Platform) (connections : Connections)
    (stable : (key : Key) (r : Run) → (read_connection platform key r).0 ≡ connections key)
    (namespace name : String) (r : Run) where
  connection_refers-Answers :
      {O : Type 0} (resource : Resource O) (ref : O → LocalObjectReference)
      → Answers
          (connection_refers platform resource ref name)
          (through_connection connections name resource ref)
  unfolding connection_refers pure ◌>>=◌ attempt
  connection_refers-Answers resource ref o r' =
      ap (λ found. ok (references found name)) (stable _ r') ∙ ap ok (references-read _ name)

  by_connection :
      {O : Type 0} (resource : Resource O) (ref : O → LocalObjectReference)
      (list : Exec Error (List O)) (os : List O) (r1 : Run)
      → list r ≡ (ok os, r1)
      → EnqueuesThose resource
          (through_connection connections name resource ref)
          os
          (enqueue resource list (connection_refers platform resource ref name))
          r
  by_connection resource ref list os r1 is =
      enqueue-selected resource _ _ (connection_refers-Answers resource ref) list os r r1 is

  by_itself :
      {O : Type 0} (resource : Resource O) (p : O → Bool) (list : Exec Error (List O)) (os : List O)
      (r1 : Run)
      → list r ≡ (ok os, r1)
      → EnqueuesThose resource p os (enqueue resource list (λ o. pure (p o))) r
  unfolding pure
  by_itself resource p list os r1 is =
      enqueue-selected resource (λ o. pure (p o)) p (λ o r'. refl) list os r r1 is

  kubernetes_auths-Enqueues :
      (os : List InfisicalKubernetesAuth) (r1 : Run)
      → list_kubernetes_auths platform namespace r ≡ (ok os, r1)
      → EnqueuesThose kubernetes_auth_resource
          (auth_refers connections name)
          os
          (kubernetes_auths_of_secret platform namespace name)
          r
  unfolding kubernetes_auths_of_secret pure ◌>>=◌ attempt
  kubernetes_auths-Enqueues os r1 is =
      enqueue-selected kubernetes_auth_resource _ (auth_refers connections name)
        (λ a r'.
          ap (λ found. ok (also found name (names_secret name a))) (stable _ r')
          ∙ ap ok (also-read _ name (names_secret name a)))
        (list_kubernetes_auths platform namespace) os r r1 is

  -- Where a connection is read as the same at any time, and the objects are listed, a change of a Secret
  -- enqueues exactly these of its namespace: the connections that refer to it; the organizations, projects,
  -- environments and identities whose connection can be read and refers to it; Universal Auth whose client
  -- secret is published in it; and Kubernetes Auth whose connection can be read, where that or the auth
  -- method itself refers to it.
  pub of_secret-Enqueues :
      (listed : List InfisicalConnection) (organizations : List InfisicalOrganization)
      (projects : List InfisicalProject) (environments : List InfisicalEnvironment)
      (identities : List InfisicalIdentity) (universal_auths : List InfisicalUniversalAuth)
      (kubernetes_auths : List InfisicalKubernetesAuth) (r1 r2 r3 r4 r5 r6 r7 : Run)
      → list_connections platform namespace r ≡ (ok listed, r1)
      → list_organizations platform namespace r ≡ (ok organizations, r2)
      → list_projects platform namespace r ≡ (ok projects, r3)
      → list_environments platform namespace r ≡ (ok environments, r4)
      → list_identities platform namespace r ≡ (ok identities, r5)
      → list_universal_auths platform namespace r ≡ (ok universal_auths, r6)
      → list_kubernetes_auths platform namespace r ≡ (ok kubernetes_auths, r7)
      → EnqueuesThose connection_resource
          (λ c. connection_references_secret c name)
          listed
          (connections_of_secret platform namespace name)
          r
        × EnqueuesThose organization_resource
            (through_connection connections name organization_resource (λ o. o.spec.connection_ref))
            organizations
            (organizations_of_secret platform namespace name)
            r
        × EnqueuesThose project_resource
            (through_connection connections name project_resource (λ o. o.spec.connection_ref))
            projects
            (projects_of_secret platform namespace name)
            r
        × EnqueuesThose environment_resource
            (through_connection connections name environment_resource (λ o. o.spec.connection_ref))
            environments
            (environments_of_secret platform namespace name)
            r
        × EnqueuesThose identity_resource
            (through_connection connections name identity_resource (λ o. o.spec.connection_ref))
            identities
            (identities_of_secret platform namespace name)
            r
        × EnqueuesThose universal_auth_resource
            (λ a. a.spec.client_secret.secret_ref.name == name)
            universal_auths
            (universal_auths_of_secret platform namespace name)
            r
        × EnqueuesThose kubernetes_auth_resource
            (auth_refers connections name)
            kubernetes_auths
            (kubernetes_auths_of_secret platform namespace name)
            r
  unfolding connections_of_secret organizations_of_secret projects_of_secret environments_of_secret
      identities_of_secret universal_auths_of_secret
  of_secret-Enqueues listed organizations projects environments identities universal_auths
        kubernetes_auths r1 r2 r3 r4 r5 r6 r7 h1 h2 h3 h4 h5 h6 h7 =
      (
        by_itself connection_resource _ _ listed r1 h1,
        by_connection organization_resource (λ o. o.spec.connection_ref) _ organizations r2 h2,
        by_connection project_resource (λ o. o.spec.connection_ref) _ projects r3 h3,
        by_connection environment_resource (λ o. o.spec.connection_ref) _ environments r4 h4,
        by_connection identity_resource (λ o. o.spec.connection_ref) _ identities r5 h5,
        by_itself universal_auth_resource _ _ universal_auths r6 h6,
        kubernetes_auths-Enqueues kubernetes_auths r7 h7,
      )
