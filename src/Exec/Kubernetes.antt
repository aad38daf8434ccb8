-- ===== src/Exec/Kubernetes.antt =====
-- The calls of controller-runtime's client.
use infisical_entity_operato.Base.{String, Option, none, some, List, ◌∷◌}
use infisical_entity_operato.Result.{Result, ok, err}
use infisical_entity_operato.Failure.{Error}
use infisical_entity_operato.Api.{
  Secret, InfisicalConnection, InfisicalOrganization, InfisicalProject, InfisicalEnvironment,
  InfisicalIdentity, InfisicalUniversalAuth, InfisicalKubernetesAuth,
}
use infisical_entity_operato.Platform.{
  Key, Kind, Object, Call, read, list, create, update, patch_status, Run, Platform,
}
use infisical_entity_operato.Exec.Core.{Exec}

abbrev pub record_call : Call → Run → Run
record_call c r = record r { calls = c ∷ r.calls }

abbrev pub written : Option Error → Run → Result Error (Unit {0}) × Run
written none r = (ok tt, r)
written (some e) r = (err e, r)

module _ (platform : Platform) where
  unfoldable pub read_connection : Key → Exec Error InfisicalConnection
  read_connection k r =
      let r' = record_call (read Kind.connection k) r in (platform.get_connection r'.calls k, r')

  unfoldable pub read_organization : Key → Exec Error InfisicalOrganization
  read_organization k r =
      let r' = record_call (read Kind.organization k) r in
      (platform.get_organization r'.calls k, r')

  unfoldable pub read_project : Key → Exec Error InfisicalProject
  read_project k r =
      let r' = record_call (read Kind.project k) r in (platform.get_project r'.calls k, r')

  unfoldable pub read_environment : Key → Exec Error InfisicalEnvironment
  read_environment k r =
      let r' = record_call (read Kind.environment k) r in (platform.get_environment r'.calls k, r')

  unfoldable pub read_identity : Key → Exec Error InfisicalIdentity
  read_identity k r =
      let r' = record_call (read Kind.identity k) r in (platform.get_identity r'.calls k, r')

  unfoldable pub read_universal_auth : Key → Exec Error InfisicalUniversalAuth
  read_universal_auth k r =
      let r' = record_call (read Kind.universal_auth k) r in
      (platform.get_universal_auth r'.calls k, r')

  unfoldable pub read_kubernetes_auth : Key → Exec Error InfisicalKubernetesAuth
  read_kubernetes_auth k r =
      let r' = record_call (read Kind.kubernetes_auth k) r in
      (platform.get_kubernetes_auth r'.calls k, r')

  unfoldable pub read_secret : Key → Exec Error Secret
  read_secret k r =
      let r' = record_call (read Kind.secret k) r in (platform.get_secret r'.calls k, r')

  unfoldable pub update_object : Object → Exec Error (Unit {0})
  update_object o r = let r' = record_call (update o) r in written (platform.write r'.calls) r'

  unfoldable pub create_object : Object → Exec Error (Unit {0})
  create_object o r = let r' = record_call (create o) r in written (platform.write r'.calls) r'

  unfoldable pub patch_object_status : (before after : Object) → Exec Error (Unit {0})
  patch_object_status before after r =
      let r' = record_call (patch_status before after) r in written (platform.write r'.calls) r'

  unfoldable pub list_connections : (namespace : String) → Exec Error (List InfisicalConnection)
  list_connections namespace r =
      let r' = record_call (list Kind.connection namespace) r in
      (platform.list_connections r'.calls namespace, r')

  unfoldable pub list_organizations : (namespace : String) → Exec Error (List InfisicalOrganization)
  list_organizations namespace r =
      let r' = record_call (list Kind.organization namespace) r in
      (platform.list_organizations r'.calls namespace, r')

  unfoldable pub list_projects : (namespace : String) → Exec Error (List InfisicalProject)
  list_projects namespace r =
      let r' = record_call (list Kind.project namespace) r in
      (platform.list_projects r'.calls namespace, r')

  unfoldable pub list_environments : (namespace : String) → Exec Error (List InfisicalEnvironment)
  list_environments namespace r =
      let r' = record_call (list Kind.environment namespace) r in
      (platform.list_environments r'.calls namespace, r')

  unfoldable pub list_identities : (namespace : String) → Exec Error (List InfisicalIdentity)
  list_identities namespace r =
      let r' = record_call (list Kind.identity namespace) r in
      (platform.list_identities r'.calls namespace, r')

  unfoldable pub list_universal_auths :
      (namespace : String) → Exec Error (List InfisicalUniversalAuth)
  list_universal_auths namespace r =
      let r' = record_call (list Kind.universal_auth namespace) r in
      (platform.list_universal_auths r'.calls namespace, r')

  unfoldable pub list_kubernetes_auths :
      (namespace : String) → Exec Error (List InfisicalKubernetesAuth)
  list_kubernetes_auths namespace r =
      let r' = record_call (list Kind.kubernetes_auth namespace) r in
      (platform.list_kubernetes_auths r'.calls namespace, r')
