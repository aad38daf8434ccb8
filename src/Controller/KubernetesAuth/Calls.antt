-- ===== src/Controller/KubernetesAuth/Calls.antt =====
-- The calls of a reconciliation of Kubernetes Auth.
use infisical_entity_operato.Base.{String}
use infisical_entity_operato.Result.{Result, ok, err}
use infisical_entity_operato.Failure.{Error}
use infisical_entity_operato.Api.{InfisicalKubernetesAuth}
use infisical_entity_operato.Platform.{Method, Call, Platform}
use infisical_entity_operato.Exec.Emits.{Permits, Reads, Emits, emits_rules}
use infisical_entity_operato.Client.{Client}
use infisical_entity_operato.Client.KubernetesAuth.Calls.{
  Emits-get_kubernetes_auth, Emits-attach_kubernetes_auth, Emits-update_kubernetes_auth,
}
use infisical_entity_operato.Client.Wire.KubernetesAuth.{KubernetesAuth}
use infisical_entity_operato.Controller.Connections.Calls.{
  Emits-infisical_client_for_connection, Emits-optional_secret_value_from_reference,
}
use infisical_entity_operato.Controller.Status.Calls.{
  StatusPatches, Emits-status_error, Emits-status_missing, Emits-status_ready,
}
use infisical_entity_operato.Controller.KubernetesAuth.{
  Credentials, kubernetes_auth_error, identity_step, kubernetes_auth_secrets, adopt_found,
  adopt_step, create_missing, create_step, read_step, update_step, reconcile_kubernetes_auth,
}
use infisical_entity_operato.Controller.KubernetesAuth.State.{kubernetes_auth_status}

module _ (platform : Platform) {Q : Call → Type 0} (reads : Reads Q) where
  Emits-kubernetes_auth_secrets :
      (a : InfisicalKubernetesAuth) → Emits Q (kubernetes_auth_secrets platform a)
  unfolding kubernetes_auth_secrets
  Emits-kubernetes_auth_secrets a =
      search (emits_rules, Emits-optional_secret_value_from_reference) depth 9

module _ (platform : Platform) {Q : Call → Type 0} (writes : StatusPatches Q kubernetes_auth_status)
    (login : Permits Q Method.post) (gets : Permits Q Method.get)
    (patches : Permits Q Method.patch) where
  module _ (reads : Reads Q) where
    Emits-identity_step : (a : InfisicalKubernetesAuth) → Emits Q (identity_step platform a)
    unfolding identity_step kubernetes_auth_error
    Emits-identity_step a = search (emits_rules, Emits-status_error) depth 12

  module _ (c : Client) (identity_id : String) where
    Emits-adopt_found :
        (a : InfisicalKubernetesAuth) (found : Result Error KubernetesAuth)
        → Emits Q (adopt_found platform c identity_id a found)
    unfolding adopt_found kubernetes_auth_error
    Emits-adopt_found a (ok adopted) = search emits_rules
    Emits-adopt_found a (err failure) = search (emits_rules, Emits-status_error)

    Emits-adopt_step : (a : InfisicalKubernetesAuth) → Emits Q (adopt_step platform c identity_id a)
    unfolding adopt_step
    Emits-adopt_step a = search (emits_rules, Emits-get_kubernetes_auth, Emits-adopt_found)

    Emits-create_missing :
        (secrets : Credentials) (a : InfisicalKubernetesAuth)
        → Emits Q (create_missing platform c identity_id secrets a)
    unfolding create_missing kubernetes_auth_error
    Emits-create_missing secrets a =
        search (emits_rules, Emits-attach_kubernetes_auth, Emits-status_error) depth 12

    Emits-create_step :
        (secrets : Credentials) (a : InfisicalKubernetesAuth)
        → Emits Q (create_step platform c identity_id secrets a)
    unfolding create_step
    Emits-create_step secrets a = search (emits_rules, Emits-create_missing)

    Emits-read_step : (a : InfisicalKubernetesAuth) → Emits Q (read_step platform c identity_id a)
    unfolding read_step kubernetes_auth_error
    Emits-read_step a =
        search (emits_rules, Emits-get_kubernetes_auth, Emits-status_missing, Emits-status_error)
          depth 9

    Emits-update_step :
        (secrets : Credentials) (a : InfisicalKubernetesAuth) (current : KubernetesAuth)
        → Emits Q (update_step platform c identity_id secrets a current)
    unfolding update_step kubernetes_auth_error
    Emits-update_step secrets a current =
        search (emits_rules, Emits-update_kubernetes_auth, Emits-status_error) depth 9

module _ (platform : Platform) {Q : Call → Type 0} (writes : StatusPatches Q kubernetes_auth_status)
    (reads : Reads Q) (login : Permits Q Method.post) (gets : Permits Q Method.get)
    (patches : Permits Q Method.patch) where
  pub Emits-reconcile_kubernetes_auth :
      (a : InfisicalKubernetesAuth) → Emits Q (reconcile_kubernetes_auth platform a)
  unfolding reconcile_kubernetes_auth kubernetes_auth_error
  Emits-reconcile_kubernetes_auth a =
      search
        (
          emits_rules, Emits-identity_step, Emits-infisical_client_for_connection, Emits-adopt_step,
          Emits-kubernetes_auth_secrets, Emits-create_step, Emits-read_step, Emits-update_step,
          Emits-status_error, Emits-status_ready,
        )
        depth 24
