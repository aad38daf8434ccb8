-- ===== src/Controller/Environment/Calls.antt =====
-- The calls of a reconciliation of an environment.
use infisical_entity_operato.Base.{String, Option, none, some}
use infisical_entity_operato.Result.{Result, ok, err}
use infisical_entity_operato.Failure.{Error}
use infisical_entity_operato.Api.{InfisicalEnvironment}
use infisical_entity_operato.Platform.{Method, Call, Platform}
use infisical_entity_operato.Exec.Emits.{Permits, Reads, Emits, emits_rules}
use infisical_entity_operato.Client.{Client}
use infisical_entity_operato.Client.Environments.Calls.{
  Emits-get_environment_by_id, Emits-get_environment_by_slug, Emits-create_environment,
  Emits-update_environment, Emits-restore_environment,
}
use infisical_entity_operato.Client.Wire.{Environment}
use infisical_entity_operato.Controller.Connections.Calls.{Emits-infisical_client_for_connection}
use infisical_entity_operato.Controller.Status.Calls.{
  StatusPatches, Emits-status_error, Emits-status_missing, Emits-status_ready,
}
use infisical_entity_operato.Controller.Environment.{
  environment_error, project_step, restore_deleted, restore_environment_if_deleted, adopt_found,
  adopt_step, create_missing, create_step, read_step, update_step, reconcile_environment,
}
use infisical_entity_operato.Controller.Environment.State.{environment_status}

module _ (platform : Platform) {Q : Call → Type 0} (writes : StatusPatches Q environment_status)
    (login : Permits Q Method.post) (gets : Permits Q Method.get)
    (patches : Permits Q Method.patch) where
  module _ (reads : Reads Q) where
    Emits-project_step : (e : InfisicalEnvironment) → Emits Q (project_step platform e)
    unfolding project_step environment_error
    Emits-project_step e = search (emits_rules, Emits-status_error) depth 12

  module _ (c : Client) (project_id : String) where
    Emits-restore_deleted :
        (e : Environment) (deleted : Option String)
        → Emits Q (restore_deleted platform c project_id e deleted)
    unfolding restore_deleted
    Emits-restore_deleted e none = search emits_rules
    Emits-restore_deleted e (some time) = search Emits-restore_environment

    Emits-restore_environment_if_deleted :
        (e : Environment) → Emits Q (restore_environment_if_deleted platform c project_id e)
    unfolding restore_environment_if_deleted
    Emits-restore_environment_if_deleted e = Emits-restore_deleted e _

    Emits-adopt_found :
        (e : InfisicalEnvironment) (found : Result Error Environment)
        → Emits Q (adopt_found platform c project_id e found)
    unfolding adopt_found environment_error
    Emits-adopt_found e (ok adopted) =
        search (emits_rules, Emits-restore_environment_if_deleted, Emits-status_error)
    Emits-adopt_found e (err failure) = search (emits_rules, Emits-status_error)

    Emits-adopt_step : (e : InfisicalEnvironment) → Emits Q (adopt_step platform c project_id e)
    unfolding adopt_step
    Emits-adopt_step e = search (emits_rules, Emits-get_environment_by_slug, Emits-adopt_found)

    Emits-create_missing :
        (e : InfisicalEnvironment) → Emits Q (create_missing platform c project_id e)
    unfolding create_missing environment_error
    Emits-create_missing e =
        search (emits_rules, Emits-create_environment, Emits-status_error) depth 12

    Emits-create_step : (e : InfisicalEnvironment) → Emits Q (create_step platform c project_id e)
    unfolding create_step
    Emits-create_step e = search (emits_rules, Emits-create_missing)

    Emits-read_step : (e : InfisicalEnvironment) → Emits Q (read_step platform c project_id e)
    unfolding read_step environment_error
    Emits-read_step e =
        search
          (
            emits_rules, Emits-get_environment_by_id, Emits-restore_environment_if_deleted,
            Emits-status_missing, Emits-status_error,
          )
          depth 9

    Emits-update_step :
        (e : InfisicalEnvironment) (current : Environment)
        → Emits Q (update_step platform c project_id e current)
    unfolding update_step environment_error
    Emits-update_step e current =
        search (emits_rules, Emits-update_environment, Emits-status_error) depth 9

module _ (platform : Platform) {Q : Call → Type 0} (writes : StatusPatches Q environment_status)
    (reads : Reads Q) (login : Permits Q Method.post) (gets : Permits Q Method.get)
    (patches : Permits Q Method.patch) where
  pub Emits-reconcile_environment :
      (e : InfisicalEnvironment) → Emits Q (reconcile_environment platform e)
  unfolding reconcile_environment environment_error
  Emits-reconcile_environment e =
      search
        (
          emits_rules, Emits-project_step, Emits-infisical_client_for_connection, Emits-adopt_step,
          Emits-create_step, Emits-read_step, Emits-update_step, Emits-status_error,
          Emits-status_ready,
        )
        depth 20
