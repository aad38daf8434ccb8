-- ===== src/Controller/Connection/Calls.antt =====
-- The calls of a reconciliation of a connection.
use infisical_entity_operato.Base.{Option, none, some}
use infisical_entity_operato.Failure.{Error}
use infisical_entity_operato.Api.{InfisicalConnection}
use infisical_entity_operato.Platform.{Method, Call, Platform}
use infisical_entity_operato.Exec.Emits.{Permits, Reads, Emits, emits_rules}
use infisical_entity_operato.Client.Token.Calls.{Emits-check_connection}
use infisical_entity_operato.Controller.Connections.Calls.{Emits-infisical_client_for_connection}
use infisical_entity_operato.Controller.Objects.Calls.{Emits-respond, Emits-persist_status}
use infisical_entity_operato.Controller.Status.Calls.{
  StatusPatches, Emits-status_error, Emits-status_ready,
}
use infisical_entity_operato.Controller.Connection.{
  connection_resource, connection_status, connection_invalid, probe, after_validation,
  reconcile_connection,
}

module _ (platform : Platform) {Q : Call → Type 0} (writes : StatusPatches Q connection_status)
    (reads : Reads Q) (login : Permits Q Method.post) (gets : Permits Q Method.get) where
  Emits-connection_invalid :
      (c : InfisicalConnection) (e : Error) → Emits Q (connection_invalid platform c e)
  unfolding connection_invalid connection_status connection_resource
  Emits-connection_invalid c e = record {
    at = λ r h.
        (Emits-respond _ _
            (Emits-persist_status platform connection_resource _ c (writes.on_error _ c _ _))).at
          r h;
  }

  Emits-probe : (c : InfisicalConnection) → Emits Q (probe platform c)
  unfolding probe
  Emits-probe c =
      search
        (
          emits_rules, Emits-infisical_client_for_connection, Emits-check_connection,
          Emits-status_error, Emits-status_ready,
        )
        depth 9

  Emits-after_validation :
      (c : InfisicalConnection) (e : Option Error) → Emits Q (after_validation platform c e)
  unfolding after_validation
  Emits-after_validation c none = Emits-probe c
  Emits-after_validation c (some e) = Emits-connection_invalid c e

  pub Emits-reconcile_connection :
      (c : InfisicalConnection) → Emits Q (reconcile_connection platform c)
  unfolding reconcile_connection
  Emits-reconcile_connection c = Emits-after_validation c _
