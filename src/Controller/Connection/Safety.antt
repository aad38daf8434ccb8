-- ===== src/Controller/Connection/Safety.antt =====
-- What a reconciliation of a connection never does.
use infisical_entity_operato.Base.{All}
use infisical_entity_operato.Api.{InfisicalConnection}
use infisical_entity_operato.Platform.{Run, Platform}
use infisical_entity_operato.Controller.Calls.{
  NotDelete, Permits-get, Permits-post, Reads_NotDelete,
}
use infisical_entity_operato.Controller.Status.Calls.{StatusPatches}
use infisical_entity_operato.Controller.Connection.{
  connection_resource, connection_status, reconcile_connection,
}
use infisical_entity_operato.Controller.Connection.Calls.{Emits-reconcile_connection}

writes_NotDelete : StatusPatches NotDelete connection_status
unfolding connection_status connection_resource
writes_NotDelete = record {
  on_error = λ now o reason text. tt;
  on_missing = λ now o reason text. tt;
  on_ready = λ now before o reason text. tt;
}

-- Reconciling a connection sends no DELETE request, if none was sent before, whatever Kubernetes and
-- Infisical answer.
pub reconcile_connection-NotDelete :
    (platform : Platform) (connection : InfisicalConnection) (r : Run)
    → All NotDelete r.calls
    → All NotDelete (reconcile_connection platform connection r).1.calls
reconcile_connection-NotDelete platform connection r h =
    (Emits-reconcile_connection platform writes_NotDelete Reads_NotDelete Permits-post Permits-get
        connection).at
      r h
