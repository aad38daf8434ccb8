-- ===== src/Controller/Connection.antt =====
-- internal/controller/infisical/infisicalconnection_controller.go
pub mod Calls
pub mod Safety
use infisical_entity_operato.Base.{String, Option, none, some, if◌then◌else◌}
use infisical_entity_operato.Result.{Result, ok, err}
use infisical_entity_operato.Failure.{Error, is_kube_not_found, status_error_message}
use infisical_entity_operato.Api.{
  InfisicalConnection, InfisicalConnection-discrete, condition_false,
}
use infisical_entity_operato.Platform.{Key, Object, Platform}
use infisical_entity_operato.Exec.{Exec, Response, pure, or_return, read_connection, ◌>>=◌, ◌>>◌}
use infisical_entity_operato.Client.{check_connection}
use infisical_entity_operato.Controller.Connections.{
  validate_connection_spec, infisical_client_for_connection,
}
use infisical_entity_operato.Controller.Objects.{Resource, persist_status, respond, done, failed}
use infisical_entity_operato.Controller.Status.{Conditioned, set_status, status_error, status_ready}

unfoldable pub connection_resource : Resource InfisicalConnection
unfolding InfisicalConnection-discrete
connection_resource = record {
  meta = λ c. c.meta;
  with_meta = λ m c. record c { meta = m };
  object = Object.connection;
  same = InfisicalConnection-discrete;
}

unfoldable pub connection_status : Conditioned InfisicalConnection
unfolding connection_resource
connection_status = record {
  resource = connection_resource;
  conditions = λ c. c.status.conditions;
  with_conditions = λ cs c. record c { status = record c.status { conditions = cs } };
  observe = λ c. record c { status = record c.status { observed_generation = c.meta.generation } };
  forget = λ c. c;
}

module _ (platform : Platform) where
  -- A specification that is invalid is not looked at again until it changes.
  connection_invalid : InfisicalConnection → Error → Exec Response Response
  connection_invalid connection e r =
      respond 0
        (persist_status platform connection_resource
          (set_status connection_status (platform.now r.calls)
            (record connection {
              status = record connection.status {
                observed_generation = connection.meta.generation;
              };
            })
            condition_false "ConfigurationInvalid" (status_error_message e))
          connection)
        r

  probe : InfisicalConnection → Exec Response Response
  probe connection = do
    or_return
        (do
          c ←
              infisical_client_for_connection platform connection.meta.namespace
                (record { name = connection.meta.name })
          check_connection platform c)
        (status_error platform connection_status connection "ConnectionUnavailable")
    status_ready platform connection_status connection
        (record connection {
          status = record connection.status { observed_generation = connection.meta.generation };
        })
        "Infisical API connection is authenticated and reachable"

  after_validation : InfisicalConnection → Option Error → Exec Response Response
  after_validation connection (some e) = connection_invalid connection e
  after_validation connection none = probe connection

  unfoldable pub reconcile_connection : InfisicalConnection → Exec Response Response
  unfolding connection_invalid probe after_validation
  reconcile_connection connection =
      after_validation connection (validate_connection_spec platform connection)

  unfoldable pub reconcile_connection_request : Key → Exec Response Response
  reconcile_connection_request key = do
    connection ←
        or_return (read_connection platform key)
          (λ e. pure (if is_kube_not_found e then done else failed 0 e))
    reconcile_connection connection
