-- ===== src/Controller/Connections/Tests.antt =====
-- Instances of the theorems on connections.
use infisical_entity_operato.Base.{◌≡◌, refl, ◌↔◌, none, trim_space, trim_right, arith, eq_iff}
use infisical_entity_operato.Result.{ok}
use infisical_entity_operato.Platform.{Url}
use infisical_entity_operato.Client.Http.{parse_base_url}
use infisical_entity_operato.Controller.Connections.{validate_connection_spec}
use infisical_entity_operato.Controller.Connections.Valid.{
  OneAuth, HostValid, TimeoutValid, host_of, validate_connection_spec_iff,
  validate_connection_spec-accepted,
}
use infisical_entity_operato.Demo.{demo_platform, demo_connection}

validate_connection_spec-iff_example :
    (validate_connection_spec demo_platform demo_connection ≡ none) ↔ (
      OneAuth demo_connection.spec.auth_secret_ref demo_connection.spec.universal_auth
      × HostValid demo_platform demo_connection.spec.host_api
      × TimeoutValid demo_connection.spec.request_timeout)
validate_connection_spec-iff_example = validate_connection_spec_iff demo_platform demo_connection

validate_connection_spec-accepted_example :
    (url : Url) × (parse_base_url demo_platform demo_connection.spec.host_api ≡ ok url)
unfolding validate_connection_spec trim_space trim_right
validate_connection_spec-accepted_example =
    validate_connection_spec-accepted demo_platform demo_connection refl
      (λ e. ground (arith, (eq_iff (host_of demo_connection.spec.host_api) "").1 e))
