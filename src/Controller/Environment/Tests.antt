-- ===== src/Controller/Environment/Tests.antt =====
-- Instances of the theorems on the environment controller.
use infisical_entity_operato.Base.{◌≡◌}
use infisical_entity_operato.Base.{◌↔◌, ◌⊎◌, false, none, some}
use infisical_entity_operato.Client.Wire.{Environment, no_environment}
use infisical_entity_operato.Controller.Environment.State.{
  environment_needs_update, environment_name,
}
use infisical_entity_operato.Controller.Environment.Drift.{environment_needs_update_iff}
use infisical_entity_operato.Demo.{demo_environment}

abbrev created_environment : Environment
created_environment = record no_environment { id = "e-1"; name = "staging"; slug = "staging" }

environment_needs_update-iff_example :
    (environment_needs_update demo_environment created_environment ≡ false) ↔ (
      (created_environment.name ≡ environment_name demo_environment)
      × ((demo_environment.spec.position ≡ none)
          ⊎ (demo_environment.spec.position ≡ some created_environment.position)))
environment_needs_update-iff_example =
    environment_needs_update_iff demo_environment created_environment
