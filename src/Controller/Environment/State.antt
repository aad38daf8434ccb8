-- ===== src/Controller/Environment/State.antt =====
-- infisicalenvironment_controller.go: the status of an environment, and what the Infisical environment
-- is compared with.
use infisical_entity_operato.Base.{
  ℤ, String, Bool, true, false, not, Option, none, some, ◌==◌, int_eq, if◌then◌else◌,
}
use infisical_entity_operato.Api.{InfisicalEnvironment, InfisicalEnvironment-discrete}
use infisical_entity_operato.Platform.{Object}
use infisical_entity_operato.Client.Wire.{Environment}
use infisical_entity_operato.Controller.Policies.{or_name}
use infisical_entity_operato.Controller.Objects.{Resource}
use infisical_entity_operato.Controller.Status.{Conditioned}

unfoldable pub environment_resource : Resource InfisicalEnvironment
unfolding InfisicalEnvironment-discrete
environment_resource = record {
  meta = λ e. e.meta;
  with_meta = λ m e. record e { meta = m };
  object = Object.environment;
  same = InfisicalEnvironment-discrete;
}

-- Only the identifier is cleared where the environment is gone.
unfoldable pub environment_status : Conditioned InfisicalEnvironment
unfolding environment_resource
environment_status = record {
  resource = environment_resource;
  conditions = λ e. e.status.conditions;
  with_conditions = λ cs e. record e { status = record e.status { conditions = cs } };
  observe = λ e. record e { status = record e.status { observed_generation = e.meta.generation } };
  forget = λ e. record e { status = record e.status { environment_id = "" } };
}

unfoldable pub environment_name : InfisicalEnvironment → String
environment_name environment = or_name environment.spec.environment_name environment.meta.name

unfoldable pub environment_slug : InfisicalEnvironment → String
environment_slug environment = or_name environment.spec.slug environment.meta.name

abbrev pub moved_from : ℤ → Option ℤ → Bool
moved_from current none = false
moved_from current (some want) = not (int_eq current want)

unfoldable pub environment_needs_update : InfisicalEnvironment → Environment → Bool
unfolding environment_name
environment_needs_update environment current =
    if not (current.name == environment_name environment)
    then true
    else moved_from current.position environment.spec.position

unfoldable pub set_environment_observed_state :
    InfisicalEnvironment → Environment → (project_id : String) → InfisicalEnvironment
set_environment_observed_state environment observed project_id = record environment {
  status = record environment.status {
    environment_id = observed.id;
    project_id = project_id;
    name = observed.name;
    slug = observed.slug;
    position = observed.position;
    observed_generation = environment.meta.generation;
  };
}
