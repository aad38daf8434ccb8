-- ===== src/Controller/Project/State.antt =====
-- infisicalproject_controller.go: the status of a project, and what the Infisical project is compared
-- with.
use infisical_entity_operato.Base.{
  String, Bool, true, false, not, ◌&&◌, ◌||◌, Option, none, some, List, [], ◌∷◌, map, ◌==◌, bool_eq,
  concat, quote, if◌then◌else◌,
}
use infisical_entity_operato.Failure.{Error, plain}
use infisical_entity_operato.Api.{InfisicalProject, InfisicalProject-discrete, EnvironmentStatus}
use infisical_entity_operato.Platform.{Object}
use infisical_entity_operato.Client.Wire.{Project, Environment}
use infisical_entity_operato.Controller.Policies.{or_name}
use infisical_entity_operato.Controller.Objects.{Resource}
use infisical_entity_operato.Controller.Status.{Conditioned}

unfoldable pub project_resource : Resource InfisicalProject
unfolding InfisicalProject-discrete
project_resource = record {
  meta = λ p. p.meta;
  with_meta = λ m p. record p { meta = m };
  object = Object.project;
  same = InfisicalProject-discrete;
}

unfoldable pub project_status : Conditioned InfisicalProject
unfolding project_resource
project_status = record {
  resource = project_resource;
  conditions = λ p. p.status.conditions;
  with_conditions = λ cs p. record p { status = record p.status { conditions = cs } };
  observe = λ p. record p { status = record p.status { observed_generation = p.meta.generation } };
  forget = λ p. record p {
    status = record p.status {
      project_id = "";
      slug = "";
      organization_id = "";
      environments = [];
    };
  };
}

unfoldable pub project_name : InfisicalProject → String
project_name project = or_name project.spec.project_name project.meta.name

unfoldable pub project_type : InfisicalProject → String
project_type project = if project.spec.type == "" then "secret-manager" else project.spec.type

unfoldable pub validate_project_organization : Project → (expected : String) → Option Error
validate_project_organization project expected =
    if not (expected == "") && not (project.organization_id == expected)
    then some (
        plain (
          concat (
            "infisical project belongs to organization "
            ∷ quote project.organization_id
            ∷ ", want "
            ∷ quote expected
            ∷ [])))
    else none

abbrev pub differs_from : Bool → Option Bool → Bool
differs_from current none = false
differs_from current (some want) = not (bool_eq current want)

unfoldable pub project_needs_update : InfisicalProject → Project → Bool
unfolding project_name
project_needs_update project current =
    if not (current.name == project_name project)
      || not (current.description == project.spec.description)
    then true
    else if not (project.spec.slug == "") && not (current.slug == project.spec.slug)
    then true
    else if differs_from current.has_delete_protection project.spec.has_delete_protection
    then true
    else false

unfoldable pub environment_statuses : List Environment → List EnvironmentStatus
environment_statuses environments =
    map (λ e. record { id = e.id; name = e.name; slug = e.slug }) environments

-- setProjectObservedState, with projectStatusFrom
unfoldable pub set_project_observed_state : InfisicalProject → Project → InfisicalProject
unfolding environment_statuses
set_project_observed_state project observed = record project {
  status = record project.status {
    project_id = observed.id;
    slug = observed.slug;
    organization_id = observed.organization_id;
    environments = environment_statuses observed.environments;
    observed_generation = project.meta.generation;
  };
}
