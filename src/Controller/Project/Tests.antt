-- ===== src/Controller/Project/Tests.antt =====
-- Instances of the theorems on the project controller.
use infisical_entity_operato.Base.{true, ◌≢◌, ◌↔◌, arith, eq_iff, false, none}
use infisical_entity_operato.Api.{InfisicalProject}
use infisical_entity_operato.Platform.{Run}
use infisical_entity_operato.Client.Wire.{Project, ProjectPatch, no_project}
use infisical_entity_operato.Exec.{or_return, check, attempt, ◌>>=◌, pure, lift}
use infisical_entity_operato.Json.{object_of, member, string_of, bool_of, items_of}
use infisical_entity_operato.Client.{
  create_project, get_project, update_project, exchange_with, bearer_token, do_with_token,
  send_request, interpret, inside,
}
use infisical_entity_operato.Client.Wire.{encode_project_patch, decode_project, validate_project}
use infisical_entity_operato.Controller.Policies.{can_create, creation_policy}
use infisical_entity_operato.Controller.Project.State.{
  project_needs_update, set_project_observed_state, validate_project_organization,
  environment_statuses,
}
use infisical_entity_operato.Controller.Project.{
  create_step, create_missing, read_step, update_step, project_error,
}
use infisical_entity_operato.Controller.Project.Acquire.{
  create_step-HasProject, read_step-InOrganization,
}
use infisical_entity_operato.Controller.Project.Drift.{
  Settled, described, project_needs_update_iff, update_step-described,
}
use infisical_entity_operato.Demo.{demo_client}
use infisical_entity_operato.Base.{◌≡◌, refl}
use infisical_entity_operato.Demo.{demo_platform, demo_project, empty_run}

-- The project before it is created
abbrev blank_project : InfisicalProject
blank_project = record demo_project {
  status = record demo_project.status { project_id = ""; slug = ""; organization_id = "" };
}

abbrev created_project : Project
created_project = record no_project {
  id = "p-1";
  name = "shop";
  slug = "shop";
  organization_id = "o-1";
}

abbrev acquired_project : InfisicalProject
acquired_project = record blank_project {
  status = record blank_project.status {
    project_id = "p-1";
    slug = "shop";
    organization_id = "o-1";
    observed_generation = 2;
  };
}

abbrev created_run : Run
created_run = (create_step demo_platform demo_client "o-1" blank_project empty_run).1

create_step-HasProject_example : acquired_project.status.project_id ≢ ""
unfolding create_step create_missing can_create creation_policy or_return check attempt ◌>>=◌ pure
    lift create_project exchange_with bearer_token do_with_token send_request interpret inside
    object_of decode_project validate_project set_project_observed_state
    validate_project_organization environment_statuses member string_of bool_of items_of
create_step-HasProject_example =
    create_step-HasProject demo_platform demo_client "o-1" blank_project acquired_project empty_run
      created_run refl

read_step-InOrganization_example : created_project.organization_id ≡ "o-1"
unfolding read_step or_return check ◌>>=◌ pure lift get_project exchange_with bearer_token
    do_with_token send_request interpret inside object_of decode_project validate_project
    validate_project_organization member string_of bool_of items_of
read_step-InOrganization_example =
    read_step-InOrganization demo_platform demo_client "o-1" acquired_project created_project
      empty_run (read_step demo_platform demo_client "o-1" acquired_project empty_run).1 refl
      (λ e. ground (arith, (eq_iff "o-1" "").1 e))

project_needs_update-iff_example :
    (project_needs_update acquired_project created_project ≡ false)
    ↔ Settled acquired_project created_project
project_needs_update-iff_example = project_needs_update_iff acquired_project created_project

abbrev described_project : Project
described_project = record created_project { description = "old text" }

update_step-described_example :
    (project_needs_update acquired_project described_project ≡ true)
    × (patch : ProjectPatch) × (update_step demo_platform demo_client "o-1" acquired_project
          described_project empty_run
        ≡ or_return
            (update_project demo_platform demo_client "p-1" patch)
            (project_error demo_platform acquired_project "ExternalUpdateFailed")
            empty_run)
    × (described (encode_project_patch patch) ≡ none)
update_step-described_example =
    update_step-described demo_platform demo_client "o-1" acquired_project described_project
      empty_run refl (λ e. ground (arith, (eq_iff described_project.description "").1 e))
