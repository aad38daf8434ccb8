-- ===== src/Controller/Project/Drift.antt =====
-- When a project is updated.
use infisical_entity_operato.Base.{
  ◌≡◌, ◌≢◌, ◌↔◌, ◌⊎◌, Bool, true, false, Option, none, some, bool_eq_iff, refl, String, arith,
  eq_iff,
}
use infisical_entity_operato.Platform.{Run, Platform}
use infisical_entity_operato.Exec.{or_return}
use infisical_entity_operato.Client.{Client, update_project}
use infisical_entity_operato.Controller.Project.{project_error, update_step}
use infisical_entity_operato.Json.{Json, obj, member, omit_empty, omit_nil}
use infisical_entity_operato.Api.{InfisicalProject}
use infisical_entity_operato.Client.Wire.{Project, ProjectPatch, encode_project_patch}
use infisical_entity_operato.Controller.Project.State.{
  project_name, project_needs_update, differs_from,
}

-- The specification asks for nothing that the project has otherwise.
abbrev pub Settled : InfisicalProject → Project → Type 0
Settled project current =
    (current.name ≡ project_name project)
    × (current.description ≡ project.spec.description)
    × ((project.spec.slug ≡ "") ⊎ (current.slug ≡ project.spec.slug))
    × ((project.spec.has_delete_protection ≡ none)
        ⊎ (project.spec.has_delete_protection ≡ some current.has_delete_protection))

differs_from_iff :
    (b : Bool) (o : Option Bool) → (differs_from b o ≡ false) ↔ ((o ≡ none) ⊎ (o ≡ some b))
differs_from_iff b none = ground arith
differs_from_iff b (some want) = ground (arith, bool_eq_iff b want)

-- A project is left as it is exactly when its name and description are those that are asked for,
-- and its slug and delete protection too, where they are asked for.
pub project_needs_update_iff :
    (project : InfisicalProject) (current : Project)
    → (project_needs_update project current ≡ false) ↔ Settled project current
unfolding project_needs_update
project_needs_update_iff project current = ground (
  arith,
  eq_iff current.name (project_name project),
  eq_iff current.description project.spec.description,
  eq_iff project.spec.slug "",
  eq_iff current.slug project.spec.slug,
  differs_from_iff current.has_delete_protection project.spec.has_delete_protection,
)

-- The field "description" of what is sent
abbrev pub described : Json → Option Json
described (obj fs) = member "description" fs
described _ = none

-- A description that was removed from the specification is not removed from the project: the project
-- counts as out of date, the reconciliation sends a patch, and that patch has no field for the description.
pub update_step-described :
    (platform : Platform) (c : Client) (expected : String) (project : InfisicalProject)
    (current : Project) (r : Run)
    → project.spec.description ≡ ""
    → current.description ≢ ""
    → (project_needs_update project current ≡ true)
      × (patch : ProjectPatch) × (update_step platform c expected project current r
          ≡ or_return
              (update_project platform c current.id patch)
              (project_error platform project "ExternalUpdateFailed")
              r)
      × (described (encode_project_patch patch) ≡ none)
unfolding update_step encode_project_patch member omit_empty omit_nil
update_step-described platform c expected project current r cleared has =
    let differs : project_needs_update project current ≡ true =
      unfold project_needs_update in
      ground (arith, cleared, eq_iff current.description project.spec.description) in
    (
      differs,
      record {
        name = project_name project;
        description = project.spec.description;
        slug = project.spec.slug;
        has_delete_protection = project.spec.has_delete_protection;
      },
      rw differs refl,
      ground (arith, (eq_iff _ _).1 cleared),
    )
