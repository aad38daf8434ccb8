-- ===== src/Controller/Project/Acquire.antt =====
-- After the steps that find or create a project its identifier is known.
use infisical_entity_operato.Base.{String, ◌≡◌, ◌≢◌, inl, inr, arith, eq_iff}
use infisical_entity_operato.Result.{ok}
use infisical_entity_operato.Api.{InfisicalProject}
use infisical_entity_operato.Platform.{Run, Platform}
use infisical_entity_operato.Exec.{pure}
use infisical_entity_operato.Exec.Outcome.{bind-ok, check-ok, if-ok, pure-ok, or_return-ok}
use infisical_entity_operato.Client.{Client}
use infisical_entity_operato.Client.Wire.{Project}
use infisical_entity_operato.Client.Validated.{create_project-id}
use infisical_entity_operato.Controller.Project.State.{
  validate_project_organization, set_project_observed_state,
}
use infisical_entity_operato.Controller.Project.{create_missing, create_step, read_step}

missing-HasId :
    (platform : Platform) (c : Client) (expected : String) (project project' : InfisicalProject)
    (r r' : Run)
    → create_missing platform c expected project r ≡ (ok project', r')
    → project'.status.project_id ≢ ""
unfolding create_missing set_project_observed_state
missing-HasId platform c expected project project' r r' h =
    let (_, r1, _, create) = bind-ok _ _ r r' project' h in
    let (created, r2, made, validate) = bind-ok _ _ r1 r' project' create in
    let (_, r3, _, last) = bind-ok _ _ r2 r' project' validate in
    let (is, _) = pure-ok _ r3 r' project' last in
    rw (← is) (create_project-id platform c r1 r2 _ created (or_return-ok _ _ r1 r2 created made))

-- Where the step that creates a missing project does not end the reconciliation, the project has
-- an identifier.
pub create_step-HasProject :
    (platform : Platform) (c : Client) (expected : String) (project project' : InfisicalProject)
    (r r' : Run)
    → create_step platform c expected project r ≡ (ok project', r')
    → project'.status.project_id ≢ ""
unfolding create_step
create_step-HasProject platform c expected project project' r r' h =
    elim (if-ok _ (create_missing platform c expected project) (pure project) r r' project' h) [
      | inr (has, kept) ↦
          ground (arith, eq_iff project.status.project_id "", pure-ok project r r' project' kept)
      | inl (lacks, made) ↦ missing-HasId platform c expected project project' r r' made
    ]

-- A project that the reconciliation goes on with, having read it, belongs to the organization that
-- is expected, if one is.
pub read_step-InOrganization :
    (platform : Platform) (c : Client) (expected : String) (project : InfisicalProject)
    (current : Project) (r r' : Run)
    → read_step platform c expected project r ≡ (ok current, r')
    → expected ≢ ""
    → current.organization_id ≡ expected
unfolding read_step validate_project_organization
read_step-InOrganization platform c expected project current r r' h given =
    let (found, r1, _, validate) = bind-ok _ _ r r' current h in
    let (_, r2, checked, last) = bind-ok _ _ r1 r' current validate in
    let (is, _) = pure-ok found r2 r' current last in
    let (valid, _) = check-ok _ r1 r2 (or_return-ok _ _ r1 r2 tt checked) in
    ground (arith, is, valid, eq_iff expected "", eq_iff found.organization_id expected)
