-- ===== src/Controller/Environment/Acquire.antt =====
-- After the steps that find or create a environment its identifier is known.
use infisical_entity_operato.Base.{String, ◌≡◌, ◌≢◌, inl, inr, arith, eq_iff}
use infisical_entity_operato.Result.{ok}
use infisical_entity_operato.Api.{InfisicalEnvironment}
use infisical_entity_operato.Platform.{Run, Platform}
use infisical_entity_operato.Exec.{pure}
use infisical_entity_operato.Exec.Outcome.{bind-ok, if-ok, pure-ok, or_return-ok}
use infisical_entity_operato.Client.{Client}
use infisical_entity_operato.Client.Validated.{create_environment-id}
use infisical_entity_operato.Controller.Environment.{create_missing, create_step}
use infisical_entity_operato.Controller.Environment.State.{set_environment_observed_state}

missing-HasId :
    (platform : Platform) (c : Client) (project_id : String)
    (environment environment' : InfisicalEnvironment) (r r' : Run)
    → create_missing platform c project_id environment r ≡ (ok environment', r')
    → environment'.status.environment_id ≢ ""
unfolding create_missing set_environment_observed_state
missing-HasId platform c project_id environment environment' r r' h =
    let (_, r1, _, create) = bind-ok _ _ r r' environment' h in
    let (created, r2, made, validate) = bind-ok _ _ r1 r' environment' create in
    let (is, _) = pure-ok _ r2 r' environment' validate in
    rw (← is) (
      create_environment-id platform c r1 r2 project_id _ created
        (or_return-ok _ _ r1 r2 created made))

-- Where the step that creates a missing environment does not end the reconciliation, the environment has an
-- identifier: the requests that follow name an environment.
pub create_step-HasEnvironment :
    (platform : Platform) (c : Client) (project_id : String)
    (environment environment' : InfisicalEnvironment) (r r' : Run)
    → create_step platform c project_id environment r ≡ (ok environment', r')
    → environment'.status.environment_id ≢ ""
unfolding create_step
create_step-HasEnvironment platform c project_id environment environment' r r' h =
    elim (if-ok _ (create_missing platform c project_id environment) (pure environment) r r'
      environment' h) [
        | inr (has, kept) ↦ ground (
          arith,
          eq_iff environment.status.environment_id "",
          pure-ok environment r r' environment' kept,
        )
        | inl (lacks, made) ↦ missing-HasId platform c project_id environment environment' r r' made
      ]
