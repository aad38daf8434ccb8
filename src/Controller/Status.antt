-- ===== src/Controller/Status.antt =====
-- How the controllers of connections, organizations, projects and environments write their status:
-- organizationError, projectError and environmentError, the branch of a missing entity, and the
-- last lines of each reconciliation.
pub mod Calls
use infisical_entity_operato.Base.{ℕ, String, List}
use infisical_entity_operato.Failure.{
  Error, retry_for, external_retry, drift_detection_every, status_error_message,
}
use infisical_entity_operato.Api.{Condition, condition_true, condition_false}
use infisical_entity_operato.Platform.{Platform}
use infisical_entity_operato.Exec.{Exec, Response}
use infisical_entity_operato.Controller.Conditions.{set_condition}
use infisical_entity_operato.Controller.Objects.{Resource, persist_status, respond}

-- A resource whose status has conditions: `observe` sets the observed generation, and `forget`
-- clears what the status says of an entity that is gone.
pub record Conditioned (O : Type 0) : Type 0 where
  pub resource : Resource O
  pub conditions : O → List Condition
  pub with_conditions : List Condition → O → O
  pub observe : O → O
  pub forget : O → O

module _ {O : Type 0} (kind : Conditioned O) where
  -- The object with its conditions set at the present time
  unfoldable pub set_status : (now : ℕ → ℕ) → O → (status reason message : String) → O
  set_status now o status reason message =
      kind.with_conditions
        (set_condition now (kind.conditions o) (kind.resource.meta o).generation status reason
          message)
        o

module _ (platform : Platform) {O : Type 0} (kind : Conditioned O) where
  -- The copy that the patch starts from is taken here, after all earlier changes.
  unfoldable pub status_error : O → (reason : String) → Error → Exec Response Response
  status_error o reason e r =
      respond (retry_for e)
        (persist_status platform kind.resource
          (set_status kind (platform.now r.calls) (kind.observe o) condition_false reason
            (status_error_message e))
          o)
        r

  -- The entity is gone from Infisical.
  unfoldable pub status_missing : O → (reason text : String) → Exec Response Response
  status_missing o reason text r =
      respond external_retry
        (persist_status platform kind.resource
          (set_status kind (platform.now r.calls) (kind.observe (kind.forget o)) condition_false
            reason text)
          o)
        r

  -- The last lines: the condition Ready, and the patch from the copy of the start
  unfoldable pub status_ready : (before o : O) (text : String) → Exec Response Response
  status_ready before o text r =
      respond drift_detection_every
        (persist_status platform kind.resource
          (set_status kind (platform.now r.calls) o condition_true "Ready" text) before)
        r
