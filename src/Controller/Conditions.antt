-- ===== src/Controller/Conditions.antt =====
-- internal/controller/infisical/common.go: the conditions of a status. `now n` is the n-th reading
-- of the clock.
pub mod Laws
pub mod Table
pub mod Times
mod Tests
use infisical_entity_operato.Base.{
  ℕ, String, Bool, true, false, not, ◌&&◌, ◌||◌, List, [], ◌∷◌, ◌==◌, nat_eq, any, contains,
  if◌then◌else◌,
}
use infisical_entity_operato.Api.{Condition, condition_true, condition_false}

abbrev pub ready_condition : String
ready_condition = "Ready"

abbrev pub reconciling_condition : String
reconciling_condition = "Reconciling"

abbrev pub stalled_condition : String
stalled_condition = "Stalled"

-- What setSingleCondition leaves at the place of the condition of the same type
unfoldable pub renew : (now : ℕ) (wanted condition : Condition) → Condition
renew now wanted condition =
    if condition.status == wanted.status
      && condition.reason == wanted.reason
      && condition.message == wanted.message
      && nat_eq condition.observed_generation wanted.observed_generation
    then condition
    else record wanted {
      last_transition_time =
          if condition.status == wanted.status && not (nat_eq condition.last_transition_time 0)
          then condition.last_transition_time
          else now;
    }

pub set_from : (now : ℕ) (wanted : Condition) → List Condition → List Condition
unfolding renew
set_from now wanted [] = record wanted { last_transition_time = now } ∷ []
set_from now wanted (condition ∷ rest) =
    let later = set_from now wanted rest in
    if not (condition.type == wanted.type)
    then condition ∷ later
    else renew now wanted condition ∷ rest

unfoldable pub set_single_condition :
    (now : ℕ)
    → List Condition
    → (condition_type : String) (generation : ℕ) (status reason message : String) → List Condition
unfolding set_from
set_single_condition now conditions condition_type generation status reason message =
    set_from now
      (record {
        type = condition_type;
        status = status;
        observed_generation = generation;
        last_transition_time = 0;
        reason = reason;
        message = message;
      })
      conditions

unfoldable pub is_stalled_reason : String → Bool
is_stalled_reason reason = contains reason (
    "ConfigurationInvalid" ∷ "InvalidSpec" ∷ "RoleConfigurationInvalid" ∷ "CreationNotAllowed"
    ∷ "ExternalProjectMismatch" ∷ "ExternalIdentityMismatch" ∷ "ExternalOrganizationMismatch"
    ∷ "ExternalAuthMismatch" ∷ [])

unfoldable pub set_condition :
    (now : ℕ → ℕ)
    → List Condition
    → (generation : ℕ) (status reason message : String) → List Condition
unfolding set_single_condition is_stalled_reason
set_condition now conditions generation status reason message =
    let ready =
      set_single_condition (now 0) conditions ready_condition generation status reason message in
    if status == condition_true
    then set_single_condition (now 2)
        (set_single_condition (now 1) ready reconciling_condition generation condition_false
          "ReconciliationSucceeded" "reconciliation completed")
        stalled_condition generation condition_false "NotStalled" "reconciliation can continue"
    else if is_stalled_reason reason
    then set_single_condition (now 2)
        (set_single_condition (now 1) ready reconciling_condition generation condition_false
          "Stalled" "reconciliation is blocked until the resource is corrected")
        stalled_condition generation condition_true reason message
    else set_single_condition (now 2)
        (set_single_condition (now 1) ready reconciling_condition generation condition_true
          "Progressing"
          "reconciliation is waiting for a dependency or retrying after an external error")
        stalled_condition generation condition_false "NotStalled" "reconciliation can continue"

unfoldable pub condition_ready : List Condition → Bool
condition_ready = any (λ c. c.type == ready_condition && c.status == condition_true)
