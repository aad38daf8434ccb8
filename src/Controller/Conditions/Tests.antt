-- ===== src/Controller/Conditions/Tests.antt =====
-- Runs of setCondition, and instances of its theorems.
use infisical_entity_operato.Base.{arith, contains, ◌≡◌, refl, [], ◌∷◌, String, map}
use infisical_entity_operato.Api.{Condition}
use infisical_entity_operato.Controller.Conditions.{set_condition}
use infisical_entity_operato.Controller.Conditions.Times.{time-set_condition}
use infisical_entity_operato.Controller.Conditions.Table.{
  set_condition_idem, Reports, set_condition-Reports,
}

abbrev old_ready : Condition
old_ready = record {
  type = "Ready";
  status = "True";
  observed_generation = 1;
  last_transition_time = 40;
  reason = "Ready";
  message = "reconciled";
}

abbrev new_ready : Condition
new_ready = record old_ready { observed_generation = 2 }

statuses :
    map {B = String × String}
      (λ c. (c.type, c.status))
      (set_condition (λ n. 50) (old_ready ∷ []) 2 "False" "ConfigurationInvalid" "bad")
    ≡ ("Ready", "False") ∷ ("Reconciling", "False") ∷ ("Stalled", "True") ∷ []
unfolding set_condition contains
statuses = refl

set_condition_idem_example :
    set_condition
      (λ n. 60)
      (set_condition (λ n. 50) (old_ready ∷ []) 2 "False" "ExternalReadFailed" "timeout")
      2
      "False"
      "ExternalReadFailed"
      "timeout"
    ≡ set_condition (λ n. 50) (old_ready ∷ []) 2 "False" "ExternalReadFailed" "timeout"
set_condition_idem_example =
    set_condition_idem 2 "False" "ExternalReadFailed" "timeout" (λ n. 50) (λ n. 60) (old_ready ∷ [])

set_condition-Reports_example :
    Reports 2 "False" "CreationNotAllowed" "not found"
      (old_ready ∷ [])
      (set_condition (λ n. 50) (old_ready ∷ []) 2 "False" "CreationNotAllowed" "not found")
set_condition-Reports_example =
    set_condition-Reports 2 "False" "CreationNotAllowed" "not found" (λ n. 50) (old_ready ∷ [])

time-set_condition_example : new_ready.last_transition_time ≡ old_ready.last_transition_time
unfolding set_condition
time-set_condition_example =
    time-set_condition (λ n. 50) (old_ready ∷ []) 2 "True" "Ready" "reconciled" "Ready" old_ready
      new_ready refl refl refl (λ e. omega (arith, e))
