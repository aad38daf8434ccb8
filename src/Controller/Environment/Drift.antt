-- ===== src/Controller/Environment/Drift.antt =====
-- When an environment is updated.
use infisical_entity_operato.Base.{
  ℤ, ◌≡◌, ◌↔◌, ◌⊎◌, false, Option, none, some, int_eq_iff, arith, eq_iff,
}
use infisical_entity_operato.Api.{InfisicalEnvironment}
use infisical_entity_operato.Client.Wire.{Environment}
use infisical_entity_operato.Controller.Environment.State.{
  environment_name, environment_needs_update, moved_from,
}

moved_from_iff : (p : ℤ) (o : Option ℤ) → (moved_from p o ≡ false) ↔ ((o ≡ none) ⊎ (o ≡ some p))
moved_from_iff p none = ground arith
moved_from_iff p (some want) = ground (arith, int_eq_iff p want)

-- An environment is left as it is exactly when its name is the one that is asked for, and its
-- position too, if one is asked for.
pub environment_needs_update_iff :
    (environment : InfisicalEnvironment) (current : Environment)
    → (environment_needs_update environment current ≡ false) ↔ (
        (current.name ≡ environment_name environment)
        × ((environment.spec.position ≡ none)
            ⊎ (environment.spec.position ≡ some current.position)))
unfolding environment_needs_update
environment_needs_update_iff environment current = ground (
  arith,
  eq_iff current.name (environment_name environment),
  moved_from_iff current.position environment.spec.position,
)
