-- ===== src/Client/Http/Tests.antt =====
-- Instances of the theorems on addresses and answers.
use infisical_entity_operato.Base.{◌≡◌, ◌↔◌, ◌⊎◌, ◌≤◌, ◌<◌, arith, true, none}
use infisical_entity_operato.Failure.{is_not_found, is_unauthorized}
use infisical_entity_operato.Platform.{Reply, response, content}
use infisical_entity_operato.Result.{ok}
use infisical_entity_operato.Client.Http.{interpret, no_target}
use infisical_entity_operato.Client.Http.Valid.{error_says, HasStatus, status_of, interpret-status}

abbrev gone : Reply
gone = response 404 (content "gone" none)

interpret-status_example :
    ((u : Unit {0})
      → interpret no_target gone ≡ ok u
      → (200 ≤ status_of gone) × (status_of gone < 300))
    × ((error_says is_not_found (interpret no_target gone) ≡ true) ↔ HasStatus 404 gone)
    × ((error_says is_unauthorized (interpret no_target gone) ≡ true)
        ↔ (HasStatus 401 gone ⊎ HasStatus 403 gone))
interpret-status_example = interpret-status no_target (λ fs e h. absurd (ground arith)) gone
