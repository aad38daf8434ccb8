-- ===== src/Controller/Identity/State/Calls.antt =====
-- The status patches of an identity.
use infisical_entity_operato.Base.{ℕ, String}
use infisical_entity_operato.Failure.{Error}
use infisical_entity_operato.Api.{InfisicalIdentity, condition_true, condition_false}
use infisical_entity_operato.Platform.{Object, Call, patch_status, Platform}
use infisical_entity_operato.Exec.Emits.{Emits}
use infisical_entity_operato.Controller.Objects.Calls.{Emits-respond, Emits-persist_status}
use infisical_entity_operato.Controller.Identity.State.{
  identity_resource, with_condition, observed_now, forgotten, identity_error, identity_missing,
}

-- The status may be patched in the ways in which the controller does it.
pub record StatusWrites (Q : Call → Type 0) : Type 0 where
  pub on_error :
      (now : ℕ → ℕ) (i : InfisicalIdentity) (reason message : String)
      → Q (
          patch_status
            (Object.identity i)
            (Object.identity (with_condition now (observed_now i) condition_false reason message)))
  pub on_missing :
      (now : ℕ → ℕ) (i : InfisicalIdentity) (reason message : String)
      → Q (
          patch_status (Object.identity i) (
            Object.identity
              (with_condition now (observed_now (forgotten i)) condition_false reason message)))
  pub on_ready :
      (now : ℕ → ℕ) (before i : InfisicalIdentity) (reason message : String)
      → Q (
          patch_status
            (Object.identity before)
            (Object.identity (with_condition now i condition_true reason message)))

module _ (platform : Platform) {Q : Call → Type 0} (writes : StatusWrites Q) where
  pub Emits-identity_error :
      (i : InfisicalIdentity) (reason : String) (e : Error)
      → Emits Q (identity_error platform i reason e)
  unfolding identity_error identity_resource
  Emits-identity_error i reason e = record {
    at = λ r h.
        (Emits-respond _ _
            (Emits-persist_status platform identity_resource _ i (writes.on_error _ i reason _))).at
          r h;
  }

  pub Emits-identity_missing : (i : InfisicalIdentity) → Emits Q (identity_missing platform i)
  unfolding identity_missing identity_resource
  Emits-identity_missing i = record {
    at = λ r h.
        (Emits-respond _ _
            (Emits-persist_status platform identity_resource _ i (writes.on_missing _ i _ _))).at
          r h;
  }
