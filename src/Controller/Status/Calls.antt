-- ===== src/Controller/Status/Calls.antt =====
-- The status patches of these controllers, and when they record an identifier.
use infisical_entity_operato.Base.{ℕ, String, ◌≡◌, ap, ◌∙◌, ◌⊎◌, inl, inr, true}
use infisical_entity_operato.Failure.{Error}
use infisical_entity_operato.Api.{condition_true, condition_false}
use infisical_entity_operato.Platform.{Call, patch_status, Platform}
use infisical_entity_operato.Exec.Emits.{Emits}
use infisical_entity_operato.Controller.Conditions.{condition_ready}
use infisical_entity_operato.Controller.Conditions.Table.{condition_ready-set_condition}
use infisical_entity_operato.Controller.Objects.Calls.{Emits-respond, Emits-persist_status}
use infisical_entity_operato.Controller.Status.{
  Conditioned, set_status, status_error, status_missing, status_ready,
}

-- The status may be patched in the three ways in which a controller does it.
pub record StatusPatches (Q : Call → Type 0) {O : Type 0} (kind : Conditioned O) : Type 0 where
  pub on_error :
      (now : ℕ → ℕ) (o : O) (reason text : String)
      → Q (
          patch_status (kind.resource.object o) (
            kind.resource.object
              (set_status kind now (kind.observe o) condition_false reason text)))
  pub on_missing :
      (now : ℕ → ℕ) (o : O) (reason text : String)
      → Q (
          patch_status (kind.resource.object o) (
            kind.resource.object
              (set_status kind now (kind.observe (kind.forget o)) condition_false reason text)))
  pub on_ready :
      (now : ℕ → ℕ) (before o : O) (reason text : String)
      → Q (
          patch_status
            (kind.resource.object before)
            (kind.resource.object (set_status kind now o condition_true reason text)))

module _ (platform : Platform) {Q : Call → Type 0} {O : Type 0} (kind : Conditioned O)
    (writes : StatusPatches Q kind) where
  pub Emits-status_error :
      (o : O) (reason : String) (e : Error) → Emits Q (status_error platform kind o reason e)
  unfolding status_error
  Emits-status_error o reason e = record {
    at = λ r h.
        (Emits-respond _ _
            (Emits-persist_status platform kind.resource _ o (writes.on_error _ o reason _))).at
          r h;
  }

  pub Emits-status_missing :
      (o : O) (reason text : String) → Emits Q (status_missing platform kind o reason text)
  unfolding status_missing
  Emits-status_missing o reason text = record {
    at = λ r h.
        (Emits-respond _ _
            (Emits-persist_status platform kind.resource _ o (writes.on_missing _ o reason _))).at
          r h;
  }

  pub Emits-status_ready :
      (before o : O) (text : String) → Emits Q (status_ready platform kind before o text)
  unfolding status_ready
  Emits-status_ready before o text = record {
    at = λ r h.
        (Emits-respond _ _ (
            Emits-persist_status platform kind.resource _ before
              (writes.on_ready _ before o _ _))).at
          r h;
  }

-- A patch keeps the identifier, clears it, or goes with the condition Ready.
pub record Identified {O : Type 0} (kind : Conditioned O) : Type 0 where
  pub id : O → String
  pub id-with_conditions : (cs : _) (o : O) → id (kind.with_conditions cs o) ≡ id o
  pub id-observe : (o : O) → id (kind.observe o) ≡ id o
  pub id-forget : (o : O) → id (kind.forget o) ≡ ""
  pub conditions-with_conditions :
      (cs : _) (o : O) → kind.conditions (kind.with_conditions cs o) ≡ cs

abbrev pub KeepsIdentifier :
    {O : Type 0} (kind : Conditioned O) → Identified kind → (before after : O) → Type 0
KeepsIdentifier kind identified before after =
    (identified.id after ≡ identified.id before)
    ⊎ (identified.id after ≡ "")
    ⊎ (condition_ready (kind.conditions after) ≡ true)

module _ {O : Type 0} (kind : Conditioned O) (identified : Identified kind) where
  pub set_status-error :
      (now : ℕ → ℕ) (o : O) (reason text : String)
      → KeepsIdentifier kind identified o
          (set_status kind now (kind.observe o) condition_false reason text)
  unfolding set_status
  set_status-error now o reason text =
      inl (identified.id-with_conditions _ _ ∙ identified.id-observe o)

  pub set_status-missing :
      (now : ℕ → ℕ) (o : O) (reason text : String)
      → KeepsIdentifier kind identified o
          (set_status kind now (kind.observe (kind.forget o)) condition_false reason text)
  unfolding set_status
  set_status-missing now o reason text =
      inr (
        inl
          (identified.id-with_conditions _ _ ∙ (identified.id-observe _ ∙ identified.id-forget o)))

  pub set_status-ready :
      (now : ℕ → ℕ) (before o : O) (reason text : String)
      → KeepsIdentifier kind identified before (set_status kind now o condition_true reason text)
  unfolding set_status
  set_status-ready now before o reason text = inr (
      inr (
        ap condition_ready (identified.conditions-with_conditions _ o)
        ∙ condition_ready-set_condition now (kind.conditions o) _ reason text))
