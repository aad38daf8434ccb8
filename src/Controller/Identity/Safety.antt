-- ===== src/Controller/Identity/Safety.antt =====
-- What a reconciliation of an identity never does, and when it records the Infisical identifier.
use infisical_entity_operato.Base.{◌≡◌, refl, ◌⊎◌, inl, inr, true, All, eq_iff}
use infisical_entity_operato.Api.{InfisicalIdentity, deletion_policy_orphan}
use infisical_entity_operato.Platform.{Object, Call, patch_status, Run, Platform}
use infisical_entity_operato.Controller.Calls.{
  NotDelete, NotHttp, Permits-get, Permits-post, Permits-patch, Reads_NotDelete, Reads_NotHttp,
}
use infisical_entity_operato.Controller.Conditions.{condition_ready}
use infisical_entity_operato.Controller.Conditions.Table.{condition_ready-set_condition}
use infisical_entity_operato.Controller.Policies.{deletion_policy, kept_by_policy}
use infisical_entity_operato.Controller.Objects.Calls.{Updates, Emits-delete_external}
use infisical_entity_operato.Controller.Identity.State.{
  identity_resource, with_condition, observed_now,
}
use infisical_entity_operato.Controller.Identity.State.Calls.{StatusWrites}
use infisical_entity_operato.Controller.Identity.Reconcile.{
  reconcile_identity, reconcile_identity_deletion, delete_remote_identity,
}
use infisical_entity_operato.Controller.Identity.Reconcile.Calls.{Emits-reconcile_identity}

writes_NotDelete : StatusWrites NotDelete
writes_NotDelete = record {
  on_error = λ now i reason message. tt;
  on_missing = λ now i reason message. tt;
  on_ready = λ now before i reason message. tt;
}

-- Reconciling an identity that is not being deleted sends no DELETE request, if none was sent before,
-- whatever Kubernetes and Infisical answer.
pub reconcile_identity-NotDelete :
    (platform : Platform) (identity : InfisicalIdentity) (r : Run)
    → All NotDelete r.calls
    → All NotDelete (reconcile_identity platform identity r).1.calls
reconcile_identity-NotDelete platform identity r h =
    (Emits-reconcile_identity platform writes_NotDelete Reads_NotDelete Permits-post Permits-get
        Permits-patch identity).at
      r h

-- A patch that brings an identifier into the status also makes the identity ready.
abbrev pub RecordsWhenReady : Call → Type 0
RecordsWhenReady (patch_status (Object.identity before) (Object.identity after)) =
    (after.status.identity_id ≡ before.status.identity_id)
    ⊎ (after.status.identity_id ≡ "")
    ⊎ (condition_ready after.status.conditions ≡ true)
RecordsWhenReady _ = Unit

writes_RecordsWhenReady : StatusWrites RecordsWhenReady
unfolding with_condition observed_now
writes_RecordsWhenReady = record {
  on_error = λ now i reason message. inl refl;
  on_missing = λ now i reason message. inr (inl refl);
  on_ready = λ now before i reason message. inr (
      inr (condition_ready-set_condition now i.status.conditions i.meta.generation reason message));
}

-- Each status patch of a reconciliation of an identity keeps the identifier that the status had, clears
-- it, or leaves the condition Ready true, if that holds of the calls made before.
pub reconcile_identity-RecordsWhenReady :
    (platform : Platform) (identity : InfisicalIdentity) (r : Run)
    → All RecordsWhenReady r.calls
    → All RecordsWhenReady (reconcile_identity platform identity r).1.calls
reconcile_identity-RecordsWhenReady platform identity r h =
    (Emits-reconcile_identity platform writes_RecordsWhenReady (record { at = λ kind k. tt })
        (record { at = λ request e. tt }) (record { at = λ request e. tt })
        (record { at = λ request e. tt }) identity).at
      r h

Updates-NotHttp : (i : InfisicalIdentity) → Updates NotHttp identity_resource i
unfolding identity_resource
Updates-NotHttp i = record { at = λ fs. tt }

-- With the deletion policy Orphan, or none, the deletion of an identity sends nothing to Infisical, if
-- nothing was sent before.
pub orphan-NotHttp :
    (platform : Platform) (identity : InfisicalIdentity) (r : Run)
    → deletion_policy identity.spec.deletion_policy ≡ deletion_policy_orphan
    → All NotHttp r.calls
    → All NotHttp (reconcile_identity_deletion platform identity r).1.calls
unfolding reconcile_identity_deletion
orphan-NotHttp platform identity r policy h =
    (Emits-delete_external platform identity_resource identity (Updates-NotHttp identity) _
        identity.spec.connection_ref (delete_remote_identity platform identity) Reads_NotHttp
        (λ kept c. absurd (kept_by_policy _ _ ((eq_iff _ _).1 policy) kept))).at
      r h
