-- ===== src/Controller/Objects.antt =====
-- What every controller does with its object: finalizers, the status, the start of a reconciliation
-- and the deletion of the external entity.
pub mod Calls
pub mod Deletion
mod Tests
use infisical_entity_operato.Base.{
  ℕ, String, ◌≡◌, Bool, true, false, not, ◌&&◌, ◌||◌, Option, none, some, List, [], ◌∷◌, ◌==◌,
  concat, if◌then◌else◌,
}
use infisical_entity_operato.Result.{Result, ok, err}
use infisical_entity_operato.Failure.{
  Error, is_not_found, is_kube_not_found, retry_for, external_retry,
}
use infisical_entity_operato.Api.{
  ObjectMeta, is_zero_time, DeletionPolicy, deletion_policy_delete, deletion_policy_orphan,
  LocalObjectReference,
}
use infisical_entity_operato.Platform.{Key, Object, Run, Platform}
use infisical_entity_operato.Exec.{
  Exec, Response, pure, raise, lift, check, attempt, or_return, update_object, patch_object_status,
  ◌>>=◌, ◌>>◌,
}
use infisical_entity_operato.Client.{Client}
use infisical_entity_operato.Controller.Policies.{deletion_policy}
use infisical_entity_operato.Controller.Connections.{infisical_client_for_connection}

abbrev pub finalizer_name : String
finalizer_name = "infisical.infisical-operator.io/finalizer"

-- client.Object: what the shared code needs of a resource
pub record Resource (O : Type 0) : Type 0 where
  pub meta : O → ObjectMeta
  pub with_meta : ObjectMeta → O → O
  pub object : O → Object
  pub same : Discrete O

abbrev pub with_finalizers : List String → ObjectMeta → ObjectMeta
with_finalizers fs meta = record meta { finalizers = fs }

abbrev pub error_of : Result Error (Unit {0}) → Option Error
error_of (ok u) = none
error_of (err e) = some e

-- `return ctrl.Result{RequeueAfter: requeue}, m`
unfoldable pub respond : ℕ → Exec Error (Unit {0}) → Exec Response Response
respond requeue m r =
    let (x, r') = m r in (ok (record { requeue_after = requeue; error = error_of x }), r')

abbrev pub done : Response
done = record { requeue_after = 0; error = none }

abbrev pub failed : ℕ → Error → Response
failed requeue e = record { requeue_after = requeue; error = some e }

module _ (platform : Platform) {O : Type 0} (resource : Resource O) where
  unfoldable pub ensure_finalizer : O → Exec Error Bool
  ensure_finalizer o =
      let meta = resource.meta o in
      if platform.contains_finalizer meta.finalizers finalizer_name then pure false else (do
        update_object platform (
            resource.object (
              resource.with_meta
                (with_finalizers (platform.add_finalizer meta.finalizers finalizer_name) meta) o))
        pure true)

  unfoldable pub remove_finalizer : O → Exec Error (Unit {0})
  remove_finalizer o =
      let meta = resource.meta o in
      if not (platform.contains_finalizer meta.finalizers finalizer_name)
      then pure tt
      else update_object platform (
          resource.object (
            resource.with_meta
              (with_finalizers (platform.remove_finalizer meta.finalizers finalizer_name) meta) o))

  patch_if_changed : (object before : O) → Dec (before ≡ object) → Exec Error (Unit {0})
  patch_if_changed object before (yes same) = pure tt
  patch_if_changed object before (no changed) =
      patch_object_status platform (resource.object before) (resource.object object)

  unfoldable pub persist_status : (object before : O) → Exec Error (Unit {0})
  unfolding patch_if_changed
  persist_status object before = patch_if_changed object before (resource.same before object)

  -- The start of each Reconcile: a missing object is done, the finalizer is added where the policy
  -- is Delete, and an object that is being deleted takes the other way.
  module _ (policy : O → DeletionPolicy) (live deletion : O → Exec Response Response) where
    dispatch : O → Bool → Exec Response Response
    dispatch o true = pure done
    dispatch o false =
        if not (is_zero_time (resource.meta o).deletion_timestamp) then deletion o else live o

    unfoldable pub reconcile_object : Exec Error O → Exec Response Response
    unfolding dispatch
    reconcile_object get = do
      o ← or_return get (λ e. pure (if is_kube_not_found e then done else failed 0 e))
      added ←
          (if is_zero_time (resource.meta o).deletion_timestamp
              && deletion_policy (policy o) == deletion_policy_delete
            then or_return (ensure_finalizer o) (λ e. pure (failed 0 e))
            else pure false)
      dispatch o added

  -- The shape of each deletion: `kept` where there is nothing to delete in Infisical. An entity that
  -- is already absent counts as deleted.
  after_delete : O → Result Error (Unit {0}) → Exec Response Response
  after_delete o (ok u) = respond 0 (remove_finalizer o)
  after_delete o (err e) =
      if not (is_not_found e)
      then pure (failed external_retry e)
      else respond 0 (remove_finalizer o)

  unfoldable pub delete_external :
      (kept : Bool) (connection_ref : LocalObjectReference)
      (remove : Client → Exec Error (Unit {0}))
      → O
      → Exec Response Response
  unfolding after_delete
  delete_external kept connection_ref remove o =
      if kept then respond 0 (remove_finalizer o) else (do
        c ←
            or_return
              (infisical_client_for_connection platform (resource.meta o).namespace connection_ref)
              (λ e. pure (failed (retry_for e) e))
        deleted ← attempt (remove c)
        after_delete o deleted)
