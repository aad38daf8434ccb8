-- ===== src/Controller/Objects/Calls.antt =====
-- The calls that the shared code of the controllers makes: updates and status patches of the object.
use infisical_entity_operato.Base.{ℕ, String, ◌≡◌, refl, Bool, true, false, List}
use infisical_entity_operato.Result.{Result, ok, err}
use infisical_entity_operato.Failure.{Error}
use infisical_entity_operato.Platform.{Call, update, patch_status, Platform}
use infisical_entity_operato.Exec.{Exec, Response}
use infisical_entity_operato.Exec.Emits.{Reads, Emits, emits_rules}
use infisical_entity_operato.Client.{Client}
use infisical_entity_operato.Api.{DeletionPolicy, LocalObjectReference}
use infisical_entity_operato.Controller.Connections.Calls.{Emits-infisical_client_for_connection}
use infisical_entity_operato.Controller.Objects.{
  Resource, with_finalizers, respond, patch_if_changed, persist_status, ensure_finalizer,
  remove_finalizer, dispatch, reconcile_object, after_delete, delete_external,
}

module _ {Q : Call → Type 0} where
  pub Emits-respond :
      (requeue : ℕ) (m : Exec Error (Unit {0})) → Emits Q m → Emits Q (respond requeue m)
  unfolding respond
  Emits-respond requeue m km = record { at = λ r h. km.at r h }

-- The object may be written back with any finalizers.
pub record Updates (Q : Call → Type 0) {O : Type 0} (resource : Resource O) (o : O) : Type 0 where
  pub at :
      (fs : List String)
      → Q (update (resource.object (resource.with_meta (with_finalizers fs (resource.meta o)) o)))

module _ (platform : Platform) {Q : Call → Type 0} {O : Type 0} (resource : Resource O) where
  Emits-patch_if_changed :
      (object before : O) (d : Dec (before ≡ object))
      → Q (patch_status (resource.object before) (resource.object object))
      → Emits Q (patch_if_changed platform resource object before d)
  unfolding patch_if_changed
  Emits-patch_if_changed object before (yes same) q = search emits_rules
  Emits-patch_if_changed object before (no changed) q = search emits_rules

  pub Emits-persist_status :
      (object before : O)
      → Q (patch_status (resource.object before) (resource.object object))
      → Emits Q (persist_status platform resource object before)
  unfolding persist_status
  Emits-persist_status object before q = Emits-patch_if_changed object before _ q

  pub Emits-ensure_finalizer :
      (o : O) → Updates Q resource o → Emits Q (ensure_finalizer platform resource o)
  unfolding ensure_finalizer
  Emits-ensure_finalizer o u = search (emits_rules, u.at)

  pub Emits-remove_finalizer :
      (o : O) → Updates Q resource o → Emits Q (remove_finalizer platform resource o)
  unfolding remove_finalizer
  Emits-remove_finalizer o u = search (emits_rules, u.at)

  module _ (policy : O → DeletionPolicy) (live deletion : O → Exec Response Response)
      (updates : (o : O) → Updates Q resource o) (live_Emits : (o : O) → Emits Q (live o))
      (deletion_Emits : (o : O) → Emits Q (deletion o)) where
    Emits-dispatch :
        (o : O) (added : Bool) → Emits Q (dispatch platform resource policy live deletion o added)
    unfolding dispatch
    Emits-dispatch o true = search emits_rules
    Emits-dispatch o false = search (emits_rules, live_Emits, deletion_Emits)

    pub Emits-reconcile_object :
        (get : Exec Error O)
        → Emits Q get
        → Emits Q (reconcile_object platform resource policy live deletion get)
    unfolding reconcile_object
    Emits-reconcile_object get g =
        search (emits_rules, Emits-ensure_finalizer, updates, Emits-dispatch) depth 9

  module _ (o : O) (updates : Updates Q resource o) where
    Emits-after_delete :
        (found : Result Error (Unit {0})) → Emits Q (after_delete platform resource o found)
    unfolding after_delete
    Emits-after_delete (ok u) = search (emits_rules, Emits-respond, Emits-remove_finalizer)
    Emits-after_delete (err e) = search (emits_rules, Emits-respond, Emits-remove_finalizer)

    -- The requests are those of the removal, and there are none for an entity that is kept.
    pub Emits-delete_external :
        (kept : Bool) (connection_ref : LocalObjectReference)
        (remove : Client → Exec Error (Unit {0}))
        → Reads Q
        → (kept ≡ false → (c : Client) → Emits Q (remove c))
        → Emits Q (delete_external platform resource kept connection_ref remove o)
    unfolding delete_external
    Emits-delete_external true connection_ref remove reads k =
        search (emits_rules, Emits-respond, Emits-remove_finalizer)
    Emits-delete_external false connection_ref remove reads k =
        search (emits_rules, Emits-infisical_client_for_connection, Emits-after_delete, k refl)
