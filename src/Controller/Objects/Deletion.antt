-- ===== src/Controller/Objects/Deletion.antt =====
-- When an object loses its finalizer, and when it gets it.
use infisical_entity_operato.Base.{
  ◌≡◌, refl, ap, ◌∙◌, ◌⊎◌, inl, inr, Bool, true, false, Bool-cases, Option-cases, Option, ◌∷◌,
  eq_iff, if◌then◌else◌,
}
use infisical_entity_operato.Result.{Result, ok, err}
use infisical_entity_operato.Failure.{Error, is_not_found, external_retry}
use infisical_entity_operato.Api.{
  is_zero_time, DeletionPolicy, deletion_policy_delete, LocalObjectReference,
}
use infisical_entity_operato.Platform.{Object, update, Run, Platform}
use infisical_entity_operato.Exec.{Exec, Response, pure, update_object, or_return, ◌>>=◌}
use infisical_entity_operato.Exec.Emits.{calls-written}
use infisical_entity_operato.Exec.Outcome.{bind_ok, or_return_ok, attempt_run}
use infisical_entity_operato.Client.{Client}
use infisical_entity_operato.Controller.Policies.{deletion_policy}
use infisical_entity_operato.Controller.Connections.{infisical_client_for_connection}
use infisical_entity_operato.Controller.Objects.{
  Resource, finalizer_name, error_of, respond, ensure_finalizer, remove_finalizer, after_delete,
  delete_external, dispatch, reconcile_object,
}

-- The external entity is gone: its deletion succeeded, or it was not there.
abbrev pub is_gone : Result Error (Unit {0}) → Bool
is_gone (ok u) = true
is_gone (err e) = is_not_found e

abbrev pub error_returned : Result Response Response → Option Error
error_returned (ok response) = response.error
error_returned (err response) = response.error

module _ (platform : Platform) {O : Type 0} (resource : Resource O) (o : O) where
  abbrev pub without_finalizer : Object
  without_finalizer =
      let meta = resource.meta o in
      resource.object (
        resource.with_meta
          (record meta { finalizers = platform.remove_finalizer meta.finalizers finalizer_name }) o)

  abbrev pub with_finalizer : Object
  with_finalizer =
      let meta = resource.meta o in
      resource.object (
        resource.with_meta
          (record meta { finalizers = platform.add_finalizer meta.finalizers finalizer_name }) o)

module _ (platform : Platform) {O : Type 0} (resource : Resource O) (ref : LocalObjectReference)
    (remove : Client → Exec Error (Unit {0})) (o : O) (c : Client) (r r1 r2 : Run) where
  answered :
      (x : Result Error (Unit {0}))
      → infisical_client_for_connection platform (resource.meta o).namespace ref r ≡ (ok c, r1)
      → remove c r1 ≡ (x, r2)
      → delete_external platform resource false ref remove o r
        ≡ after_delete platform resource o x r2
  unfolding delete_external
  answered x connect removed =
      bind_ok _ _ c r r1 (or_return_ok _ _ c r r1 connect)
      ∙ bind_ok _ _ x r1 r2 (attempt_run (remove c) x r1 r2 removed)

  -- What remains to be done, by what Infisical has answered
  after :
      (x : Result Error (Unit {0}))
      → after_delete platform resource o x r2 ≡ (
          if is_gone x
          then respond 0 (remove_finalizer platform resource o) r2
          else (ok (record { requeue_after = external_retry; error = error_of x }), r2))
  unfolding after_delete pure
  after (ok u) = refl
  after (err e) = elim (Bool-cases (is_not_found e)) [
    | inl absent ↦ rw absent refl
    | inr other ↦ rw other refl
  ]

  removed_calls :
      platform.contains_finalizer (resource.meta o).finalizers finalizer_name ≡ true
      → (respond 0 (remove_finalizer platform resource o) r2).1.calls
        ≡ update (without_finalizer platform resource o) ∷ r2.calls
  unfolding respond remove_finalizer update_object
  removed_calls has = rw has (calls-written _ _)

  -- The object keeps its finalizer until Infisical has answered: where the client of the connection is
  -- built, and the object has its finalizer, the object without it is written exactly where the request to
  -- remove the entity succeeds or is answered with 404, and nothing else is done; with any other error
  -- nothing is written, and the error is returned.
  pub delete_external-finalizer :
      (x : Result Error (Unit {0}))
      → infisical_client_for_connection platform (resource.meta o).namespace ref r ≡ (ok c, r1)
      → remove c r1 ≡ (x, r2)
      → platform.contains_finalizer (resource.meta o).finalizers finalizer_name ≡ true
      → let ended = delete_external platform resource false ref remove o r in
        ((is_gone x ≡ true)
          × (ended.1.calls ≡ update (without_finalizer platform resource o) ∷ r2.calls))
        ⊎ ((is_gone x ≡ false) × (ended.1.calls ≡ r2.calls) × (error_returned ended.0 ≡ error_of x))
  delete_external-finalizer x connect removed has =
      let ends = answered x connect removed ∙ after x in
      elim (Bool-cases (is_gone x)) [
        | inl gone ↦ inl (gone, ap (λ p. p.1.calls) ends ∙ rw gone (removed_calls has))
        | inr there ↦ inr (
          there,
          ap (λ p. p.1.calls) ends ∙ rw there refl,
          ap (λ p. error_returned p.0) ends ∙ rw there refl,
        )
      ]

module _ (platform : Platform) {O : Type 0} (resource : Resource O) (policy : O → DeletionPolicy)
    (live deletion : O → Exec Response Response) (get : Exec Error O) (o : O) (r r1 : Run)
    (got : get r ≡ (ok o, r1)) (alive : is_zero_time (resource.meta o).deletion_timestamp ≡ true)
    (delete : deletion_policy (policy o) ≡ deletion_policy_delete)
    (bare : platform.contains_finalizer (resource.meta o).finalizers finalizer_name ≡ false) where
  -- An object that is not being deleted, has the policy Delete and does not have its finalizer is written
  -- with it, and nothing else is done in that reconciliation, whether the write succeeds or not.
  pub reconcile_object-finalizer :
      (reconcile_object platform resource policy live deletion get r).1.calls
      ≡ update (with_finalizer platform resource o) ∷ r1.calls
  unfolding reconcile_object dispatch ensure_finalizer update_object pure or_return ◌>>=◌
  reconcile_object-finalizer = rw got (
      rw alive (
        rw ((eq_iff _ _).1 delete) (
          rw bare
            (elim (Option-cases
              (platform.write (update (with_finalizer platform resource o) ∷ r1.calls))) [
                | inl is ↦ rw is refl
                | inr (e, is) ↦ rw is refl
              ]))))
