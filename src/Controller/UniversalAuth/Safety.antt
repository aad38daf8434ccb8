-- ===== src/Controller/UniversalAuth/Safety.antt =====
-- What a reconciliation of Universal Auth never does, and when it records the identifier.
use infisical_entity_operato.Base.{
  ℕ, String, ◌≡◌, ◌≢◌, refl, sym, ap, ◌∙◌, inl, inr, All, eq_iff, arith, List, some,
}
use infisical_entity_operato.Api.{
  Condition, InfisicalUniversalAuth, deletion_policy_orphan, condition_true, condition_false,
}
use infisical_entity_operato.Controller.Conditions.{ready_condition, set_condition}
use infisical_entity_operato.Controller.Conditions.Laws.{get}
use infisical_entity_operato.Controller.Conditions.Table.{set_condition-Reports}
use infisical_entity_operato.Controller.UniversalAuth.Rotation.Published.{NamesSecret}
use infisical_entity_operato.Platform.{Object, Call, patch_status, Run, Platform}
use infisical_entity_operato.Controller.Calls.{
  NotDelete, NotHttp, Permits-get, Permits-post, Permits-patch, Reads_NotDelete, Reads_NotHttp,
}
use infisical_entity_operato.Controller.Policies.{deletion_policy, kept_by_policy}
use infisical_entity_operato.Controller.Objects.Calls.{Updates, Emits-delete_external}
use infisical_entity_operato.Controller.Status.{set_status}
use infisical_entity_operato.Controller.Status.Calls.{
  Identified, KeepsIdentifier, set_status-error, set_status-ready,
}
use infisical_entity_operato.Controller.UniversalAuth.{
  reconcile_universal_auth, reconcile_universal_auth_deletion,
}
use infisical_entity_operato.Controller.UniversalAuth.State.{
  universal_auth_resource, universal_auth_status, clear_universal_auth_status,
}
use infisical_entity_operato.Controller.UniversalAuth.Calls.{Writes, Emits-reconcile_universal_auth}

abbrev pub universal_auth_identified : Identified universal_auth_status
unfolding universal_auth_status clear_universal_auth_status
universal_auth_identified = record {
  id = λ o. o.status.auth_id;
  id-with_conditions = λ cs o. refl;
  id-observe = λ o. refl;
  id-forget = λ o. refl;
  conditions-with_conditions = λ cs o. refl;
}

-- A status patch that records an identifier leaves the auth method ready.
abbrev pub Records : Call → Type 0
Records (patch_status (Object.universal_auth before) (Object.universal_auth after)) =
    KeepsIdentifier universal_auth_status universal_auth_identified before after
Records _ = Unit

writes_Records : Writes Records
unfolding universal_auth_status universal_auth_resource clear_universal_auth_status set_status
writes_Records = record {
  on_error = set_status-error universal_auth_status universal_auth_identified;
  on_ready = λ now before a text is.
      set_status-ready universal_auth_status universal_auth_identified now before a "Ready" text;
  on_cleared = λ now a reason text. inr (inl refl);
  store = λ secret. (tt, tt);
}

writes_NotDelete : Writes NotDelete
writes_NotDelete = record {
  on_error = λ now a reason text. tt;
  on_ready = λ now before a text is. tt;
  on_cleared = λ now a reason text. tt;
  store = λ secret. (tt, tt);
}

-- Each status patch of a reconciliation keeps the identifier of the auth method, clears it, or goes
-- with the condition Ready, if that holds of the calls made before.
pub reconcile_universal_auth-Records :
    (platform : Platform) (auth : InfisicalUniversalAuth) (r : Run)
    → All Records r.calls
    → All Records (reconcile_universal_auth platform auth r).1.calls
reconcile_universal_auth-Records platform auth r h =
    (Emits-reconcile_universal_auth platform writes_Records (record { at = λ kind k. tt })
        (record { at = λ request e. tt }) (record { at = λ request e. tt })
        (record { at = λ request e. tt }) auth).at
      r h

-- Reconciling Universal Auth that is not being deleted sends no DELETE request, if none was sent before,
-- whatever Kubernetes and Infisical answer.
pub reconcile_universal_auth-NotDelete :
    (platform : Platform) (auth : InfisicalUniversalAuth) (r : Run)
    → All NotDelete r.calls
    → All NotDelete (reconcile_universal_auth platform auth r).1.calls
reconcile_universal_auth-NotDelete platform auth r h =
    (Emits-reconcile_universal_auth platform writes_NotDelete Reads_NotDelete Permits-post
        Permits-get Permits-patch auth).at
      r h

Updates-NotHttp : (o : InfisicalUniversalAuth) → Updates NotHttp universal_auth_resource o
unfolding universal_auth_resource
Updates-NotHttp o = record { at = λ fs. tt }

-- With the deletion policy Orphan, or none, the deletion of Universal Auth sends nothing to Infisical, if
-- nothing was sent before.
pub reconcile_universal_auth_deletion-NotHttp :
    (platform : Platform) (auth : InfisicalUniversalAuth) (r : Run)
    → deletion_policy auth.spec.deletion_policy ≡ deletion_policy_orphan
    → All NotHttp r.calls
    → All NotHttp (reconcile_universal_auth_deletion platform auth r).1.calls
unfolding reconcile_universal_auth_deletion
reconcile_universal_auth_deletion-NotHttp platform auth r policy h =
    (Emits-delete_external platform universal_auth_resource auth (Updates-NotHttp auth) _
        auth.spec.connection_ref _ Reads_NotHttp
        (λ kept c. absurd (kept_by_policy _ _ ((eq_iff _ _).1 policy) kept))).at
      r h

-- The first condition Ready of the status is True.
abbrev pub IsReady : InfisicalUniversalAuth → Type 0
IsReady a =
    (c : Condition) × (get ready_condition a.status.conditions ≡ some c)
    × (c.status ≡ condition_true)

-- A status patch that leaves Universal Auth ready names a client secret, the Secret of the
-- specification, and its rotation nonce.
abbrev pub NamesSecretWhenReady : Call → Type 0
NamesSecretWhenReady (patch_status before (Object.universal_auth after)) =
    IsReady after → NamesSecret after after
NamesSecretWhenReady _ = Unit

-- setCondition with the status False leaves nothing ready.
not_ready :
    (now : ℕ → ℕ) (cs : List Condition) (g : ℕ) (reason text : String) (c : Condition)
    → get ready_condition (set_condition now cs g condition_false reason text) ≡ some c
    → c.status ≡ condition_true
    → ⊥
not_ready now cs g reason text c at is =
    let shown = set_condition-Reports g condition_false reason text now cs in
    let says : shown.ready.status ≡ condition_false = shown.says.status in
    let same : shown.ready ≡ c = cc (shown.at_ready, at) in
    true_not_false (sym is ∙ ap (λ x. x.status) (sym same) ∙ says)
  where
    true_not_false : condition_true ≢ condition_false
    true_not_false e = ground (arith, (eq_iff condition_true condition_false).1 e)

writes_NamesSecretWhenReady : Writes NamesSecretWhenReady
unfolding universal_auth_status universal_auth_resource clear_universal_auth_status set_status
writes_NamesSecretWhenReady = record {
  on_error = λ now a reason text (c, at, is). absurd (not_ready now _ _ reason text c at is);
  on_cleared = λ now a reason text (c, at, is). absurd (not_ready now _ _ reason text c at is);
  on_ready = λ now before a text published ready. with_conditions a published _;
  store = λ secret. (tt, tt);
}
  where
    with_conditions :
        (a : InfisicalUniversalAuth)
        → NamesSecret a a
        → (cs : List Condition)
        → NamesSecret
            (record a { status = record a.status { conditions = cs } })
            (record a { status = record a.status { conditions = cs } })
    with_conditions a published cs = record {
      same_spec = refl;
      has_id = published.has_id;
      named = published.named;
      nonce = published.nonce;
    }

-- Whatever Kubernetes and Infisical answer, each status patch of a reconciliation that leaves Universal
-- Auth ready names a client secret, the Secret of the specification, and its rotation nonce, if that holds
-- of the calls made before.
pub reconcile_universal_auth-NamesSecretWhenReady :
    (platform : Platform) (auth : InfisicalUniversalAuth) (r : Run)
    → All NamesSecretWhenReady r.calls
    → All NamesSecretWhenReady (reconcile_universal_auth platform auth r).1.calls
reconcile_universal_auth-NamesSecretWhenReady platform auth r h =
    (Emits-reconcile_universal_auth platform writes_NamesSecretWhenReady
        (record { at = λ kind k. tt }) (record { at = λ request e. tt })
        (record { at = λ request e. tt }) (record { at = λ request e. tt }) auth).at
      r h
