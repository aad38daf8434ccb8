-- ===== src/Controller/UniversalAuth/Calls.antt =====
-- The calls of a reconciliation of Universal Auth.
use infisical_entity_operato.Base.{ℕ, String}
use infisical_entity_operato.Result.{Result, ok, err}
use infisical_entity_operato.Failure.{Error}
use infisical_entity_operato.Api.{Secret, InfisicalUniversalAuth, condition_true, condition_false}
use infisical_entity_operato.Platform.{Method, Call, Object, patch_status, Platform}
use infisical_entity_operato.Exec.Emits.{Permits, Reads, Emits, emits_rules, Emits-bind_or_return}
use infisical_entity_operato.Client.{Client}
use infisical_entity_operato.Client.UniversalAuth.Calls.{
  Emits-get_universal_auth, Emits-attach_universal_auth, Emits-update_universal_auth,
}
use infisical_entity_operato.Client.Wire.UniversalAuth.{UniversalAuthConfig}
use infisical_entity_operato.Controller.Connections.Calls.{Emits-infisical_client_for_connection}
use infisical_entity_operato.Controller.Objects.Calls.{Emits-respond, Emits-persist_status}
use infisical_entity_operato.Controller.Status.{set_status, status_error, status_ready}
use infisical_entity_operato.Controller.UniversalAuth.Rotation.{ensure_universal_auth_client_secret}
use infisical_entity_operato.Controller.UniversalAuth.{
  universal_auth_error, universal_auth_missing, universal_auth_identity, adopt_found, adopt_step,
  create_missing, create_step, read_step, update_step, reconcile_universal_auth,
}
use infisical_entity_operato.Controller.UniversalAuth.State.{
  clear_universal_auth_status, universal_auth_resource, universal_auth_status,
}
use infisical_entity_operato.Controller.UniversalAuth.Rotation.Published.{
  NamesSecret, NamesSecret-self, ensure_universal_auth_client_secret-NamesSecret,
}
use infisical_entity_operato.Exec.{or_return, ◌>>=◌}
use infisical_entity_operato.Controller.UniversalAuth.Publish.Calls.{MayStore}
use infisical_entity_operato.Controller.UniversalAuth.Rotation.Calls.{
  Emits-ensure_universal_auth_client_secret,
}

-- The patches of the status, and what is stored
pub record Writes (Q : Call → Type 0) : Type 0 where
  pub on_error :
      (now : ℕ → ℕ) (a : InfisicalUniversalAuth) (reason text : String)
      → Q (
          patch_status (Object.universal_auth a) (
            Object.universal_auth (
              set_status universal_auth_status now
                (universal_auth_status.observe a)
                condition_false
                reason
                text)))
  pub on_cleared :
      (now : ℕ → ℕ) (a : InfisicalUniversalAuth) (reason text : String)
      → Q (
          patch_status (Object.universal_auth a) (
            Object.universal_auth (
              set_status universal_auth_status now
                (clear_universal_auth_status a)
                condition_false
                reason
                text)))
  pub on_ready :
      (now : ℕ → ℕ) (before a : InfisicalUniversalAuth) (text : String)
      → NamesSecret a a
      → Q (
          patch_status (Object.universal_auth before) (
            Object.universal_auth
              (set_status universal_auth_status now a condition_true "Ready" text)))
  pub store : (secret : Secret) → MayStore Q secret

module _ (platform : Platform) {Q : Call → Type 0} (writes : Writes Q) (reads : Reads Q)
    (login : Permits Q Method.post) (gets : Permits Q Method.get)
    (patches : Permits Q Method.patch) where
  Emits-universal_auth_error :
      (a : InfisicalUniversalAuth) (reason : String) (e : Error)
      → Emits Q (universal_auth_error platform a reason e)
  unfolding universal_auth_error status_error universal_auth_status universal_auth_resource
  Emits-universal_auth_error a reason e = record {
    at = λ r h.
        (Emits-respond _ _ (
            Emits-persist_status platform universal_auth_resource _ a
              (writes.on_error _ a reason _))).at
          r h;
  }

  Emits-universal_auth_missing :
      (a : InfisicalUniversalAuth) → Emits Q (universal_auth_missing platform a)
  unfolding universal_auth_missing universal_auth_resource
  Emits-universal_auth_missing a = record {
    at = λ r h.
        (Emits-respond _ _ (
            Emits-persist_status platform universal_auth_resource _ a
              (writes.on_cleared _ a _ _))).at
          r h;
  }

  Emits-universal_auth_identity :
      (a : InfisicalUniversalAuth) → Emits Q (universal_auth_identity platform a)
  unfolding universal_auth_identity
  Emits-universal_auth_identity a = search emits_rules

  module _ (c : Client) (identity_id : String) where
    Emits-adopt_found :
        (a : InfisicalUniversalAuth) (found : Result Error UniversalAuthConfig)
        → Emits Q (adopt_found platform c identity_id a found)
    unfolding adopt_found
    Emits-adopt_found a (ok adopted) = search (emits_rules, Emits-universal_auth_error) depth 9
    Emits-adopt_found a (err failure) = search (emits_rules, Emits-universal_auth_error) depth 9

    Emits-adopt_step : (a : InfisicalUniversalAuth) → Emits Q (adopt_step platform c identity_id a)
    unfolding adopt_step
    Emits-adopt_step a = search (emits_rules, Emits-get_universal_auth, Emits-adopt_found)

    Emits-create_missing :
        (a : InfisicalUniversalAuth) → Emits Q (create_missing platform c identity_id a)
    unfolding create_missing
    Emits-create_missing a =
        search (emits_rules, Emits-attach_universal_auth, Emits-universal_auth_error) depth 12

    Emits-create_step :
        (a : InfisicalUniversalAuth) → Emits Q (create_step platform c identity_id a)
    unfolding create_step
    Emits-create_step a = search (emits_rules, Emits-create_missing)

    Emits-read_step : (a : InfisicalUniversalAuth) → Emits Q (read_step platform c identity_id a)
    unfolding read_step
    Emits-read_step a =
        search
          (
            emits_rules, Emits-get_universal_auth, Emits-universal_auth_missing,
            Emits-universal_auth_error,
          )
          depth 9

    Emits-update_step :
        (a : InfisicalUniversalAuth) (current : UniversalAuthConfig)
        → Emits Q (update_step platform c identity_id a current)
    unfolding update_step
    Emits-update_step a current =
        search (emits_rules, Emits-update_universal_auth, Emits-universal_auth_error) depth 9

  Emits-ensure :
      (c : Client) (a : InfisicalUniversalAuth) (config : UniversalAuthConfig)
      → Emits Q (ensure_universal_auth_client_secret platform c a config)
  Emits-ensure c a config =
      Emits-ensure_universal_auth_client_secret platform reads login gets c writes.store a config

  Emits-ready :
      (before a : InfisicalUniversalAuth) (text : String)
      → NamesSecret a a
      → Emits Q (status_ready platform universal_auth_status before a text)
  unfolding status_ready universal_auth_status universal_auth_resource
  Emits-ready before a text is = record {
    at = λ r h.
        (Emits-respond _ _ (
            Emits-persist_status platform universal_auth_resource _ before
              (writes.on_ready _ before a _ is))).at
          r h;
  }

  -- The object that is ready came of ensureUniversalAuthClientSecret.
  Emits-finish :
      (c : Client) (before a : InfisicalUniversalAuth) (config : UniversalAuthConfig)
      (text : String)
      → Emits Q (
          or_return
            (ensure_universal_auth_client_secret platform c a config)
            (λ failure. universal_auth_error platform failure.0 "ClientSecretNotReady" failure.1)
          >>= λ published. status_ready platform universal_auth_status before published text)
  Emits-finish c before a config text =
      Emits-bind_or_return _ _ _ (Emits-ensure c a config)
        (λ failure. Emits-universal_auth_error failure.0 "ClientSecretNotReady" failure.1)
        (λ published r r1 ensured. Emits-ready before published text (
          NamesSecret-self a published (
            (ensure_universal_auth_client_secret-NamesSecret platform c a published config r r1
              ensured).0)))

  pub Emits-reconcile_universal_auth :
      (a : InfisicalUniversalAuth) → Emits Q (reconcile_universal_auth platform a)
  unfolding reconcile_universal_auth
  Emits-reconcile_universal_auth a =
      search
        (
          emits_rules, Emits-universal_auth_identity, Emits-infisical_client_for_connection,
          Emits-adopt_step, Emits-create_step, Emits-read_step, Emits-update_step, Emits-finish,
          Emits-universal_auth_error,
        )
        depth 24
