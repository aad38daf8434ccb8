-- ===== src/Controller/UniversalAuth/Rotation/Calls.antt =====
-- The calls that keep a client secret published.
use infisical_entity_operato.Base.{String}
use infisical_entity_operato.Result.{Result, ok, err}
use infisical_entity_operato.Failure.{Error}
use infisical_entity_operato.Api.{Secret, InfisicalUniversalAuth}
use infisical_entity_operato.Platform.{Method, Call, Platform}
use infisical_entity_operato.Exec.Emits.{Permits, Reads, Emits, Emits-pure, emits_rules}
use infisical_entity_operato.Client.{Client}
use infisical_entity_operato.Client.UniversalAuth.Calls.{
  Emits-create_universal_auth_client_secret, Emits-get_universal_auth_client_secret,
  Emits-revoke_universal_auth_client_secret,
}
use infisical_entity_operato.Client.Wire.UniversalAuth.{
  UniversalAuthConfig, UniversalAuthClientSecret, CreateUniversalAuthClientSecretResponse,
}
use infisical_entity_operato.Controller.UniversalAuth.Recovery.{
  Rotation, recover_by_id, recover_client_secret, inspect_published,
}
use infisical_entity_operato.Controller.UniversalAuth.Rotation.{
  ask_for, confirmed, confirm_client_secret, after_revocation, revoke_previous, rotated,
  rotate_client_secret, ensure_universal_auth_client_secret,
}
use infisical_entity_operato.Controller.UniversalAuth.Publish.Calls.{
  MayStore, Emits-publish_universal_auth_secret,
}

module _ (platform : Platform) {Q : Call → Type 0} (reads : Reads Q) (login : Permits Q Method.post)
    (gets : Permits Q Method.get) (c : Client) where
  module _ (a : InfisicalUniversalAuth) (config : UniversalAuthConfig) where
    Emits-recover_client_secret :
        (published : Secret) → Emits Q (recover_client_secret platform c a config published)
    unfolding recover_client_secret recover_by_id
    Emits-recover_client_secret published =
        search (emits_rules, Emits-get_universal_auth_client_secret)

    Emits-inspect_published :
        (found : Result Error Secret) → Emits Q (inspect_published platform c a config found)
    unfolding inspect_published
    Emits-inspect_published (ok published) = search (emits_rules, Emits-recover_client_secret)
    Emits-inspect_published (err e) = search emits_rules

  Emits-confirmed :
      (rotation : Rotation) (found : Result Error UniversalAuthClientSecret)
      → Emits Q (confirmed platform c rotation found)
  unfolding confirmed
  Emits-confirmed rotation (ok metadata) = search emits_rules
  Emits-confirmed rotation (err e) = search emits_rules

  Emits-confirm_client_secret :
      (config : UniversalAuthConfig) (rotation : Rotation)
      → Emits Q (confirm_client_secret platform c config rotation)
  unfolding confirm_client_secret ask_for
  Emits-confirm_client_secret config rotation =
      search (emits_rules, Emits-get_universal_auth_client_secret, Emits-confirmed)

  Emits-after_revocation :
      (revoked : Result Error (Unit {0})) → Emits Q (after_revocation platform c revoked)
  unfolding after_revocation
  Emits-after_revocation (ok u) = search emits_rules
  Emits-after_revocation (err e) = search emits_rules

  Emits-revoke_previous :
      (config : UniversalAuthConfig) (old_id new_id : String)
      → Emits Q (revoke_previous platform c config old_id new_id)
  unfolding revoke_previous
  Emits-revoke_previous config old_id new_id =
      search (emits_rules, Emits-revoke_universal_auth_client_secret, Emits-after_revocation)

  Emits-rotated :
      (a : InfisicalUniversalAuth) (created : CreateUniversalAuthClientSecretResponse)
      → Emits Q (rotated platform c a created)
  unfolding rotated
  Emits-rotated a created = record { at = λ r h. (Emits-pure _).at r h }

  module _ (store : (secret : Secret) → MayStore Q secret) where
    Emits-rotate_client_secret :
        (config : UniversalAuthConfig) (a : InfisicalUniversalAuth)
        → Emits Q (rotate_client_secret platform c config a)
    unfolding rotate_client_secret
    Emits-rotate_client_secret config a =
        let publish = λ (client_secret client_id client_secret_id : String).
          Emits-publish_universal_auth_secret platform reads a client_secret client_id
            client_secret_id (λ secret owned is. store owned) in
        search
          (
            emits_rules, Emits-create_universal_auth_client_secret, publish, Emits-revoke_previous,
            Emits-rotated,
          )
          depth 12

    pub Emits-ensure_universal_auth_client_secret :
        (a : InfisicalUniversalAuth) (config : UniversalAuthConfig)
        → Emits Q (ensure_universal_auth_client_secret platform c a config)
    unfolding ensure_universal_auth_client_secret
    Emits-ensure_universal_auth_client_secret a config =
        search
          (
            emits_rules, Emits-inspect_published, Emits-confirm_client_secret,
            Emits-rotate_client_secret,
          )
          depth 12
