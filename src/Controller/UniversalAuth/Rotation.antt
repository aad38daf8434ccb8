-- ===== src/Controller/UniversalAuth/Rotation.antt =====
-- infisicaluniversalauth_controller.go: ensureUniversalAuthClientSecret, with the confirmation and the
-- rotation of a client secret.
pub mod Calls
pub mod Published
pub mod Kept
use infisical_entity_operato.Base.{
  String, Bool, true, false, not, ◌&&◌, ◌||◌, Option, none, some, [], ◌∷◌, ◌==◌, lookup, is_blank,
  if◌then◌else◌,
}
use infisical_entity_operato.Result.{Result, ok, err}
use infisical_entity_operato.Failure.{Error, plain, wrapped, is_not_found, is_kube_not_found}
use infisical_entity_operato.Api.{Secret, InfisicalUniversalAuth}
use infisical_entity_operato.Platform.{Platform}
use infisical_entity_operato.Exec.{
  Exec, pure, raise, check, attempt, or_wrap, read_secret, ◌>>=◌, ◌>>◌,
}
use infisical_entity_operato.Client.{
  Client, create_universal_auth_client_secret, get_universal_auth_client_secret,
  revoke_universal_auth_client_secret,
}
use infisical_entity_operato.Client.Wire.UniversalAuth.{
  UniversalAuthConfig, UniversalAuthClientSecret, CreateUniversalAuthClientSecretRequest,
  CreateUniversalAuthClientSecretResponse,
}
use infisical_entity_operato.Controller.UniversalAuth.Publish.{
  universal_auth_client_secret_id_annotation, universal_auth_secret_key,
  publish_universal_auth_secret,
}
use infisical_entity_operato.Controller.UniversalAuth.Recovery.{
  Failing, Rotation, secret_name, with_client_secret, inspect_published,
}

unfoldable pub client_secret_request :
    InfisicalUniversalAuth → CreateUniversalAuthClientSecretRequest
client_secret_request auth = record {
  description = auth.spec.client_secret.description;
  num_uses_limit = auth.spec.client_secret.num_uses_limit;
  ttl = auth.spec.client_secret.ttl;
}

unfoldable pub wrap_revocation : Error → Error
wrap_revocation e = wrapped "revoke previous Universal Auth client secret: " e

module _ (platform : Platform) (c : Client) where
  -- Infisical still has the client secret, and it is not revoked; or a new one is needed.
  confirmed : Rotation → Result Error UniversalAuthClientSecret → Exec Failing Rotation
  unfolding with_client_secret
  confirmed rotation (err e) =
      if not (is_not_found e)
      then raise (rotation.auth, e)
      else pure (record rotation { needs_rotation = true })
  confirmed rotation (ok metadata) =
      if not metadata.is_client_secret_revoked
      then pure (record rotation { auth = with_client_secret rotation.auth metadata })
      else pure (record rotation { needs_rotation = true })

  unfoldable pub ask_for : UniversalAuthConfig → Rotation → Exec Failing Rotation
  unfolding confirmed
  ask_for config rotation = do
    found ←
        attempt
          (get_universal_auth_client_secret platform c config.identity_id rotation.client_secret_id)
    confirmed rotation found

  unfoldable pub confirm_client_secret : UniversalAuthConfig → Rotation → Exec Failing Rotation
  confirm_client_secret config rotation =
      if not rotation.needs_rotation && not (rotation.client_secret_id == "")
      then ask_for config rotation
      else pure rotation

  -- A client secret that is already gone counts as revoked.
  after_revocation : Result Error (Unit {0}) → Exec Error (Unit {0})
  unfolding wrap_revocation
  after_revocation (ok u) = pure tt
  after_revocation (err e) = if not (is_not_found e) then raise (wrap_revocation e) else pure tt

  unfoldable pub revoke_previous :
      UniversalAuthConfig → (old_id new_id : String) → Exec Error (Unit {0})
  unfolding after_revocation
  revoke_previous config old_id new_id =
      if not (old_id == "") && not (old_id == new_id)
      then (do
        revoked ← attempt (revoke_universal_auth_client_secret platform c config.identity_id old_id)
        after_revocation revoked)
      else pure tt

  unfoldable pub rotated :
      InfisicalUniversalAuth
      → CreateUniversalAuthClientSecretResponse
      → Exec Failing InfisicalUniversalAuth
  rotated auth created r =
      pure
        (record auth {
          status = record auth.status {
            client_secret = record {
              secret_name = secret_name auth;
              client_secret_id = created.client_secret_data.id;
              client_secret_prefix = created.client_secret_data.client_secret_prefix;
              last_rotation_nonce = auth.spec.client_secret.rotation_nonce;
              last_rotated_at = some (platform.now r.calls 0);
            };
          };
        })
        r

  unfoldable pub rotate_client_secret :
      UniversalAuthConfig → InfisicalUniversalAuth → Exec Failing InfisicalUniversalAuth
  rotate_client_secret config auth = do
    created ←
        or_wrap
          (create_universal_auth_client_secret platform c config.identity_id
            (client_secret_request auth))
          (λ e. (auth, e))
    or_wrap
        (publish_universal_auth_secret platform auth created.client_secret config.client_id
          created.client_secret_data.id)
        (λ e. (auth, e))
    or_wrap
        (revoke_previous config auth.status.client_secret.client_secret_id
          created.client_secret_data.id)
        (λ e. (auth, e))
    rotated auth created

  unfoldable pub ensure_universal_auth_client_secret :
      InfisicalUniversalAuth → UniversalAuthConfig → Exec Failing InfisicalUniversalAuth
  ensure_universal_auth_client_secret auth config = do
    check (
        if is_blank (secret_name auth)
        then some (auth, plain "spec.clientSecret.secretRef.name is required")
        else none)
    found ←
        attempt (
          read_secret platform
            (record { namespace = auth.meta.namespace; name = secret_name auth }))
    inspected ← inspect_published platform c auth config found
    rotation ← confirm_client_secret config inspected
    if not rotation.needs_rotation
        then pure rotation.auth
        else rotate_client_secret config rotation.auth
