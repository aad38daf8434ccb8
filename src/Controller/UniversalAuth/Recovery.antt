-- ===== src/Controller/UniversalAuth/Recovery.antt =====
-- infisicaluniversalauth_controller.go: the first half of ensureUniversalAuthClientSecret, up to the client
-- secret that the published Secret names. An error goes with the object as it is by then, since the caller
-- reports it on that.
pub mod Consistent
use infisical_entity_operato.Base.{
  String, Bool, true, false, not, ◌&&◌, ◌||◌, Option, none, some, [], ◌∷◌, ◌==◌, lookup, is_blank,
  if◌then◌else◌,
}
use infisical_entity_operato.Result.{Result, ok, err}
use infisical_entity_operato.Failure.{Error, plain, wrapped, is_not_found, is_kube_not_found}
use infisical_entity_operato.Api.{Secret, InfisicalUniversalAuth}
use infisical_entity_operato.Platform.{Platform}
use infisical_entity_operato.Exec.{
  Exec, pure, raise, check, attempt, or_wrap, read_secret, ◌>>=◌, ◌>>◌,
}
use infisical_entity_operato.Client.{
  Client, create_universal_auth_client_secret, get_universal_auth_client_secret,
  revoke_universal_auth_client_secret,
}
use infisical_entity_operato.Client.Wire.UniversalAuth.{
  UniversalAuthConfig, UniversalAuthClientSecret, CreateUniversalAuthClientSecretRequest,
  CreateUniversalAuthClientSecretResponse,
}
use infisical_entity_operato.Controller.UniversalAuth.Publish.{
  universal_auth_client_secret_id_annotation, universal_auth_secret_key,
  publish_universal_auth_secret,
}

-- What an error is reported on
abbrev pub Failing : Type 0
Failing = InfisicalUniversalAuth × Error

-- The variables clientSecretID and needsRotation, and the object
pub record Rotation : Type 0 where
  pub client_secret_id : String
  pub needs_rotation : Bool
  pub auth : InfisicalUniversalAuth

abbrev text_or_empty : Option String → String
text_or_empty none = ""
text_or_empty (some s) = s

abbrev has_value : Option String → Bool
has_value none = false
has_value (some s) = not (s == "")

abbrev pub secret_name : InfisicalUniversalAuth → String
secret_name auth = auth.spec.client_secret.secret_ref.name

-- The status names the client secret, and the Secret of the specification.
unfoldable pub with_client_secret :
    InfisicalUniversalAuth → UniversalAuthClientSecret → InfisicalUniversalAuth
with_client_secret auth metadata = record auth {
  status = record auth.status {
    client_secret = record auth.status.client_secret {
      secret_name = secret_name auth;
      client_secret_id = metadata.id;
      client_secret_prefix = metadata.client_secret_prefix;
    };
  };
}

abbrev with_nonce : InfisicalUniversalAuth → InfisicalUniversalAuth
with_nonce auth = record auth {
  status = record auth.status {
    client_secret = record auth.status.client_secret {
      last_rotation_nonce = auth.spec.client_secret.rotation_nonce;
    };
  };
}

unfoldable pub needs_rotation_at_first : InfisicalUniversalAuth → Bool
needs_rotation_at_first auth =
    auth.status.client_secret.client_secret_id == ""
    || not (auth.status.client_secret.last_rotation_nonce == auth.spec.client_secret.rotation_nonce)

-- No client secret was confirmed so far.
abbrev pub at_first : InfisicalUniversalAuth → (client_secret_id : String) → Rotation
at_first auth id = record {
  client_secret_id = id;
  needs_rotation = needs_rotation_at_first auth;
  auth = auth;
}

module _ (platform : Platform) (c : Client) where
  -- The client secret that the annotation of the Secret names, if the status names none
  recovered : InfisicalUniversalAuth → String → Result Error UniversalAuthClientSecret → Rotation
  unfolding with_client_secret
  recovered auth id (err e) = at_first auth id
  recovered auth id (ok metadata) =
      if not metadata.is_client_secret_revoked
      then record {
        client_secret_id = id;
        needs_rotation = false;
        auth = with_nonce (with_client_secret auth metadata);
      }
      else at_first auth id

  unfoldable pub recover_by_id :
      InfisicalUniversalAuth → UniversalAuthConfig → (id : String) → Exec Failing Rotation
  unfolding recovered
  recover_by_id auth config id = do
    found ← attempt (get_universal_auth_client_secret platform c config.identity_id id)
    pure (recovered auth id found)

  unfoldable pub recover_client_secret :
      InfisicalUniversalAuth → UniversalAuthConfig → Secret → Exec Failing Rotation
  recover_client_secret auth config published =
      let ref = auth.spec.client_secret.secret_ref in
      let id =
        text_or_empty (lookup universal_auth_client_secret_id_annotation published.annotations) in
      if not (id == "")
        && has_value (lookup (universal_auth_secret_key ref false) published.values)
        && has_value (lookup (universal_auth_secret_key ref true) published.values)
      then recover_by_id auth config id
      else pure (at_first auth id)

  unfoldable pub inspect_published :
      InfisicalUniversalAuth → UniversalAuthConfig → Result Error Secret → Exec Failing Rotation
  inspect_published auth config (err e) =
      if is_kube_not_found e
      then pure (record {
        client_secret_id = auth.status.client_secret.client_secret_id;
        needs_rotation = true;
        auth = auth;
      })
      else raise (auth, e)
  inspect_published auth config (ok published) =
      if auth.status.client_secret.client_secret_id == ""
      then recover_client_secret auth config published
      else pure (at_first auth auth.status.client_secret.client_secret_id)
