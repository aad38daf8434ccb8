-- ===== src/Client/UniversalAuth.antt =====
-- internal/infisicalclient/universalauth.go
pub mod Calls
use infisical_entity_operato.Base.{String, Bool, none, some, List, [], ◌∷◌, concat, path_escape}
use infisical_entity_operato.Result.{Result, ok, err}
use infisical_entity_operato.Failure.{Error}
use infisical_entity_operato.Json.{Json, object_of}
use infisical_entity_operato.Platform.{Method, Platform}
use infisical_entity_operato.Exec.{Exec, lift, ◌>>=◌}
use infisical_entity_operato.Client.Http.{Client, Target, no_target, inside}
use infisical_entity_operato.Client.Token.{exchange_with}
use infisical_entity_operato.Client.Lists.{inside_list}
use infisical_entity_operato.Client.Wire.UniversalAuth.{
  UniversalAuthConfig, no_universal_auth, decode_universal_auth, validate_universal_auth,
  UniversalAuthConfigRequest, encode_universal_auth_config, UniversalAuthClientSecret,
  no_client_secret, decode_client_secret, validate_client_secret,
  CreateUniversalAuthClientSecretRequest, encode_create_client_secret,
  CreateUniversalAuthClientSecretResponse, no_created_client_secret, decode_created_client_secret,
  validate_created_client_secret,
}

unfoldable pub universal_auth_path : (identity_id : String) → List String → String
universal_auth_path identity_id rest =
    concat ("/v1/auth/universal-auth/identities/" ∷ path_escape identity_id ∷ rest)

abbrev universal_auth_target : Target UniversalAuthConfig
universal_auth_target = inside no_universal_auth "identityUniversalAuth" decode_universal_auth

module _ (platform : Platform) (c : Client) (identity_id : String) where
  unfoldable pub write_universal_auth :
      Method → UniversalAuthConfigRequest → Exec Error UniversalAuthConfig
  write_universal_auth method request = do
    config ←
        exchange_with platform c method (universal_auth_path identity_id []) []
          (some (encode_universal_auth_config request)) universal_auth_target
    lift (validate_universal_auth config)

  unfoldable pub attach_universal_auth : UniversalAuthConfigRequest → Exec Error UniversalAuthConfig
  attach_universal_auth = write_universal_auth Method.post

  unfoldable pub get_universal_auth : Exec Error UniversalAuthConfig
  get_universal_auth = do
    config ←
        exchange_with platform c Method.get (universal_auth_path identity_id []) [] none
          universal_auth_target
    lift (validate_universal_auth config)

  unfoldable pub update_universal_auth : UniversalAuthConfigRequest → Exec Error UniversalAuthConfig
  update_universal_auth = write_universal_auth Method.patch

  unfoldable pub delete_universal_auth : Exec Error (Unit {0})
  delete_universal_auth =
      exchange_with platform c Method.delete (universal_auth_path identity_id []) [] none no_target

  unfoldable pub create_universal_auth_client_secret :
      CreateUniversalAuthClientSecretRequest → Exec Error CreateUniversalAuthClientSecretResponse
  create_universal_auth_client_secret request = do
    response ←
        exchange_with platform c Method.post
          (universal_auth_path identity_id ("/client-secrets" ∷ [])) []
          (some (encode_create_client_secret request))
          (record {
            wanted = Bool.true;
            zero = no_created_client_secret;
            decode = decode_created_client_secret;
          })
    lift (validate_created_client_secret response)

  unfoldable pub list_universal_auth_client_secrets : Exec Error (List UniversalAuthClientSecret)
  list_universal_auth_client_secrets =
      exchange_with platform c Method.get (universal_auth_path identity_id ("/client-secrets" ∷ []))
        [] none (inside_list "clientSecretData" (λ v. object_of decode_client_secret (some v)))

  unfoldable pub get_universal_auth_client_secret :
      (client_secret_id : String) → Exec Error UniversalAuthClientSecret
  get_universal_auth_client_secret client_secret_id = do
    secret ←
        exchange_with platform c Method.get
          (universal_auth_path identity_id ("/client-secrets/" ∷ path_escape client_secret_id ∷ []))
          [] none (inside no_client_secret "clientSecretData" decode_client_secret)
    lift (validate_client_secret secret)

  unfoldable pub revoke_universal_auth_client_secret :
      (client_secret_id : String) → Exec Error (Unit {0})
  revoke_universal_auth_client_secret client_secret_id =
      exchange_with platform c Method.post
        (universal_auth_path identity_id
          ("/client-secrets/" ∷ path_escape client_secret_id ∷ "/revoke" ∷ []))
        [] none no_target
