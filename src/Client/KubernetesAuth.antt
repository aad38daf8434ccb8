-- ===== src/Client/KubernetesAuth.antt =====
-- internal/infisicalclient/kubernetesauth.go
pub mod Calls
use infisical_entity_operato.Base.{String, none, some, List, [], ◌∷◌, concat, path_escape}
use infisical_entity_operato.Result.{Result, ok, err}
use infisical_entity_operato.Failure.{Error}
use infisical_entity_operato.Json.{Json, object_of}
use infisical_entity_operato.Platform.{Method, Platform}
use infisical_entity_operato.Exec.{Exec, lift, ◌>>=◌}
use infisical_entity_operato.Client.Http.{Client, Target, no_target, inside}
use infisical_entity_operato.Client.Token.{exchange_with}
use infisical_entity_operato.Client.Wire.KubernetesAuth.{
  KubernetesAuth, no_kubernetes_auth, decode_kubernetes_auth, validate_kubernetes_auth,
  CreateKubernetesAuthRequest, encode_create_kubernetes_auth, KubernetesAuthPatch,
  encode_kubernetes_auth_patch,
}

abbrev kubernetes_auth_path : (identity_id : String) → String
kubernetes_auth_path identity_id =
    concat ("/v1/auth/kubernetes-auth/identities/" ∷ path_escape identity_id ∷ [])

abbrev kubernetes_auth_target : Target KubernetesAuth
kubernetes_auth_target = inside no_kubernetes_auth "identityKubernetesAuth" decode_kubernetes_auth

module _ (platform : Platform) (c : Client) (identity_id : String) where
  unfoldable pub get_kubernetes_auth : Exec Error KubernetesAuth
  get_kubernetes_auth = do
    auth ←
        exchange_with platform c Method.get (kubernetes_auth_path identity_id) [] none
          kubernetes_auth_target
    lift (validate_kubernetes_auth auth)

  unfoldable pub attach_kubernetes_auth : CreateKubernetesAuthRequest → Exec Error KubernetesAuth
  attach_kubernetes_auth request = do
    auth ←
        exchange_with platform c Method.post (kubernetes_auth_path identity_id) []
          (some (encode_create_kubernetes_auth request)) kubernetes_auth_target
    lift (validate_kubernetes_auth auth)

  unfoldable pub update_kubernetes_auth : KubernetesAuthPatch → Exec Error KubernetesAuth
  update_kubernetes_auth patch = do
    auth ←
        exchange_with platform c Method.patch (kubernetes_auth_path identity_id) []
          (some (encode_kubernetes_auth_patch patch)) kubernetes_auth_target
    lift (validate_kubernetes_auth auth)

  unfoldable pub delete_kubernetes_auth : Exec Error (Unit {0})
  delete_kubernetes_auth =
      exchange_with platform c Method.delete (kubernetes_auth_path identity_id) [] none no_target
