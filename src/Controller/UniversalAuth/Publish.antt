-- ===== src/Controller/UniversalAuth/Publish.antt =====
-- infisicaluniversalauth_controller.go: the Secret that a client secret is published in.
pub mod Calls
pub mod Safety
use infisical_entity_operato.Base.{
  String, Bool, true, false, not, ◌&&◌, ◌||◌, Option, none, some, List, [], ◌∷◌, ◌==◌, insert,
  concat, if◌then◌else◌,
}
use infisical_entity_operato.Result.{Result, ok, err}
use infisical_entity_operato.Failure.{Error, dependency, is_kube_not_found}
use infisical_entity_operato.Api.{
  Secret, OwnerReference, UniversalAuthSecretReference, InfisicalUniversalAuth,
}
use infisical_entity_operato.Platform.{Object, Platform}
use infisical_entity_operato.Exec.{
  Exec, lift, attempt, read_secret, create_object, update_object, ◌>>=◌,
}

abbrev pub universal_auth_client_secret_id_annotation : String
universal_auth_client_secret_id_annotation = "infisical.infisical-operator.io/client-secret-id"

-- GroupVersion.String()
abbrev pub group_version : String
group_version = "infisical.infisical-operator.io/v1alpha1"

unfoldable pub universal_auth_secret_key :
    UniversalAuthSecretReference → (client_secret : Bool) → String
universal_auth_secret_key ref true =
    if not (ref.client_secret_key == "") then ref.client_secret_key else "clientSecret"
universal_auth_secret_key ref false =
    if not (ref.client_id_key == "") then ref.client_id_key else "clientId"

unfoldable pub owner_reference_matches : OwnerReference → InfisicalUniversalAuth → Bool
owner_reference_matches owner auth =
    owner.api_version == group_version
    && owner.kind == "InfisicalUniversalAuth"
    && owner.name == auth.meta.name
    && (owner.uid == "" || auth.meta.uid == "" || owner.uid == auth.meta.uid)

-- A Secret that is not stored yet
abbrev pub new_secret : InfisicalUniversalAuth → Secret
new_secret auth = record {
  meta = record {
    namespace = auth.meta.namespace;
    name = auth.spec.client_secret.secret_ref.name;
    generation = 0;
    deletion_timestamp = none;
    finalizers = [];
    uid = "";
  };
  type = "";
  resource_version = "";
  annotations = [];
  owner_references = [];
  values = [];
}

-- The type, the two values and the annotation
unfoldable pub filled :
    InfisicalUniversalAuth → (client_secret client_id client_secret_id : String) → Secret → Secret
unfolding universal_auth_secret_key
filled auth client_secret client_id client_secret_id secret =
    let ref = auth.spec.client_secret.secret_ref in
    record secret {
      type = "Opaque";
      values =
          insert (universal_auth_secret_key ref true) client_secret
            (insert (universal_auth_secret_key ref false) client_id secret.values);
      annotations =
          insert universal_auth_client_secret_id_annotation client_secret_id secret.annotations;
    }

module _ (platform : Platform) where
  owned_by : Secret → Result Error (List OwnerReference) → Result Error Secret
  owned_by secret (ok owners) = ok (record secret { owner_references = owners })
  owned_by secret (err e) = err e

  unfoldable pub set_universal_auth_secret_owner :
      Secret → InfisicalUniversalAuth → Result Error Secret
  unfolding owned_by
  set_universal_auth_secret_owner secret auth =
      if platform.has_scheme
      then owned_by secret (platform.set_controller_reference (Object.universal_auth auth) secret)
      else ok (record secret {
        owner_references =
            (record {
              api_version = group_version;
              kind = "InfisicalUniversalAuth";
              name = auth.meta.name;
              uid = auth.meta.uid;
              controller = true;
              block_owner_deletion = true;
            })
            ∷ [];
      })

  unless_controlled : InfisicalUniversalAuth → Secret → Option OwnerReference → Result Error Secret
  unless_controlled auth secret none = ok secret
  unless_controlled auth secret (some owner) =
      if not (owner_reference_matches owner auth)
      then err (
          dependency (
            concat (
              "Secret " ∷ secret.meta.namespace ∷ "/" ∷ secret.meta.name
              ∷ " is controlled by another resource" ∷ [])))
      else ok secret

  -- The Secret as it is stored, or a new one; one that another resource controls is refused.
  unfoldable pub secret_to_fill : InfisicalUniversalAuth → Result Error Secret → Result Error Secret
  unfolding unless_controlled
  secret_to_fill auth (err e) = if is_kube_not_found e then ok (new_secret auth) else err e
  secret_to_fill auth (ok secret) =
      unless_controlled auth secret (platform.controller_of secret.owner_references)

  unfoldable pub store_secret : Secret → Exec Error (Unit {0})
  store_secret secret =
      if secret.resource_version == ""
      then create_object platform (Object.secret secret)
      else update_object platform (Object.secret secret)

  unfoldable pub publish_universal_auth_secret :
      InfisicalUniversalAuth
      → (client_secret client_id client_secret_id : String) → Exec Error (Unit {0})
  publish_universal_auth_secret auth client_secret client_id client_secret_id = do
    found ← attempt (
        read_secret platform (record {
          namespace = auth.meta.namespace;
          name = auth.spec.client_secret.secret_ref.name;
        }))
    secret ← lift (secret_to_fill auth found)
    owned ← lift (
        set_universal_auth_secret_owner
          (filled auth client_secret client_id client_secret_id secret) auth)
    store_secret owned
