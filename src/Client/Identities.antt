-- ===== src/Client/Identities.antt =====
-- internal/infisicalclient/identities.go: the identities of projects and of organizations.
pub mod Calls
use infisical_entity_operato.Base.{
  String, Bool, true, false, not, ◌&&◌, ◌||◌, Option, none, some, List, [], ◌∷◌, map, ◌==◌, length,
  nat_eq, path_escape, concat, any, all, find_first, is_empty, decimal, if◌then◌else◌,
}
use infisical_entity_operato.Result.{Result, ok, err}
use infisical_entity_operato.Failure.{Error, is_not_found, is_unauthorized}
use infisical_entity_operato.Json.{Json, null, of_nil, object_of, items_of, member, Fields}
use infisical_entity_operato.Platform.{Method, Platform}
use infisical_entity_operato.Exec.{Exec, pure, raise, lift, check, attempt, or_wrap, ◌>>=◌, ◌>>◌}
use infisical_entity_operato.Client.Http.{Client, Target, no_target, inside}
use infisical_entity_operato.Client.Token.{exchange_with}
use infisical_entity_operato.Client.Wire.Identities.{
  Identity, no_identity, decode_identity, validate_identity, no_list_item, decode_list_item,
  OrganizationIdentityListItem, as_identity, CreateIdentityRequest, encode_create_identity,
  CreateOrganizationIdentityRequest, encode_create_organization_identity, IdentityPatch,
  encode_identity_patch,
}
use infisical_entity_operato.Client.Lists.{inside_list, validate_each}

abbrev identities_path : String → List String → String
identities_path project_id rest =
    concat ("/v1/projects/" ∷ path_escape project_id ∷ "/identities" ∷ rest)

abbrev organization_identity_path : String → String
organization_identity_path identity_id = concat ("/v1/identities/" ∷ path_escape identity_id ∷ [])

abbrev identity_target : Target Identity
identity_target = inside no_identity "identity" decode_identity

abbrev list_item_target : Target OrganizationIdentityListItem
list_item_target = inside no_list_item "identity" decode_list_item

module _ (platform : Platform) (c : Client) where
  unfoldable pub create_identity :
      (project_id : String) → CreateIdentityRequest → Exec Error Identity
  create_identity project_id request = do
    identity ←
        exchange_with platform c Method.post (identities_path project_id []) []
          (some (encode_create_identity request)) identity_target
    lift (validate_identity identity)

  unfoldable pub get_identity : (project_id identity_id : String) → Exec Error Identity
  get_identity project_id identity_id = do
    identity ←
        exchange_with platform c Method.get
          (identities_path project_id ("/" ∷ path_escape identity_id ∷ [])) [] none identity_target
    lift (validate_identity identity)

  unfoldable pub list_identities : (project_id : String) → Exec Error (List Identity)
  list_identities project_id = do
    identities ←
        exchange_with platform c Method.get (identities_path project_id [])
          (("limit", "1000") ∷ ("offset", "0") ∷ []) none
          (inside_list "identities" (λ v. object_of decode_identity (some v)))
    lift (validate_each validate_identity identities)

  unfoldable pub find_identity : (project_id name : String) → Exec Error (Option Identity)
  find_identity project_id name = do
    identities ← list_identities project_id
    pure (find_first (λ i. i.name == name) identities)

  unfoldable pub update_identity :
      (project_id identity_id : String) → IdentityPatch → Exec Error Identity
  update_identity project_id identity_id patch = do
    identity ←
        exchange_with platform c Method.patch
          (identities_path project_id ("/" ∷ path_escape identity_id ∷ [])) []
          (some (encode_identity_patch patch)) identity_target
    lift (validate_identity identity)

  unfoldable pub delete_identity : (project_id identity_id : String) → Exec Error (Unit {0})
  delete_identity project_id identity_id =
      exchange_with platform c Method.delete
        (identities_path project_id ("/" ∷ path_escape identity_id ∷ [])) [] none no_target

  unfoldable pub create_organization_identity :
      (organization_id : String) → CreateOrganizationIdentityRequest → Exec Error Identity
  create_organization_identity organization_id request = do
    item ←
        exchange_with platform c Method.post "/v1/identities" []
          (some (
            encode_create_organization_identity
              (record request { organization_id = organization_id })))
          list_item_target
    lift (validate_identity (as_identity item))

  unfoldable pub get_organization_identity : (identity_id : String) → Exec Error Identity
  get_organization_identity identity_id = do
    item ←
        exchange_with platform c Method.get (organization_identity_path identity_id) [] none
          list_item_target
    lift (validate_identity (as_identity item))

  unfoldable pub list_organization_identities :
      (organization_id : String) → Exec Error (List Identity)
  list_organization_identities organization_id = do
    items ←
        exchange_with platform c Method.get "/v1/identities"
          (("orgId", organization_id) ∷ ("limit", "1000") ∷ ("offset", "0") ∷ []) none
          (inside_list "identities" (λ v. object_of decode_list_item (some v)))
    lift (validate_each validate_identity (map as_identity items))

  unfoldable pub find_organization_identity :
      (organization_id name : String) → Exec Error (Option Identity)
  find_organization_identity organization_id name = do
    identities ← list_organization_identities organization_id
    pure (find_first (λ i. i.name == name) identities)

  unfoldable pub update_organization_identity :
      (identity_id : String) → IdentityPatch → Exec Error Identity
  update_organization_identity identity_id patch = do
    item ←
        exchange_with platform c Method.patch (organization_identity_path identity_id) []
          (some (encode_identity_patch patch)) list_item_target
    lift (validate_identity (as_identity item))

  unfoldable pub delete_organization_identity : (identity_id : String) → Exec Error (Unit {0})
  delete_organization_identity identity_id =
      exchange_with platform c Method.delete (organization_identity_path identity_id) [] none
        no_target
