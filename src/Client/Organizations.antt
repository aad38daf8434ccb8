-- ===== src/Client/Organizations.antt =====
-- internal/infisicalclient/organizations.go
pub mod Calls
use infisical_entity_operato.Base.{
  String, Bool, true, false, not, ◌&&◌, ◌||◌, Option, none, some, List, [], ◌∷◌, map, ◌==◌, length,
  nat_eq, path_escape, concat, any, all, find_first, is_empty, decimal, if◌then◌else◌,
}
use infisical_entity_operato.Result.{Result, ok, err}
use infisical_entity_operato.Failure.{Error, is_not_found, is_unauthorized}
use infisical_entity_operato.Json.{Json, null, of_nil, object_of, items_of, member, Fields}
use infisical_entity_operato.Platform.{Method, Platform}
use infisical_entity_operato.Exec.{Exec, pure, raise, lift, check, attempt, or_wrap, ◌>>=◌, ◌>>◌}
use infisical_entity_operato.Client.Http.{Client, Target, no_target, inside}
use infisical_entity_operato.Client.Token.{exchange_with}
use infisical_entity_operato.Client.Wire.{
  Organization, no_organization, decode_organization, validate_organization,
  CreateOrganizationRequest, encode_create_organization, Project,
}
use infisical_entity_operato.Client.Lists.{inside_list, raw}
use infisical_entity_operato.Client.Projects.{list_projects}

-- The organization of which the credential shows only the identifier
abbrev pub bare_organization : String → Organization
bare_organization id = record { id = id; name = ""; slug = "" }

module _ (platform : Platform) (c : Client) where
  unfoldable pub create_organization : CreateOrganizationRequest → Exec Error Organization
  create_organization request = do
    organization ←
        exchange_with platform c Method.post "/v2/organizations" []
          (some (encode_create_organization request))
          (inside no_organization "organization" decode_organization)
    lift (validate_organization organization)

  unfoldable pub get_organization : (id : String) → Exec Error Organization
  get_organization id = do
    organization ←
        exchange_with platform c Method.get (concat ("/v1/organization/" ∷ path_escape id ∷ [])) []
          none (inside no_organization "organization" decode_organization)
    lift (validate_organization organization)

  unfoldable pub list_organizations : Exec Error (List Organization)
  list_organizations =
      exchange_with platform c Method.get "/v1/organization" [] none
        (inside_list "organizations" (λ v. object_of decode_organization (some v)))

  unfoldable pub check_organization_membership_access :
      (organization_id : String) → Exec Error (Unit {0})
  check_organization_membership_access organization_id = do
    exchange_with platform c Method.get
        (concat ("/v2/organizations/" ∷ path_escape organization_id ∷ "/memberships" ∷ [])) [] none
        (inside_list "users" raw)
    pure tt

  unfoldable pub list_organization_workspaces : (organization_id : String) → Exec Error (List Json)
  list_organization_workspaces organization_id =
      exchange_with platform c Method.get
        (concat ("/v2/organizations/" ∷ path_escape organization_id ∷ "/workspaces" ∷ [])) [] none
        (inside_list "workspaces" raw)

  module _ (id : String) where
    -- The last resort: a project of the organization that the credential can see
    in_projects : Error → Result Error (List Project) → Exec Error (Option Organization)
    in_projects e (err list_error) = raise e
    in_projects e (ok projects) =
        pure (
          if any (λ p. p.organization_id == id) projects then some (bare_organization id) else none)

    after_workspaces : Error → Result Error (List Json) → Exec Error (Option Organization)
    unfolding in_projects
    after_workspaces e (ok (v ∷ workspaces)) = pure (some (bare_organization id))
    after_workspaces e (ok []) = do
      projects ← attempt (list_projects platform c)
      in_projects e projects
    after_workspaces e (err workspace_error) = do
      projects ← attempt (list_projects platform c)
      in_projects e projects

    after_membership : Error → Result Error (Unit {0}) → Exec Error (Option Organization)
    unfolding after_workspaces
    after_membership e (ok access) = pure (some (bare_organization id))
    after_membership e (err membership_error) = do
      workspaces ← attempt (list_organization_workspaces id)
      after_workspaces e workspaces

    after_get : Result Error Organization → Exec Error (Option Organization)
    unfolding after_membership
    after_get (ok organization) = pure (some organization)
    after_get (err e) = if not (is_unauthorized e) then raise e else (do
      access ← attempt (check_organization_membership_access id)
      after_membership e access)

  unfoldable pub find_organization : (id name : String) → Exec Error (Option Organization)
  unfolding after_get
  find_organization id name =
      if not (id == "") then (do found ← attempt (get_organization id); after_get id found) else (do
        organizations ← list_organizations
        pure (find_first (λ o. o.name == name) organizations))

  unfoldable pub delete_organization : (id : String) → Exec Error (Unit {0})
  delete_organization id =
      exchange_with platform c Method.delete (concat ("/v2/organizations/" ∷ path_escape id ∷ []))
        [] none no_target
