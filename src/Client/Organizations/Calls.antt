-- ===== src/Client/Organizations/Calls.antt =====
-- The requests of the functions for organizations.
use infisical_entity_operato.Base.{String, List, [], ◌∷◌}
use infisical_entity_operato.Result.{Result, ok, err}
use infisical_entity_operato.Failure.{Error}
use infisical_entity_operato.Json.{Json}
use infisical_entity_operato.Platform.{Method, Call, Platform}
use infisical_entity_operato.Exec.Emits.{Permits, Emits, emits_rules}
use infisical_entity_operato.Client.Http.{Client}
use infisical_entity_operato.Client.Token.Calls.{Emits-exchange_with}
use infisical_entity_operato.Client.Wire.{Organization, Project, CreateOrganizationRequest}
use infisical_entity_operato.Client.Projects.Calls.{Emits-list_projects}
use infisical_entity_operato.Client.Organizations.{
  in_projects, after_workspaces, after_membership, after_get, find_organization,
  create_organization, get_organization, list_organizations, check_organization_membership_access,
  list_organization_workspaces, delete_organization,
}

module _ (platform : Platform) {Q : Call → Type 0} (login : Permits Q Method.post)
    (c : Client) where
  pub Emits-create_organization :
      (request : CreateOrganizationRequest) → Emits Q (create_organization platform c request)
  unfolding create_organization
  Emits-create_organization request = search (emits_rules, Emits-exchange_with)

  pub Emits-get_organization :
      (id : String) → Permits Q Method.get → Emits Q (get_organization platform c id)
  unfolding get_organization
  Emits-get_organization id p0 = search (emits_rules, Emits-exchange_with)

  pub Emits-list_organizations : Permits Q Method.get → Emits Q (list_organizations platform c)
  unfolding list_organizations
  Emits-list_organizations p0 = search (emits_rules, Emits-exchange_with)

  pub Emits-check_organization_membership_access :
      (organization_id : String)
      → Permits Q Method.get
      → Emits Q (check_organization_membership_access platform c organization_id)
  unfolding check_organization_membership_access
  Emits-check_organization_membership_access organization_id p0 =
      search (emits_rules, Emits-exchange_with)

  pub Emits-list_organization_workspaces :
      (organization_id : String)
      → Permits Q Method.get
      → Emits Q (list_organization_workspaces platform c organization_id)
  unfolding list_organization_workspaces
  Emits-list_organization_workspaces organization_id p0 = search (emits_rules, Emits-exchange_with)

  pub Emits-delete_organization :
      (id : String) → Permits Q Method.delete → Emits Q (delete_organization platform c id)
  unfolding delete_organization
  Emits-delete_organization id p0 = search (emits_rules, Emits-exchange_with)

  module _ (id : String) (g : Permits Q Method.get) where
    Emits-in_projects :
        (e : Error) (found : Result Error (List Project))
        → Emits Q (in_projects platform c id e found)
    unfolding in_projects
    Emits-in_projects e (ok projects) = search emits_rules
    Emits-in_projects e (err _) = search emits_rules

    Emits-after_workspaces :
        (e : Error) (found : Result Error (List Json))
        → Emits Q (after_workspaces platform c id e found)
    unfolding after_workspaces
    Emits-after_workspaces e (ok []) = search (emits_rules, Emits-list_projects, Emits-in_projects)
    Emits-after_workspaces e (ok (v ∷ vs)) = search emits_rules
    Emits-after_workspaces e (err _) = search (emits_rules, Emits-list_projects, Emits-in_projects)

    Emits-after_membership :
        (e : Error) (found : Result Error (Unit {0}))
        → Emits Q (after_membership platform c id e found)
    unfolding after_membership
    Emits-after_membership e (ok u) = search emits_rules
    Emits-after_membership e (err _) =
        search (emits_rules, Emits-list_organization_workspaces, Emits-after_workspaces)

    Emits-after_get : (found : Result Error Organization) → Emits Q (after_get platform c id found)
    unfolding after_get
    Emits-after_get (ok organization) = search emits_rules
    Emits-after_get (err e) =
        search (emits_rules, Emits-check_organization_membership_access, Emits-after_membership)

  pub Emits-find_organization :
      (id name : String) → Permits Q Method.get → Emits Q (find_organization platform c id name)
  unfolding find_organization
  Emits-find_organization id name g =
      search (emits_rules, Emits-get_organization, Emits-list_organizations, Emits-after_get)
