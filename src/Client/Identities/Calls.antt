-- ===== src/Client/Identities/Calls.antt =====
-- The requests of the functions for identities.
use infisical_entity_operato.Base.{String}
use infisical_entity_operato.Platform.{Method, Call, Platform}
use infisical_entity_operato.Exec.Emits.{Permits, Emits, emits_rules}
use infisical_entity_operato.Client.Http.{Client}
use infisical_entity_operato.Client.Token.Calls.{Emits-exchange_with}
use infisical_entity_operato.Client.Wire.Identities.{
  CreateIdentityRequest, CreateOrganizationIdentityRequest, IdentityPatch,
}
use infisical_entity_operato.Client.Identities.{
  create_identity, get_identity, list_identities, find_identity, update_identity, delete_identity,
  create_organization_identity, get_organization_identity, list_organization_identities,
  find_organization_identity, update_organization_identity, delete_organization_identity,
}

module _ (platform : Platform) {Q : Call → Type 0} (login : Permits Q Method.post)
    (c : Client) where
  pub Emits-create_identity :
      (project_id : String) (request : CreateIdentityRequest)
      → Emits Q (create_identity platform c project_id request)
  unfolding create_identity
  Emits-create_identity project_id request = search (emits_rules, Emits-exchange_with)

  pub Emits-get_identity :
      (project_id identity_id : String)
      → Permits Q Method.get
      → Emits Q (get_identity platform c project_id identity_id)
  unfolding get_identity
  Emits-get_identity project_id identity_id p0 = search (emits_rules, Emits-exchange_with)

  pub Emits-list_identities :
      (project_id : String) → Permits Q Method.get → Emits Q (list_identities platform c project_id)
  unfolding list_identities
  Emits-list_identities project_id p0 = search (emits_rules, Emits-exchange_with)

  pub Emits-find_identity :
      (project_id name : String)
      → Permits Q Method.get
      → Emits Q (find_identity platform c project_id name)
  unfolding find_identity
  Emits-find_identity project_id name p0 =
      search (emits_rules, Emits-exchange_with, Emits-list_identities)

  pub Emits-update_identity :
      (project_id identity_id : String) (patch : IdentityPatch)
      → Permits Q Method.patch
      → Emits Q (update_identity platform c project_id identity_id patch)
  unfolding update_identity
  Emits-update_identity project_id identity_id patch p0 = search (emits_rules, Emits-exchange_with)

  pub Emits-delete_identity :
      (project_id identity_id : String)
      → Permits Q Method.delete
      → Emits Q (delete_identity platform c project_id identity_id)
  unfolding delete_identity
  Emits-delete_identity project_id identity_id p0 = search (emits_rules, Emits-exchange_with)

  pub Emits-create_organization_identity :
      (organization_id : String) (request : CreateOrganizationIdentityRequest)
      → Emits Q (create_organization_identity platform c organization_id request)
  unfolding create_organization_identity
  Emits-create_organization_identity organization_id request =
      search (emits_rules, Emits-exchange_with)

  pub Emits-get_organization_identity :
      (identity_id : String)
      → Permits Q Method.get
      → Emits Q (get_organization_identity platform c identity_id)
  unfolding get_organization_identity
  Emits-get_organization_identity identity_id p0 = search (emits_rules, Emits-exchange_with)

  pub Emits-list_organization_identities :
      (organization_id : String)
      → Permits Q Method.get
      → Emits Q (list_organization_identities platform c organization_id)
  unfolding list_organization_identities
  Emits-list_organization_identities organization_id p0 = search (emits_rules, Emits-exchange_with)

  pub Emits-find_organization_identity :
      (organization_id name : String)
      → Permits Q Method.get
      → Emits Q (find_organization_identity platform c organization_id name)
  unfolding find_organization_identity
  Emits-find_organization_identity organization_id name p0 =
      search (emits_rules, Emits-exchange_with, Emits-list_organization_identities)

  pub Emits-update_organization_identity :
      (identity_id : String) (patch : IdentityPatch)
      → Permits Q Method.patch
      → Emits Q (update_organization_identity platform c identity_id patch)
  unfolding update_organization_identity
  Emits-update_organization_identity identity_id patch p0 =
      search (emits_rules, Emits-exchange_with)

  pub Emits-delete_organization_identity :
      (identity_id : String)
      → Permits Q Method.delete
      → Emits Q (delete_organization_identity platform c identity_id)
  unfolding delete_organization_identity
  Emits-delete_organization_identity identity_id p0 = search (emits_rules, Emits-exchange_with)
