-- ===== src/Client/Memberships/Calls.antt =====
-- The requests of the functions for memberships.
use infisical_entity_operato.Base.{String, List}
use infisical_entity_operato.Result.{Result, ok, err}
use infisical_entity_operato.Failure.{Error}
use infisical_entity_operato.Platform.{Method, Call, Platform}
use infisical_entity_operato.Exec.Emits.{Permits, Emits, emits_rules}
use infisical_entity_operato.Client.Http.{Client}
use infisical_entity_operato.Client.Token.Calls.{Emits-exchange_with}
use infisical_entity_operato.Client.Wire.Memberships.{IdentityMembership}
use infisical_entity_operato.Client.Memberships.{
  after_read, ensure_identity_project_membership, get_identity_membership,
  create_identity_membership, update_identity_membership,
}

module _ (platform : Platform) {Q : Call → Type 0} (login : Permits Q Method.post)
    (c : Client) where
  pub Emits-get_identity_membership :
      (project_id identity_id : String)
      → Permits Q Method.get
      → Emits Q (get_identity_membership platform c project_id identity_id)
  unfolding get_identity_membership
  Emits-get_identity_membership project_id identity_id p0 =
      search (emits_rules, Emits-exchange_with)

  pub Emits-create_identity_membership :
      (project_id identity_id : String) (role_slugs : List String)
      → Emits Q (create_identity_membership platform c project_id identity_id role_slugs)
  unfolding create_identity_membership
  Emits-create_identity_membership project_id identity_id role_slugs =
      search (emits_rules, Emits-exchange_with)

  pub Emits-update_identity_membership :
      (project_id identity_id : String) (role_slugs : List String)
      → Permits Q Method.patch
      → Emits Q (update_identity_membership platform c project_id identity_id role_slugs)
  unfolding update_identity_membership
  Emits-update_identity_membership project_id identity_id role_slugs p0 =
      search (emits_rules, Emits-exchange_with)

  Emits-after_read :
      (project_id identity_id : String) (role_slugs : List String)
      (found : Result Error IdentityMembership)
      → Permits Q Method.patch
      → Emits Q (after_read platform c project_id identity_id role_slugs found)
  unfolding after_read
  Emits-after_read project_id identity_id role_slugs (ok membership) p =
      search (emits_rules, Emits-update_identity_membership)
  Emits-after_read project_id identity_id role_slugs (err e) p =
      search (emits_rules, Emits-create_identity_membership)

  pub Emits-ensure_identity_project_membership :
      (project_id identity_id : String) (role_slugs : List String)
      → Permits Q Method.get
      → Permits Q Method.patch
      → Emits Q (ensure_identity_project_membership platform c project_id identity_id role_slugs)
  unfolding ensure_identity_project_membership
  Emits-ensure_identity_project_membership project_id identity_id role_slugs g p =
      search (emits_rules, Emits-get_identity_membership, Emits-after_read)
