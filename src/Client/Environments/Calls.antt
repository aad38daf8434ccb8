-- ===== src/Client/Environments/Calls.antt =====
-- The requests of the functions for environments.
use infisical_entity_operato.Base.{String}
use infisical_entity_operato.Platform.{Method, Call, Platform}
use infisical_entity_operato.Exec.Emits.{Permits, Emits, emits_rules}
use infisical_entity_operato.Client.Http.{Client}
use infisical_entity_operato.Client.Token.Calls.{Emits-exchange_with}
use infisical_entity_operato.Client.Wire.{CreateEnvironmentRequest, EnvironmentPatch}
use infisical_entity_operato.Client.Environments.{
  get_environment_by_id, get_environment_by_slug, create_environment, update_environment,
  delete_environment, restore_environment,
}

module _ (platform : Platform) {Q : Call → Type 0} (login : Permits Q Method.post)
    (c : Client) where
  pub Emits-get_environment_by_id :
      (project_id environment_id : String)
      → Permits Q Method.get
      → Emits Q (get_environment_by_id platform c project_id environment_id)
  unfolding get_environment_by_id
  Emits-get_environment_by_id project_id environment_id p0 =
      search (emits_rules, Emits-exchange_with)

  pub Emits-get_environment_by_slug :
      (project_id slug : String)
      → Permits Q Method.get
      → Emits Q (get_environment_by_slug platform c project_id slug)
  unfolding get_environment_by_slug
  Emits-get_environment_by_slug project_id slug p0 = search (emits_rules, Emits-exchange_with)

  pub Emits-create_environment :
      (project_id : String) (request : CreateEnvironmentRequest)
      → Emits Q (create_environment platform c project_id request)
  unfolding create_environment
  Emits-create_environment project_id request = search (emits_rules, Emits-exchange_with)

  pub Emits-update_environment :
      (project_id environment_id : String) (patch : EnvironmentPatch)
      → Permits Q Method.patch
      → Emits Q (update_environment platform c project_id environment_id patch)
  unfolding update_environment
  Emits-update_environment project_id environment_id patch p0 =
      search (emits_rules, Emits-exchange_with)

  pub Emits-delete_environment :
      (project_id environment_id : String)
      → Permits Q Method.delete
      → Emits Q (delete_environment platform c project_id environment_id)
  unfolding delete_environment
  Emits-delete_environment project_id environment_id p0 = search (emits_rules, Emits-exchange_with)

  pub Emits-restore_environment :
      (project_id environment_id : String)
      → Emits Q (restore_environment platform c project_id environment_id)
  unfolding restore_environment
  Emits-restore_environment project_id environment_id = search (emits_rules, Emits-exchange_with)
