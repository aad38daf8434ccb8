-- ===== src/Client/Projects/Calls.antt =====
-- The requests of the functions for projects.
use infisical_entity_operato.Base.{String}
use infisical_entity_operato.Result.{Result, ok, err}
use infisical_entity_operato.Failure.{Error}
use infisical_entity_operato.Platform.{Method, Call, Platform}
use infisical_entity_operato.Exec.Emits.{Permits, Emits, emits_rules}
use infisical_entity_operato.Client.Http.{Client}
use infisical_entity_operato.Client.Token.Calls.{Emits-exchange_with}
use infisical_entity_operato.Client.Wire.{Project, CreateProjectRequest, ProjectPatch}
use infisical_entity_operato.Client.Projects.{
  after_slug, find_in_list, find_project, create_project, get_project, get_project_by_slug,
  list_projects, update_project, delete_project,
}

module _ (platform : Platform) {Q : Call → Type 0} (login : Permits Q Method.post)
    (c : Client) where
  pub Emits-create_project :
      (request : CreateProjectRequest) → Emits Q (create_project platform c request)
  unfolding create_project
  Emits-create_project request = search (emits_rules, Emits-exchange_with)

  pub Emits-get_project : (id : String) → Permits Q Method.get → Emits Q (get_project platform c id)
  unfolding get_project
  Emits-get_project id p0 = search (emits_rules, Emits-exchange_with)

  pub Emits-get_project_by_slug :
      (slug : String) → Permits Q Method.get → Emits Q (get_project_by_slug platform c slug)
  unfolding get_project_by_slug
  Emits-get_project_by_slug slug p0 = search (emits_rules, Emits-exchange_with)

  pub Emits-list_projects : Permits Q Method.get → Emits Q (list_projects platform c)
  unfolding list_projects
  Emits-list_projects p0 = search (emits_rules, Emits-exchange_with)

  pub Emits-update_project :
      (id : String) (patch : ProjectPatch)
      → Permits Q Method.patch
      → Emits Q (update_project platform c id patch)
  unfolding update_project
  Emits-update_project id patch p0 = search (emits_rules, Emits-exchange_with)

  pub Emits-delete_project :
      (id : String) → Permits Q Method.delete → Emits Q (delete_project platform c id)
  unfolding delete_project
  Emits-delete_project id p0 = search (emits_rules, Emits-exchange_with)

  Emits-find_in_list :
      (name slug : String) → Permits Q Method.get → Emits Q (find_in_list platform c name slug)
  unfolding find_in_list
  Emits-find_in_list name slug g = search (emits_rules, Emits-list_projects)

  Emits-after_slug :
      (name slug : String) (found : Result Error Project)
      → Permits Q Method.get
      → Emits Q (after_slug platform c name slug found)
  unfolding after_slug
  Emits-after_slug name slug (ok project) g = search emits_rules
  Emits-after_slug name slug (err e) g = search (emits_rules, Emits-find_in_list)

  pub Emits-find_project :
      (name slug : String) → Permits Q Method.get → Emits Q (find_project platform c name slug)
  unfolding find_project
  Emits-find_project name slug g =
      search (emits_rules, Emits-get_project_by_slug, Emits-find_in_list, Emits-after_slug)
