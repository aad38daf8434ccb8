-- ===== src/Client/Projects.antt =====
-- internal/infisicalclient/projects.go
pub mod Calls
pub mod Choice
mod Tests
use infisical_entity_operato.Base.{
  String, Bool, true, false, not, ◌&&◌, ◌||◌, Option, none, some, List, [], ◌∷◌, map, ◌==◌, length,
  nat_eq, path_escape, concat, any, all, find_first, is_empty, decimal, if◌then◌else◌,
}
use infisical_entity_operato.Result.{Result, ok, err}
use infisical_entity_operato.Failure.{Error, is_not_found, is_unauthorized}
use infisical_entity_operato.Json.{Json, null, of_nil, object_of, items_of, member, Fields}
use infisical_entity_operato.Platform.{Method, Platform}
use infisical_entity_operato.Exec.{Exec, pure, raise, lift, check, attempt, or_wrap, ◌>>=◌, ◌>>◌}
use infisical_entity_operato.Client.Http.{Client, Target, no_target, inside}
use infisical_entity_operato.Client.Token.{exchange_with}
use infisical_entity_operato.Client.Wire.{
  Project, no_project, decode_project, validate_project, CreateProjectRequest,
  encode_create_project, ProjectPatch, encode_project_patch,
}
use infisical_entity_operato.Client.Lists.{inside_list, validate_each}

module _ (platform : Platform) (c : Client) where
  project_target : Target Project
  project_target = inside no_project "project" (decode_project platform.is_rfc3339)

  unfoldable pub create_project : CreateProjectRequest → Exec Error Project
  unfolding project_target
  create_project request = do
    project ←
        exchange_with platform c Method.post "/v1/projects" []
          (some (encode_create_project request)) project_target
    lift (validate_project project)

  unfoldable pub get_project : (id : String) → Exec Error Project
  unfolding project_target
  get_project id = do
    project ←
        exchange_with platform c Method.get (concat ("/v1/projects/" ∷ path_escape id ∷ [])) [] none
          project_target
    lift (validate_project project)

  -- This response is the project itself.
  unfoldable pub get_project_by_slug : (slug : String) → Exec Error Project
  get_project_by_slug slug = do
    project ←
        exchange_with platform c Method.get (concat ("/v1/projects/slug/" ∷ path_escape slug ∷ []))
          [] none
          (record { wanted = true; zero = no_project; decode = decode_project platform.is_rfc3339 })
    lift (validate_project project)

  unfoldable pub list_projects : Exec Error (List Project)
  list_projects = do
    projects ←
        exchange_with platform c Method.get "/v1/projects" [] none
          (inside_list "projects" (λ v. object_of (decode_project platform.is_rfc3339) (some v)))
    lift (validate_each validate_project projects)

  -- What the two loops of FindProject return
  unfoldable pub pick_project : (name slug : String) → List Project → Option Project
  pick_project name slug projects =
      elim (find_first (λ p. not (slug == "") && p.slug == slug) projects) [
        | some project ↦ some project
        | none ↦ find_first (λ p. p.name == name) projects
      ]

  find_in_list : (name slug : String) → Exec Error (Option Project)
  find_in_list name slug = do projects ← list_projects; pure (pick_project name slug projects)

  after_slug : (name slug : String) → Result Error Project → Exec Error (Option Project)
  unfolding find_in_list
  after_slug name slug (ok project) = pure (some project)
  after_slug name slug (err e) = if not (is_not_found e) then raise e else find_in_list name slug

  unfoldable pub find_project : (name slug : String) → Exec Error (Option Project)
  unfolding after_slug
  find_project name slug =
      if not (slug == "")
      then (do found ← attempt (get_project_by_slug slug); after_slug name slug found)
      else find_in_list name slug

  unfoldable pub update_project : (id : String) → ProjectPatch → Exec Error Project
  unfolding project_target
  update_project id patch = do
    project ←
        exchange_with platform c Method.patch (concat ("/v1/projects/" ∷ path_escape id ∷ [])) []
          (some (encode_project_patch patch)) project_target
    lift (validate_project project)

  unfoldable pub delete_project : (id : String) → Exec Error (Unit {0})
  delete_project id =
      exchange_with platform c Method.delete (concat ("/v1/projects/" ∷ path_escape id ∷ [])) []
        none no_target
