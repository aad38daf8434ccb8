-- ===== src/Client/Environments.antt =====
-- internal/infisicalclient/environments.go
pub mod Calls
use infisical_entity_operato.Base.{
  String, Bool, true, false, not, ◌&&◌, ◌||◌, Option, none, some, List, [], ◌∷◌, map, ◌==◌, length,
  nat_eq, path_escape, concat, any, all, find_first, is_empty, decimal, if◌then◌else◌,
}
use infisical_entity_operato.Result.{Result, ok, err}
use infisical_entity_operato.Failure.{Error, is_not_found, is_unauthorized}
use infisical_entity_operato.Json.{Json, null, of_nil, object_of, items_of, member, Fields}
use infisical_entity_operato.Platform.{Method, Platform}
use infisical_entity_operato.Exec.{Exec, pure, raise, lift, check, attempt, or_wrap, ◌>>=◌, ◌>>◌}
use infisical_entity_operato.Client.Http.{Client, Target, no_target, inside}
use infisical_entity_operato.Client.Token.{exchange_with}
use infisical_entity_operato.Client.Wire.{
  Environment, no_environment, decode_environment, validate_environment, CreateEnvironmentRequest,
  encode_create_environment, EnvironmentPatch, encode_environment_patch,
}

abbrev environments_path : String → List String → String
environments_path project_id rest =
    concat ("/v1/projects/" ∷ path_escape project_id ∷ "/environments" ∷ rest)

module _ (platform : Platform) (c : Client) where
  environment_target : Target Environment
  environment_target = inside no_environment "environment" (decode_environment platform.is_rfc3339)

  unfoldable pub get_environment_by_id :
      (project_id environment_id : String) → Exec Error Environment
  unfolding environment_target
  get_environment_by_id project_id environment_id = do
    environment ←
        exchange_with platform c Method.get
          (environments_path project_id ("/" ∷ path_escape environment_id ∷ [])) [] none
          environment_target
    lift (validate_environment environment)

  unfoldable pub get_environment_by_slug : (project_id slug : String) → Exec Error Environment
  unfolding environment_target
  get_environment_by_slug project_id slug = do
    environment ←
        exchange_with platform c Method.get
          (environments_path project_id ("/slug/" ∷ path_escape slug ∷ [])) [] none
          environment_target
    lift (validate_environment environment)

  unfoldable pub create_environment :
      (project_id : String) → CreateEnvironmentRequest → Exec Error Environment
  unfolding environment_target
  create_environment project_id request = do
    environment ←
        exchange_with platform c Method.post (environments_path project_id []) []
          (some (encode_create_environment request)) environment_target
    lift (validate_environment environment)

  unfoldable pub update_environment :
      (project_id environment_id : String) → EnvironmentPatch → Exec Error Environment
  unfolding environment_target
  update_environment project_id environment_id patch = do
    environment ←
        exchange_with platform c Method.patch
          (environments_path project_id ("/" ∷ path_escape environment_id ∷ [])) []
          (some (encode_environment_patch patch)) environment_target
    lift (validate_environment environment)

  unfoldable pub delete_environment : (project_id environment_id : String) → Exec Error (Unit {0})
  delete_environment project_id environment_id =
      exchange_with platform c Method.delete
        (environments_path project_id ("/" ∷ path_escape environment_id ∷ [])) [] none no_target

  unfoldable pub restore_environment : (project_id environment_id : String) → Exec Error Environment
  unfolding environment_target
  restore_environment project_id environment_id = do
    environment ←
        exchange_with platform c Method.post
          (environments_path project_id ("/" ∷ path_escape environment_id ∷ "/restore" ∷ [])) []
          none environment_target
    lift (validate_environment environment)
