-- ===== src/Client/Wire.antt =====
-- The structs of internal/infisicalclient that are read from responses, with their decoding, and
-- those that are written to requests, with their encoding: logins, organizations, projects and
-- environments. The decoders of environments take the test of time texts.
pub mod Identities
pub mod Memberships
pub mod UniversalAuth
pub mod KubernetesAuth
use infisical_entity_operato.Base.{
  ℤ, String, Bool, true, false, Option, none, some, List, ◌==◌, if◌then◌else◌,
}
use infisical_entity_operato.Result.{Result, ok, err, ◌>>=◌}
use infisical_entity_operato.Failure.{Error, plain, invalid_response}
use infisical_entity_operato.Json.{
  Json, Fields, bool, num, str, obj, end, field, omit_empty, omit_nil, member, string_of, bool_of,
  int_of, time_of, object_of, items_of, of_nil,
}

-- The response of a Universal Auth login; `expires_in` is in whole seconds.
pub record Login : Type 0 where
  pub access_token : String
  pub expires_in : ℤ
  pub token_type : String

unfoldable pub decode_login : Fields → Result Error Login
decode_login fs = do
  access_token ← string_of (member "accessToken" fs)
  expires_in ← int_of 63 (member "expiresIn" fs)
  token_type ← string_of (member "tokenType" fs)
  ok (record { access_token = access_token; expires_in = expires_in; token_type = token_type })

abbrev pub no_login : Login
no_login = record { access_token = ""; expires_in = ℤ.pos 0; token_type = "" }

pub record Organization : Type 0 where
  pub id : String
  pub name : String
  pub slug : String

abbrev pub no_organization : Organization
no_organization = record { id = ""; name = ""; slug = "" }

unfoldable pub decode_organization : Fields → Result Error Organization
decode_organization fs = do
  id ← string_of (member "id" fs)
  name ← string_of (member "name" fs)
  slug ← string_of (member "slug" fs)
  ok (record { id = id; name = name; slug = slug })

unfoldable pub validate_organization : Organization → Result Error Organization
validate_organization organization =
    if organization.id == ""
    then err (invalid_response "infisical API returned an organization without an ID")
    else ok organization

pub record CreateOrganizationRequest : Type 0 where
  pub name : String

unfoldable pub encode_create_organization : CreateOrganizationRequest → Json
encode_create_organization request = obj (field "name" (str request.name) end)

pub record Environment : Type 0 where
  pub id : String
  pub name : String
  pub slug : String
  pub position : ℤ
  pub project_id : String
  pub delete_after : Option String
  pub soft_deleted_at : Option String

abbrev pub no_environment : Environment
no_environment = record {
  id = "";
  name = "";
  slug = "";
  position = ℤ.pos 0;
  project_id = "";
  delete_after = none;
  soft_deleted_at = none;
}

unfoldable pub decode_environment : (String → Bool) → Fields → Result Error Environment
decode_environment valid_time fs = do
  id ← string_of (member "id" fs)
  name ← string_of (member "name" fs)
  slug ← string_of (member "slug" fs)
  position ← int_of 31 (member "position" fs)
  project_id ← string_of (member "projectId" fs)
  delete_after ← time_of valid_time (member "deleteAfter" fs)
  soft_deleted_at ← time_of valid_time (member "softDeletedAt" fs)
  ok (record {
    id = id;
    name = name;
    slug = slug;
    position = position;
    project_id = project_id;
    delete_after = delete_after;
    soft_deleted_at = soft_deleted_at;
  })

unfoldable pub validate_environment : Environment → Result Error Environment
validate_environment environment =
    if environment.id == ""
    then err (plain "infisical API returned an environment without an ID")
    else ok environment

pub record CreateEnvironmentRequest : Type 0 where
  pub name : String
  pub slug : String
  pub position : Option ℤ

unfoldable pub encode_create_environment : CreateEnvironmentRequest → Json
encode_create_environment request = obj (
    field "name" (str request.name)
      (field "slug" (str request.slug) (omit_nil "position" num request.position end)))

pub record EnvironmentPatch : Type 0 where
  pub name : String
  pub position : Option ℤ

unfoldable pub encode_environment_patch : EnvironmentPatch → Json
encode_environment_patch patch =
    obj (omit_empty "name" patch.name (omit_nil "position" num patch.position end))

pub record Project : Type 0 where
  pub id : String
  pub name : String
  pub type : String
  pub slug : String
  pub organization_id : String
  pub description : String
  pub has_delete_protection : Bool
  pub environments : List Environment

abbrev pub no_project : Project
no_project = record {
  id = "";
  name = "";
  type = "";
  slug = "";
  organization_id = "";
  description = "";
  has_delete_protection = false;
  environments = List.[];
}

unfoldable pub decode_project : (String → Bool) → Fields → Result Error Project
decode_project valid_time fs = do
  id ← string_of (member "id" fs)
  name ← string_of (member "name" fs)
  type ← string_of (member "type" fs)
  slug ← string_of (member "slug" fs)
  organization_id ← string_of (member "orgId" fs)
  description ← string_of (member "description" fs)
  has_delete_protection ← bool_of (member "hasDeleteProtection" fs)
  environments ←
      items_of (λ v. object_of (decode_environment valid_time) (some v)) (member "environments" fs)
  ok (record {
    id = id;
    name = name;
    type = type;
    slug = slug;
    organization_id = organization_id;
    description = description;
    has_delete_protection = has_delete_protection;
    environments = of_nil environments;
  })

unfoldable pub validate_project : Project → Result Error Project
validate_project project =
    if project.id == ""
    then err (plain "infisical API returned a project without an ID")
    else ok project

pub record CreateProjectRequest : Type 0 where
  pub project_name : String
  pub project_description : String
  pub slug : String
  pub type : String
  pub should_create_default_envs : Bool
  pub has_delete_protection : Bool

unfoldable pub encode_create_project : CreateProjectRequest → Json
encode_create_project request = obj (
    field "projectName" (str request.project_name) (
      omit_empty "projectDescription" request.project_description (
        omit_empty "slug" request.slug (
          field "type" (str request.type) (
            field "shouldCreateDefaultEnvs" (bool request.should_create_default_envs)
              (field "hasDeleteProtection" (bool request.has_delete_protection) end))))))

pub record ProjectPatch : Type 0 where
  pub name : String
  pub description : String
  pub slug : String
  pub has_delete_protection : Option Bool

unfoldable pub encode_project_patch : ProjectPatch → Json
encode_project_patch patch = obj (
    omit_empty "name" patch.name (
      omit_empty "description" patch.description (
        omit_empty "slug" patch.slug
          (omit_nil "hasDeleteProtection" bool patch.has_delete_protection end))))
