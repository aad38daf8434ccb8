-- ===== src/Client/Wire/Memberships.antt =====
-- The structs of memberships in internal/infisicalclient/identities.go, with their decoding and
-- encoding.
use infisical_entity_operato.Base.{String, Bool, false, some, List, [], map, ◌==◌, if◌then◌else◌}
use infisical_entity_operato.Result.{Result, ok, err, ◌>>=◌}
use infisical_entity_operato.Failure.{Error, plain}
use infisical_entity_operato.Json.{
  Json, Fields, bool, str, arr, obj, end, field, items, member, string_of, bool_of, object_of,
  items_of, of_nil,
}

pub record IdentityMembershipRole : Type 0 where
  pub id : String
  pub role : String
  pub is_temporary : Bool

abbrev pub slug : IdentityMembershipRole → String
slug role = role.role

abbrev pub role_name : IdentityMembershipRole → String
role_name role = role.role

unfoldable pub decode_membership_role : Json → Result Error IdentityMembershipRole
decode_membership_role v =
    object_of
      (λ fs. do
        id ← string_of (member "id" fs)
        role ← string_of (member "role" fs)
        is_temporary ← bool_of (member "isTemporary" fs)
        ok (record { id = id; role = role; is_temporary = is_temporary }))
      (some v)

pub record IdentityMembership : Type 0 where
  pub id : String
  pub project_id : String
  pub identity_id : String
  pub roles : List IdentityMembershipRole

abbrev pub no_membership : IdentityMembership
no_membership = record { id = ""; project_id = ""; identity_id = ""; roles = [] }

unfoldable pub decode_membership : Fields → Result Error IdentityMembership
decode_membership fs = do
  id ← string_of (member "id" fs)
  project_id ← string_of (member "projectId" fs)
  identity_id ← string_of (member "identityId" fs)
  roles ← items_of decode_membership_role (member "roles" fs)
  ok (record { id = id; project_id = project_id; identity_id = identity_id; roles = of_nil roles })

unfoldable pub validate_identity_membership : IdentityMembership → Result Error IdentityMembership
validate_identity_membership membership =
    if membership.id == ""
    then err (plain "infisical API returned an identity membership without an ID")
    else ok membership

pub record IdentityMembershipRoleRequest : Type 0 where
  pub role : String
  pub is_temporary : Bool

pub record IdentityMembershipRequest : Type 0 where
  pub roles : List IdentityMembershipRoleRequest

unfoldable pub encode_role_request : IdentityMembershipRoleRequest → Json
encode_role_request request =
    obj (field "role" (str request.role) (field "isTemporary" (bool request.is_temporary) end))

unfoldable pub encode_membership_request : IdentityMembershipRequest → Json
encode_membership_request request =
    obj (field "roles" (arr (items encode_role_request request.roles)) end)

unfoldable pub identity_membership_request : List String → IdentityMembershipRequest
identity_membership_request role_slugs = record {
  roles = map (λ role_slug. record { role = role_slug; is_temporary = false }) role_slugs;
}
