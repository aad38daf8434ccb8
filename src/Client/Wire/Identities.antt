-- ===== src/Client/Wire/Identities.antt =====
-- The structs of internal/infisicalclient/identities.go, with their decoding and encoding. A slice
-- that can be nil is `none` where the code tells it from the empty one.
use infisical_entity_operato.Base.{
  String, Bool, false, not, Option, none, some, List, ◌==◌, if◌then◌else◌,
}
use infisical_entity_operato.Result.{Result, ok, err, ◌>>=◌}
use infisical_entity_operato.Failure.{Error, plain}
use infisical_entity_operato.Json.{
  Json, Fields, bool, str, arr, obj, end, field, items, omit_empty, omit_nil, omit_no_items, member,
  string_of, bool_of, object_of, items_of,
}

pub record Metadata : Type 0 where
  pub id : String
  pub key : String
  pub value : String

unfoldable pub decode_metadata : Json → Result Error Metadata
decode_metadata v =
    object_of
      (λ fs. do
        id ← string_of (member "id" fs)
        key ← string_of (member "key" fs)
        value ← string_of (member "value" fs)
        ok (record { id = id; key = key; value = value }))
      (some v)

unfoldable pub encode_metadata : Metadata → Json
encode_metadata item =
    obj (omit_empty "id" item.id (field "key" (str item.key) (field "value" (str item.value) end)))

pub record Identity : Type 0 where
  pub id : String
  pub name : String
  pub project_id : String
  pub organization_id : String
  pub organization_role : String
  pub has_delete_protection : Bool
  pub metadata : Option (List Metadata)

abbrev pub no_identity : Identity
no_identity = record {
  id = "";
  name = "";
  project_id = "";
  organization_id = "";
  organization_role = "";
  has_delete_protection = false;
  metadata = none;
}

unfoldable pub decode_identity : Fields → Result Error Identity
decode_identity fs = do
  id ← string_of (member "id" fs)
  name ← string_of (member "name" fs)
  project_id ← string_of (member "projectId" fs)
  organization_id ← string_of (member "orgId" fs)
  organization_role ← string_of (member "role" fs)
  has_delete_protection ← bool_of (member "hasDeleteProtection" fs)
  metadata ← items_of decode_metadata (member "metadata" fs)
  ok (record {
    id = id;
    name = name;
    project_id = project_id;
    organization_id = organization_id;
    organization_role = organization_role;
    has_delete_protection = has_delete_protection;
    metadata = metadata;
  })

unfoldable pub validate_identity : Identity → Result Error Identity
validate_identity identity =
    if identity.id == ""
    then err (plain "infisical API returned an identity without an ID")
    else ok identity

pub record OrganizationIdentityDetails : Type 0 where
  pub id : String
  pub name : String
  pub organization_id : String
  pub role : String
  pub has_delete_protection : Bool
  pub metadata : Option (List Metadata)

unfoldable pub decode_details : Fields → Result Error OrganizationIdentityDetails
decode_details fs = do
  id ← string_of (member "id" fs)
  name ← string_of (member "name" fs)
  organization_id ← string_of (member "orgId" fs)
  role ← string_of (member "role" fs)
  has_delete_protection ← bool_of (member "hasDeleteProtection" fs)
  metadata ← items_of decode_metadata (member "metadata" fs)
  ok (record {
    id = id;
    name = name;
    organization_id = organization_id;
    role = role;
    has_delete_protection = has_delete_protection;
    metadata = metadata;
  })

pub record OrganizationIdentityListItem : Type 0 where
  pub id : String
  pub identity_id : String
  pub name : String
  pub organization_id : String
  pub role : String
  pub has_delete_protection : Bool
  pub metadata : Option (List Metadata)
  pub identity : OrganizationIdentityDetails

unfoldable pub decode_list_item : Fields → Result Error OrganizationIdentityListItem
decode_list_item fs = do
  id ← string_of (member "id" fs)
  identity_id ← string_of (member "identityId" fs)
  name ← string_of (member "name" fs)
  organization_id ← string_of (member "orgId" fs)
  role ← string_of (member "role" fs)
  has_delete_protection ← bool_of (member "hasDeleteProtection" fs)
  metadata ← items_of decode_metadata (member "metadata" fs)
  identity ← object_of decode_details (member "identity" fs)
  ok (record {
    id = id;
    identity_id = identity_id;
    name = name;
    organization_id = organization_id;
    role = role;
    has_delete_protection = has_delete_protection;
    metadata = metadata;
    identity = identity;
  })

abbrev pub no_details : OrganizationIdentityDetails
no_details = record {
  id = "";
  name = "";
  organization_id = "";
  role = "";
  has_delete_protection = false;
  metadata = none;
}

abbrev pub no_list_item : OrganizationIdentityListItem
no_list_item = record {
  id = "";
  identity_id = "";
  name = "";
  organization_id = "";
  role = "";
  has_delete_protection = false;
  metadata = none;
  identity = no_details;
}

-- `if s == "" { s = t }`
abbrev pub or_text : String → String → String
or_text s t = if s == "" then t else s

abbrev or_items : Option (List Metadata) → Option (List Metadata) → Option (List Metadata)
or_items none ys = ys
or_items (some xs) ys = some xs

unfoldable pub as_identity : OrganizationIdentityListItem → Identity
as_identity item =
    let nested = item.identity in
    record {
      id = or_text (or_text nested.id item.identity_id) item.id;
      name = or_text nested.name item.name;
      project_id = "";
      organization_id = or_text nested.organization_id item.organization_id;
      organization_role = or_text nested.role item.role;
      has_delete_protection =
          if not nested.has_delete_protection
          then item.has_delete_protection
          else nested.has_delete_protection;
      metadata = or_items nested.metadata item.metadata;
    }

pub record CreateIdentityRequest : Type 0 where
  pub name : String
  pub has_delete_protection : Bool
  pub metadata : Option (List Metadata)

unfoldable pub encode_create_identity : CreateIdentityRequest → Json
encode_create_identity request = obj (
    field "name" (str request.name) (
      field "hasDeleteProtection" (bool request.has_delete_protection)
        (omit_no_items "metadata" encode_metadata request.metadata end)))

pub record CreateOrganizationIdentityRequest : Type 0 where
  pub name : String
  pub organization_id : String
  pub role : String
  pub has_delete_protection : Bool
  pub metadata : Option (List Metadata)

unfoldable pub encode_create_organization_identity : CreateOrganizationIdentityRequest → Json
encode_create_organization_identity request = obj (
    field "name" (str request.name) (
      field "organizationId" (str request.organization_id) (
        field "role" (str request.role) (
          field "hasDeleteProtection" (bool request.has_delete_protection)
            (omit_no_items "metadata" encode_metadata request.metadata end)))))

-- `metadata` is a pointer to a slice: it is written also where the slice is empty.
pub record IdentityPatch : Type 0 where
  pub name : String
  pub role : Option String
  pub has_delete_protection : Option Bool
  pub metadata : Option (List Metadata)

unfoldable pub encode_identity_patch : IdentityPatch → Json
encode_identity_patch patch = obj (
    omit_empty "name" patch.name (
      omit_nil "role" str patch.role (
        omit_nil "hasDeleteProtection" bool patch.has_delete_protection
          (omit_nil "metadata" (λ xs. arr (items encode_metadata xs)) patch.metadata end))))
