-- ===== src/Controller/Roles.antt =====
-- internal/controller/infisical/common.go: role slugs and metadata of identities.
pub mod Slugs
pub mod Agreement
pub mod MetadataEqual
mod Tests
use infisical_entity_operato.Base.{
  String, Bool, true, false, not, ◌&&◌, Option, none, some, List, [], ◌∷◌, map, ◌==◌, nat_eq,
  length, contains, is_empty, all, lookup, insert, sort_by, sort_strings, is_blank, concat, quote,
  if◌then◌else◌,
}
use infisical_entity_operato.Result.{Result, ok, err}
use infisical_entity_operato.Failure.{Error, plain}
use infisical_entity_operato.Api.{IdentityMetadata, IdentityRoleStatus}
use infisical_entity_operato.Client.Wire.Identities.{Metadata}
use infisical_entity_operato.Client.Wire.Memberships.{IdentityMembershipRole, slug, role_name}

abbrev pub infisical_admin_role : String
infisical_admin_role = "admin"

abbrev pub infisical_no_access_role : String
infisical_no_access_role = "no-access"

abbrev pub project_roles : List String
project_roles = infisical_admin_role ∷ "member" ∷ "viewer" ∷ infisical_no_access_role ∷ []

-- The checks of one slug, after those in `seen`
unfoldable pub slug_error : (seen : List String) (role_slug : String) → Option Error
slug_error seen role_slug =
    if is_blank role_slug
    then some (plain "roleSlugs cannot contain an empty value")
    else if not (contains role_slug project_roles)
    then some (
        plain (
          concat (
            "project role "
            ∷ quote role_slug
            ∷ " is not a built-in free-tier role; custom roles are not supported"
            ∷ [])))
    else if contains role_slug seen
    then some (plain (concat ("roleSlugs contains duplicate value " ∷ quote role_slug ∷ [])))
    else none

-- The loop over the slugs: its first error
unfoldable pub slugs_error : (seen : List String) → List String → Option Error
unfolding slug_error
slugs_error seen [] = none
slugs_error seen (role_slug ∷ rest) =
    let later = slugs_error (role_slug ∷ seen) rest in
    elim (slug_error seen role_slug) [ some e ↦ some e | none ↦ later ]

-- A nil slice is the empty list.
unfoldable pub identity_role_slugs : List String → Result Error (List String)
unfolding slugs_error
identity_role_slugs spec = elim (slugs_error [] spec) [
  | some e ↦ err e
  | none ↦ ok (sort_strings spec)
]

unfoldable pub equal_texts : List String → List String → Bool
equal_texts [] [] = true
equal_texts (s ∷ ss) (t ∷ ts) = s == t && equal_texts ss ts
equal_texts _ _ = false

-- `want` is nil where it is empty, and reflect.DeepEqual tells that from an empty slice.
unfoldable pub identity_role_slugs_equal : List String → List IdentityMembershipRole → Bool
unfolding equal_texts
identity_role_slugs_equal want current =
    all (λ role. not role.is_temporary) current
    && not (is_empty want)
    && equal_texts want (sort_strings (map slug current))

-- Roles of one slug may come in either order; here they keep theirs.
unfoldable pub identity_role_statuses_from : List IdentityMembershipRole → List IdentityRoleStatus
identity_role_statuses_from roles =
    sort_by (λ status. status.slug)
      (map
        (λ role. record {
          role_id = role.id;
          slug = slug role;
          name = role_name role;
          is_temporary = role.is_temporary;
        })
        roles)

unfoldable pub identity_metadata_from : Option (List IdentityMetadata) → Option (List Metadata)
identity_metadata_from none = none
identity_metadata_from (some spec) =
    some (map (λ item. record { id = ""; key = item.key; value = item.value }) spec)

-- The maps that the loops of identityMetadataEqual build
unfoldable pub wanted_map : List IdentityMetadata → List (String × String) → List (String × String)
wanted_map [] m = m
wanted_map (item ∷ rest) m = wanted_map rest (insert item.key item.value m)

unfoldable pub observed_map : List Metadata → List (String × String) → List (String × String)
observed_map [] m = m
observed_map (item ∷ rest) m = observed_map rest (insert item.key item.value m)

-- A missing key reads as the empty text.
abbrev pub value_at : String → List (String × String) → String
value_at k m = elim (lookup k m) [ none ↦ "" | some v ↦ v ]

unfoldable pub identity_metadata_equal :
    Option (List IdentityMetadata) → Option (List Metadata) → Bool
unfolding wanted_map observed_map
identity_metadata_equal none current = true
identity_metadata_equal (some want) current =
    let present : List Metadata = elim current [ none ↦ [] | some items ↦ items ] in
    let wanted = wanted_map want [] in
    let observed = observed_map present [] in
    nat_eq (length want) (length present)
    && nat_eq (length wanted) (length want)
    && nat_eq (length observed) (length present)
    && all (λ entry. value_at entry.0 observed == entry.1) wanted
