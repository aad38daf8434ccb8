-- ===== src/Api/Identities.antt =====
-- api/infisical/v1alpha1/infisicalidentity_types.go. `metadata` of the specification can be nil,
-- which the code tells from the empty list.
use infisical_entity_operato.Base.{ℕ, String, Bool, Option, List, string_discrete, ℕ_discrete}
use infisical_entity_operato.Api.Meta.{
  CreationPolicy, DeletionPolicy, LocalObjectReference, IdentityMetadata, ObjectMeta, Condition,
  LocalObjectReference-discrete, IdentityMetadata-discrete, ObjectMeta-discrete, Condition-discrete,
}

abbrev pub IdentityScope : Type 0
IdentityScope = String

abbrev pub identity_scope_project : IdentityScope
identity_scope_project = "Project"

abbrev pub identity_scope_organization : IdentityScope
identity_scope_organization = "Organization"

pub record IdentityProjectRoleBinding : Type 0 where
  pub project_ref : LocalObjectReference
  pub role_slugs : List String

pub record IdentityRoleStatus : Type 0 where
  pub role_id : String
  pub slug : String
  pub name : String
  pub is_temporary : Bool

pub record IdentityProjectMembershipStatus : Type 0 where
  pub project_id : String
  pub membership_id : String
  pub roles : List IdentityRoleStatus

pub record InfisicalIdentitySpec : Type 0 where
  pub connection_ref : LocalObjectReference
  pub scope : IdentityScope
  pub project_ref : Option LocalObjectReference
  pub organization_ref : Option LocalObjectReference
  pub identity_name : String
  pub has_delete_protection : Option Bool
  pub metadata : Option (List IdentityMetadata)
  pub role_slugs : List String
  pub organization_role : String
  pub project_role_bindings : List IdentityProjectRoleBinding
  pub creation_policy : CreationPolicy
  pub deletion_policy : DeletionPolicy

pub record InfisicalIdentityStatus : Type 0 where
  pub identity_id : String
  pub project_id : String
  pub organization_id : String
  pub organization_role : String
  pub membership_id : String
  pub roles : List IdentityRoleStatus
  pub project_memberships : List IdentityProjectMembershipStatus
  pub observed_generation : ℕ
  pub conditions : List Condition

pub record InfisicalIdentity : Type 0 where
  pub meta : ObjectMeta
  pub spec : InfisicalIdentitySpec
  pub status : InfisicalIdentityStatus

IdentityProjectRoleBinding-discrete : Discrete IdentityProjectRoleBinding
unfolding string_discrete LocalObjectReference-discrete
IdentityProjectRoleBinding-discrete = hlevel (string_discrete, LocalObjectReference-discrete)

IdentityRoleStatus-discrete : Discrete IdentityRoleStatus
unfolding string_discrete
IdentityRoleStatus-discrete = hlevel string_discrete

IdentityProjectMembershipStatus-discrete : Discrete IdentityProjectMembershipStatus
unfolding string_discrete IdentityRoleStatus-discrete
IdentityProjectMembershipStatus-discrete = hlevel (string_discrete, IdentityRoleStatus-discrete)

InfisicalIdentitySpec-discrete : Discrete InfisicalIdentitySpec
unfolding string_discrete LocalObjectReference-discrete IdentityMetadata-discrete
    IdentityProjectRoleBinding-discrete
InfisicalIdentitySpec-discrete = hlevel (
  string_discrete, LocalObjectReference-discrete, IdentityMetadata-discrete,
  IdentityProjectRoleBinding-discrete,
)

InfisicalIdentityStatus-discrete : Discrete InfisicalIdentityStatus
unfolding string_discrete ℕ_discrete Condition-discrete IdentityRoleStatus-discrete
    IdentityProjectMembershipStatus-discrete
InfisicalIdentityStatus-discrete = hlevel (
  string_discrete, ℕ_discrete, Condition-discrete, IdentityRoleStatus-discrete,
  IdentityProjectMembershipStatus-discrete,
)

unfoldable pub InfisicalIdentity-discrete : Discrete InfisicalIdentity
unfolding ObjectMeta-discrete InfisicalIdentitySpec-discrete InfisicalIdentityStatus-discrete
InfisicalIdentity-discrete =
    hlevel (ObjectMeta-discrete, InfisicalIdentitySpec-discrete, InfisicalIdentityStatus-discrete)
