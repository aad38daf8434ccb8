-- ===== src/Controller/Identity/Spec.antt =====
-- infisicalidentity_controller.go: the checks of a specification, and its defaults.
pub mod Accepted
use infisical_entity_operato.Base.{
  String, Bool, true, false, not, ◌&&◌, Option, none, some, List, [], ◌∷◌, ◌==◌, any, contains,
  is_empty, concat, quote, if◌then◌else◌,
}
use infisical_entity_operato.Result.{Result, ok, err}
use infisical_entity_operato.Failure.{Error, plain, wrapped}
use infisical_entity_operato.Api.{
  LocalObjectReference, InfisicalIdentity, IdentityScope, identity_scope_project,
  identity_scope_organization, IdentityProjectRoleBinding,
}
use infisical_entity_operato.Controller.Policies.{or_name}
use infisical_entity_operato.Controller.Roles.{
  infisical_admin_role, infisical_no_access_role, identity_role_slugs,
}

unfoldable pub identity_scope : InfisicalIdentity → IdentityScope
identity_scope identity =
    if identity.spec.scope == "" then identity_scope_project else identity.spec.scope

unfoldable pub organization_role : InfisicalIdentity → String
organization_role identity =
    if identity.spec.organization_role == ""
    then infisical_no_access_role
    else identity.spec.organization_role

unfoldable pub identity_name : InfisicalIdentity → String
identity_name identity = or_name identity.spec.identity_name identity.meta.name

-- The name of a reference; a nil reference, which the code would not survive, has none.
abbrev pub name_of : Option LocalObjectReference → String
name_of none = ""
name_of (some ref) = ref.name

abbrev pub is_nil {ℓ} : {A : Type ℓ} → Option A → Bool
is_nil none = true
is_nil (some a) = false

abbrev pub error_in {ℓ} : {A : Type ℓ} → Result Error A → Option Error
error_in (ok a) = none
error_in (err e) = some e

unfoldable pub project_scope_error : InfisicalIdentity → Option Error
project_scope_error identity =
    let spec = identity.spec in
    if name_of spec.project_ref == ""
    then some (plain "projectRef is required for Project scope")
    else if not (is_nil spec.organization_ref)
    then some (plain "organizationRef is only valid for Organization scope")
    else if not (spec.organization_role == "")
    then some (plain "organizationRole is only valid for Organization scope")
    else if not (is_empty spec.project_role_bindings)
    then some (plain "projectRoleBindings is only valid for Organization scope")
    else error_in (identity_role_slugs spec.role_slugs)

abbrev pub organization_roles : List String
organization_roles = infisical_admin_role ∷ "member" ∷ infisical_no_access_role ∷ []

-- The checks of one binding, after those of the projects in `seen`
unfoldable pub binding_error : (seen : List String) → IdentityProjectRoleBinding → Option Error
binding_error seen binding =
    let name = binding.project_ref.name in
    if name == ""
    then some (plain "projectRoleBindings cannot contain an empty projectRef")
    else if contains name seen
    then some
        (plain (concat ("projectRoleBindings contains duplicate projectRef " ∷ quote name ∷ [])))
    else elim (identity_role_slugs binding.role_slugs) [
      | ok role_slugs ↦ none
      | err e ↦ some (wrapped (concat ("projectRoleBindings project " ∷ quote name ∷ ": " ∷ [])) e)
    ]

unfoldable pub bindings_error :
    (seen : List String) → List IdentityProjectRoleBinding → Option Error
unfolding binding_error
bindings_error seen [] = none
bindings_error seen (binding ∷ rest) =
    let later = bindings_error (binding.project_ref.name ∷ seen) rest in
    elim (binding_error seen binding) [ some e ↦ some e | none ↦ later ]

unfoldable pub organization_scope_error : InfisicalIdentity → Option Error
unfolding bindings_error
organization_scope_error identity =
    let spec = identity.spec in
    if name_of spec.organization_ref == ""
    then some (plain "organizationRef is required for Organization scope")
    else if not (name_of spec.project_ref == "")
    then some (plain "projectRef is only valid for Project scope")
    else if not (spec.organization_role == "")
        && not (contains spec.organization_role organization_roles)
    then some (
        plain (
          concat (
            "organization role "
            ∷ quote spec.organization_role
            ∷ " is not a built-in free-tier role; custom roles are not supported"
            ∷ [])))
    else bindings_error [] spec.project_role_bindings

unfoldable pub validate_identity_spec : InfisicalIdentity → Option Error
unfolding identity_scope project_scope_error organization_scope_error
validate_identity_spec identity =
    if identity_scope identity == identity_scope_project
    then project_scope_error identity
    else if identity_scope identity == identity_scope_organization
    then organization_scope_error identity
    else some (plain (concat ("scope " ∷ quote identity.spec.scope ∷ " is unsupported" ∷ [])))

unfoldable pub identity_references_project : InfisicalIdentity → String → Bool
identity_references_project identity project_name = elim identity.spec.project_ref [
  | some ref ↦
      if ref.name == project_name
      then true
      else any (λ b. b.project_ref.name == project_name) identity.spec.project_role_bindings
  | none ↦ any (λ b. b.project_ref.name == project_name) identity.spec.project_role_bindings
]

unfoldable pub identity_references_organization : InfisicalIdentity → String → Bool
identity_references_organization identity organization_name = elim identity.spec.organization_ref [
  | some ref ↦ ref.name == organization_name
  | none ↦ false
]
