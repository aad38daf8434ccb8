-- ===== src/Controller/Identity/Spec/Accepted.antt =====
-- Which specifications of an identity are accepted.
use infisical_entity_operato.Base.{
  String, true, false, ◌≡◌, ◌≢◌, ◌↔◌, ◌⊎◌, inl, inr, if◌then◌else◌, Option, none, some, List, [],
  ◌∷◌, map, All, contains, is_empty, ◌==◌, arith, eq_iff,
}
use infisical_entity_operato.Failure.{Error}
use infisical_entity_operato.Api.{
  InfisicalIdentity, InfisicalIdentitySpec, IdentityProjectRoleBinding, LocalObjectReference,
  identity_scope_project, identity_scope_organization,
}
use infisical_entity_operato.Controller.Roles.{identity_role_slugs}
use infisical_entity_operato.Controller.Roles.Slugs.{IsProjectRole, Fresh, slugs_error_iff}
use infisical_entity_operato.Controller.Identity.Valid.{Names, name_of-Names}
use infisical_entity_operato.Controller.Identity.Spec.{
  identity_scope, project_scope_error, organization_scope_error, organization_roles,
  validate_identity_spec, name_of, is_nil, error_in, binding_error, bindings_error,
}

-- Built-in roles, none of them twice
abbrev pub AreRoles : List String → Type 0
AreRoles slugs = All IsProjectRole slugs × Fresh [] slugs

-- The binding names a project, and its roles are accepted.
abbrev pub IsBinding : IdentityProjectRoleBinding → Type 0
IsBinding binding = (binding.project_ref.name ≢ "") × AreRoles binding.role_slugs

-- No two bindings are of one project, and none is of a project seen before.
abbrev pub AreBindings : (seen : List String) → List IdentityProjectRoleBinding → Type 0
AreBindings seen bindings =
    All IsBinding bindings × Fresh seen (map (λ b. b.project_ref.name) bindings)

roles_iff : (slugs : List String) → (error_in (identity_role_slugs slugs) ≡ none) ↔ AreRoles slugs
unfolding identity_role_slugs
roles_iff slugs = ground (arith, slugs_error_iff [] slugs)

binding_error_iff :
    (seen : List String) (binding : IdentityProjectRoleBinding)
    → (binding_error seen binding ≡ none)
      ↔ (IsBinding binding × (contains binding.project_ref.name seen ≡ false))
unfolding binding_error identity_role_slugs
binding_error_iff seen binding =
    ground (arith, eq_iff binding.project_ref.name "", slugs_error_iff [] binding.role_slugs)

bindings_error_iff :
    (seen : List String) (bindings : List IdentityProjectRoleBinding)
    → (bindings_error seen bindings ≡ none) ↔ AreBindings seen bindings
unfolding bindings_error
bindings_error_iff seen [] = ground arith
bindings_error_iff seen (binding ∷ rest) = ground (
  arith,
  binding_error_iff seen binding,
  bindings_error_iff (binding.project_ref.name ∷ seen) rest,
)

Names-iff : (o : Option LocalObjectReference) → ((name_of o == "") ≡ false) ↔ Names o
Names-iff o = (
  (λ h. name_of-Names o (λ e. ground (arith, (eq_iff (name_of o) "").1 e))),
  (λ (ref, is, ne). rw is (ground (arith, eq_iff ref.name ""))),
)

is_nil_iff {ℓ} : {A : Type ℓ} (o : Option A) → (is_nil o ≡ true) ↔ (o ≡ none)
is_nil_iff none = ground arith
is_nil_iff (some a) = ground arith

is_empty_iff {ℓ} : {A : Type ℓ} (xs : List A) → (is_empty xs ≡ true) ↔ (xs ≡ [])
is_empty_iff [] = ground arith
is_empty_iff (x ∷ xs) = ground arith

-- In the scope Project: a project, and roles in it; nothing that belongs to an organization
pub record IsProjectSpec (spec : InfisicalIdentitySpec) : Type 0 where
  pub project : Names spec.project_ref
  pub organization : spec.organization_ref ≡ none
  pub organization_role : spec.organization_role ≡ ""
  pub bindings : spec.project_role_bindings ≡ []
  pub roles : AreRoles spec.role_slugs

-- In the scope Organization: an organization, no or a built-in role in it, and roles in projects
pub record IsOrganizationSpec (spec : InfisicalIdentitySpec) : Type 0 where
  pub organization : Names spec.organization_ref
  pub project : name_of spec.project_ref ≡ ""
  pub organization_role :
      (spec.organization_role ≡ "") ⊎ (contains spec.organization_role organization_roles ≡ true)
  pub bindings : AreBindings [] spec.project_role_bindings

by_scope :
    (scope : String) (project organization : Option Error) (e : Error)
    → ((if scope == identity_scope_project
          then project
          else if scope == identity_scope_organization
          then organization
          else some e)
        ≡ none)
      ↔ (((scope ≡ identity_scope_project) × (project ≡ none))
          ⊎ ((scope ≡ identity_scope_organization) × (organization ≡ none)))
by_scope scope project organization e = ground (
  arith,
  eq_iff scope identity_scope_project,
  eq_iff scope identity_scope_organization,
  eq_iff identity_scope_project identity_scope_organization,
)

module _ (identity : InfisicalIdentity) where
  project_scope_iff : (project_scope_error identity ≡ none) ↔ IsProjectSpec identity.spec
  unfolding project_scope_error
  project_scope_iff = ground (
    arith,
    Names-iff identity.spec.project_ref,
    is_nil_iff identity.spec.organization_ref,
    eq_iff identity.spec.organization_role "",
    is_empty_iff identity.spec.project_role_bindings,
    roles_iff identity.spec.role_slugs,
  )

  organization_scope_iff :
      (organization_scope_error identity ≡ none) ↔ IsOrganizationSpec identity.spec
  unfolding organization_scope_error
  organization_scope_iff = ground (
    arith,
    Names-iff identity.spec.organization_ref,
    eq_iff (name_of identity.spec.project_ref) "",
    eq_iff identity.spec.organization_role "",
    bindings_error_iff [] identity.spec.project_role_bindings,
  )

  -- A specification of an identity is accepted in two cases. With the scope Project it names a project,
  -- has nothing of an organization, and its roles are built-in ones, none twice. With the scope
  -- Organization it names an organization and no project, no two bindings are of one project, and the
  -- roles of each binding are built-in ones, none twice; the role slugs of the specification itself are
  -- not looked at.
  pub validate_identity_spec_iff : (validate_identity_spec identity ≡ none) ↔ (
      ((identity_scope identity ≡ identity_scope_project) × IsProjectSpec identity.spec)
      ⊎ ((identity_scope identity ≡ identity_scope_organization)
          × IsOrganizationSpec identity.spec))
  unfolding validate_identity_spec
  validate_identity_spec_iff =
      let scoped =
        by_scope (identity_scope identity) (project_scope_error identity)
          (organization_scope_error identity) _ in
      (
        (λ h. elim (scoped.0 h) [
          | inl (is, valid) ↦ inl (is, project_scope_iff.0 valid)
          | inr (is, valid) ↦ inr (is, organization_scope_iff.0 valid)
        ]),
        (λ h. scoped.1 (elim h [
          | inl (is, valid) ↦ inl (is, project_scope_iff.1 valid)
          | inr (is, valid) ↦ inr (is, organization_scope_iff.1 valid)
        ])),
      )
