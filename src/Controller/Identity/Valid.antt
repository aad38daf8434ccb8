-- ===== src/Controller/Identity/Valid.antt =====
-- What a valid specification of an identity has.
use infisical_entity_operato.Base.{◌≡◌, ◌≢◌, refl, ◌⊎◌, Option, none, some, arith, eq_iff}
use infisical_entity_operato.Api.{
  InfisicalIdentity, LocalObjectReference, identity_scope_project, identity_scope_organization,
}
use infisical_entity_operato.Controller.Identity.Spec.{
  identity_scope, project_scope_error, organization_scope_error, validate_identity_spec, name_of,
}

-- The reference is there and has a name.
abbrev pub Names : Option LocalObjectReference → Type 0
Names o = (ref : LocalObjectReference) × (o ≡ some ref) × (ref.name ≢ "")

pub name_of-Names : (o : Option LocalObjectReference) → name_of o ≢ "" → Names o
name_of-Names none h = absurd (h refl)
name_of-Names (some ref) h = (ref, refl, h)

-- A valid specification has the scope Project and names a project, or the scope Organization and
-- names an organization: the reference that the reconciliation follows is not nil.
pub validate_identity_spec-Names :
    (identity : InfisicalIdentity)
    → validate_identity_spec identity ≡ none
    → ((identity_scope identity ≡ identity_scope_project) × Names identity.spec.project_ref)
      ⊎ ((identity_scope identity ≡ identity_scope_organization)
          × Names identity.spec.organization_ref)
unfolding validate_identity_spec project_scope_error organization_scope_error
validate_identity_spec-Names identity h = ground (
  arith,
  eq_iff (identity_scope identity) identity_scope_project,
  eq_iff (identity_scope identity) identity_scope_organization,
  eq_iff (name_of identity.spec.project_ref) "",
  eq_iff (name_of identity.spec.organization_ref) "",
  name_of-Names identity.spec.project_ref,
  name_of-Names identity.spec.organization_ref,
)
