-- ===== src/Controller/Identity/Drift.antt =====
-- When an identity is updated.
use infisical_entity_operato.Base.{
  ◌≡◌, ◌≢◌, ◌↔◌, ◌⊎◌, Bool, false, Option, none, some, bool_eq_iff, arith, eq_iff,
}
use infisical_entity_operato.Api.{InfisicalIdentity, IdentityScope, identity_scope_organization}
use infisical_entity_operato.Client.Wire.Identities.{Identity}
use infisical_entity_operato.Controller.Roles.MetadataEqual.{
  MetadataAgrees, items_there, identity_metadata_equal_iff,
}
use infisical_entity_operato.Controller.Identity.Spec.{identity_name, organization_role}
use infisical_entity_operato.Controller.Identity.State.{protection_differs, identity_needs_update}

protection_differs_iff :
    (o : Option Bool) (b : Bool) → (protection_differs o b ≡ false) ↔ ((o ≡ none) ⊎ (o ≡ some b))
protection_differs_iff none b = ground arith
protection_differs_iff (some want) b = ground (arith, bool_eq_iff b want)

-- An identity is left as it is exactly when its name, and in an organization its role, are those that
-- are asked for, its delete protection too, where it is asked for, and its metadata agrees, where it is
-- asked for: it has as many items, none of them with the key of another, as is so of those asked for, and
-- under the key of each of these it has the value asked for, be it the empty text for a key that is missing.
pub identity_needs_update_iff :
    (identity : InfisicalIdentity) (current : Identity) (scope : IdentityScope)
    → (identity_needs_update identity current scope ≡ false) ↔ (
        (current.name ≡ identity_name identity)
        × ((identity.spec.has_delete_protection ≡ none)
            ⊎ (identity.spec.has_delete_protection ≡ some current.has_delete_protection))
        × ((scope ≢ identity_scope_organization)
            ⊎ (current.organization_role ≡ organization_role identity))
        × MetadataAgrees identity.spec.metadata (items_there current.metadata))
unfolding identity_needs_update
identity_needs_update_iff identity current scope = ground (
  arith,
  eq_iff current.name (identity_name identity),
  eq_iff scope identity_scope_organization,
  eq_iff current.organization_role (organization_role identity),
  protection_differs_iff identity.spec.has_delete_protection current.has_delete_protection,
  identity_metadata_equal_iff identity.spec.metadata current.metadata,
)
