-- ===== src/Controller/Roles/Tests.antt =====
-- Instances of the theorems on role slugs.
use infisical_entity_operato.Base.{
  ◌≡◌, refl, ◌↔◌, true, false, [], ◌∷◌, All, map, sort_strings, contains, trim_space, insert_by,
  str_le,
}
use mathlib.Core.List.{Permᴰ}
use infisical_entity_operato.Result.{ok}
use infisical_entity_operato.Client.Wire.Memberships.{IdentityMembershipRole, slug}
use infisical_entity_operato.Controller.Roles.{
  identity_role_slugs, identity_role_slugs_equal, slug_error,
}
use infisical_entity_operato.Controller.Roles.Agreement.{IsPermanent, identity_role_slugs_equal_iff}

sorted_run : identity_role_slugs ("viewer" ∷ "admin" ∷ []) ≡ ok ("admin" ∷ "viewer" ∷ [])
unfolding identity_role_slugs slug_error contains trim_space sort_strings insert_by str_le
sorted_run = refl

abbrev admin : IdentityMembershipRole
admin = record { id = "r-1"; role = "admin"; is_temporary = false }

identity_role_slugs_equal-iff_example :
    (identity_role_slugs_equal ("admin" ∷ "viewer" ∷ []) (admin ∷ []) ≡ true)
    ↔ (All IsPermanent (admin ∷ []) × Permᴰ ("viewer" ∷ "admin" ∷ []) (map slug (admin ∷ [])))
identity_role_slugs_equal-iff_example =
    identity_role_slugs_equal_iff ("viewer" ∷ "admin" ∷ []) ("admin" ∷ "viewer" ∷ []) (admin ∷ [])
      sorted_run refl
