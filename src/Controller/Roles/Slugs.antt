-- ===== src/Controller/Roles/Slugs.antt =====
-- Which role slugs the code accepts.
use infisical_entity_operato.Base.{
  String, ◌≡◌, refl, ◌↔◌, true, false, none, List, [], ◌∷◌, ◌==◌, All, contains, is_blank,
  trim_space, sort_strings, arith, eq_iff,
}
use infisical_entity_operato.Result.{ok}
use infisical_entity_operato.Controller.Roles.{
  project_roles, slug_error, slugs_error, identity_role_slugs,
}

-- One of "admin", "member", "viewer" and "no-access"
abbrev pub IsProjectRole : String → Type 0
IsProjectRole s = contains s project_roles ≡ true

-- No slug occurs twice, and none is among those seen before.
abbrev pub Fresh : (seen : List String) → List String → Type 0
Fresh seen [] = Unit
Fresh seen (s ∷ rest) = (contains s seen ≡ false) × Fresh (s ∷ seen) rest

known : (s t : String) → is_blank t ≡ false → (s == t) ≡ true → is_blank s ≡ false
known s t h e = rw ((eq_iff s t).0 e) h

role-not_blank : (s : String) → IsProjectRole s → is_blank s ≡ false
unfolding contains trim_space
role-not_blank s h = ground (
  arith,
  known s "admin" refl,
  known s "member" refl,
  known s "viewer" refl,
  known s "no-access" refl,
)

slug_error_iff :
    (seen : List String) (s : String)
    → (slug_error seen s ≡ none) ↔ (IsProjectRole s × (contains s seen ≡ false))
unfolding slug_error
slug_error_iff seen s = ground (arith, role-not_blank s)

pub slugs_error_iff :
    (seen slugs : List String)
    → (slugs_error seen slugs ≡ none) ↔ (All IsProjectRole slugs × Fresh seen slugs)
unfolding slugs_error
slugs_error_iff seen [] = ground arith
slugs_error_iff seen (s ∷ rest) =
    ground (arith, slug_error_iff seen s, slugs_error_iff (s ∷ seen) rest)

-- The slugs are accepted exactly when each is a built-in role and none occurs twice; the result is
-- then the sorted list.
pub identity_role_slugs_iff :
    (slugs result : List String)
    → (identity_role_slugs slugs ≡ ok result)
      ↔ ((All IsProjectRole slugs × Fresh [] slugs) × (sort_strings slugs ≡ result))
unfolding identity_role_slugs
identity_role_slugs_iff slugs result = ground (arith, slugs_error_iff [] slugs)
