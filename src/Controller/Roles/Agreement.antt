-- ===== src/Controller/Roles/Agreement.antt =====
-- When the roles of a membership are the ones that the specification asks for.
use infisical_entity_operato.Base.{
  String, ◌≡◌, ◌↔◌, true, false, not, List, [], ◌∷◌, map, All, all, is_empty, sort_strings, arith,
  eq_iff,
}
use infisical_entity_operato.Base.Sort.Order.{sort_strings-Permᴰ, sort_strings_Permᴰ}
use mathlib.Core.List.{Permᴰ}
use mathlib.Core.List.Permᴰ
use infisical_entity_operato.Result.{ok}
use infisical_entity_operato.Client.Wire.Memberships.{IdentityMembershipRole, slug}
use infisical_entity_operato.Controller.Roles.{
  equal_texts, identity_role_slugs, identity_role_slugs_equal,
}
use infisical_entity_operato.Controller.Roles.Slugs.{identity_role_slugs_iff}

pub equal_texts_iff : (xs ys : List String) → (equal_texts xs ys ≡ true) ↔ (xs ≡ ys)
unfolding equal_texts
equal_texts_iff [] [] = ground arith
equal_texts_iff [] (y ∷ ys) = ground arith
equal_texts_iff (x ∷ xs) [] = ground arith
equal_texts_iff (x ∷ xs) (y ∷ ys) = ground (arith, eq_iff x y, equal_texts_iff xs ys)

-- The role is not a temporary one.
abbrev pub IsPermanent : IdentityMembershipRole → Type 0
IsPermanent role = role.is_temporary ≡ false

all-IsPermanent :
    (roles : List IdentityMembershipRole)
    → (all (λ role. not role.is_temporary) roles ≡ true) ↔ All IsPermanent roles
unfolding all
all-IsPermanent [] = ground arith
all-IsPermanent (role ∷ roles) = ground (arith, all-IsPermanent roles)

sorted-Permᴰ : (xs ys : List String) → (sort_strings xs ≡ sort_strings ys) ↔ Permᴰ xs ys
sorted-Permᴰ xs ys = (
  λ e. Permᴰ.trans (Permᴰ.symm (sort_strings-Permᴰ xs)) (rw (← e) at (sort_strings-Permᴰ ys)),
  sort_strings_Permᴰ xs ys,
)

-- Of slugs that were accepted, at least one, a membership agrees exactly when no role of it is
-- temporary and its slugs are the accepted ones, in any order.
pub identity_role_slugs_equal_iff :
    (slugs want : List String) (current : List IdentityMembershipRole)
    → identity_role_slugs slugs ≡ ok want
    → is_empty want ≡ false
    → (identity_role_slugs_equal want current ≡ true)
      ↔ (All IsPermanent current × Permᴰ slugs (map slug current))
unfolding identity_role_slugs_equal
identity_role_slugs_equal_iff slugs want current accepted some =
    let is : sort_strings slugs ≡ want = ((identity_role_slugs_iff slugs want).0 accepted).1 in
    ground (
      arith,
      is,
      all-IsPermanent current,
      equal_texts_iff want (sort_strings (map slug current)),
      sorted-Permᴰ slugs (map slug current),
    )
