-- ===== src/Controller/Policies.antt =====
-- internal/controller/infisical/common.go: policies and defaults.
use infisical_entity_operato.Base.{
  arith, ◌≡◌, true, false, String, Bool, ◌||◌, Option, none, some, ◌==◌, if◌then◌else◌,
}
use infisical_entity_operato.Api.{
  CreationPolicy, creation_policy_create, creation_policy_adopt, creation_policy_create_or_adopt,
  DeletionPolicy, deletion_policy_orphan,
}

unfoldable pub deletion_policy : DeletionPolicy → DeletionPolicy
deletion_policy policy = if policy == "" then deletion_policy_orphan else policy

unfoldable pub creation_policy : CreationPolicy → CreationPolicy
creation_policy policy = if policy == "" then creation_policy_create else policy

unfoldable pub can_adopt : CreationPolicy → Bool
unfolding creation_policy
can_adopt policy =
    creation_policy policy == creation_policy_adopt
    || creation_policy policy == creation_policy_create_or_adopt

unfoldable pub can_create : CreationPolicy → Bool
unfolding creation_policy
can_create policy =
    creation_policy policy == creation_policy_create
    || creation_policy policy == creation_policy_create_or_adopt

-- projectName, identityName, environmentName, environmentSlug and organizationName: the name of the
-- specification, or that of the object
abbrev pub or_name : String → String → String
or_name spec_name object_name = if spec_name == "" then object_name else spec_name

unfoldable pub bool_value : Option Bool → Bool → Bool
bool_value none default_value = default_value
bool_value (some b) default_value = b

-- A guard `a || b` that is false contradicts `a`.
pub kept_by_policy : (a b : Bool) → a ≡ true → (a || b) ≡ false → ⊥
kept_by_policy a b h e = ground arith

pub or_false : (a b : Bool) → (a || b) ≡ false → a ≡ false
or_false a b h = ground arith
