-- ===== src/Controller/Identity/Membership/Calls.antt =====
-- The calls that reconcile memberships.
use infisical_entity_operato.Base.{String, List, [], ◌∷◌}
use infisical_entity_operato.Result.{Result, ok, err}
use infisical_entity_operato.Failure.{Error}
use infisical_entity_operato.Api.{InfisicalIdentity, IdentityProjectRoleBinding}
use infisical_entity_operato.Platform.{Method, Call, Platform}
use infisical_entity_operato.Exec.Emits.{Permits, Reads, Emits, emits_rules}
use infisical_entity_operato.Client.{Client}
use infisical_entity_operato.Client.Memberships.Calls.{
  Emits-get_identity_membership, Emits-create_identity_membership, Emits-update_identity_membership,
}
use infisical_entity_operato.Client.Wire.Memberships.{IdentityMembership}
use infisical_entity_operato.Controller.Identity.Membership.{
  present, corrected, reconcile_identity_membership, reconcile_bindings,
  reconcile_organization_project_memberships,
}

module _ (platform : Platform) {Q : Call → Type 0} (c : Client) (login : Permits Q Method.post)
    (gets : Permits Q Method.get) (patches : Permits Q Method.patch) where
  Emits-present :
      (project_id identity_id : String) (role_slugs : List String)
      (found : Result Error IdentityMembership)
      → Emits Q (present platform c project_id identity_id role_slugs found)
  unfolding present
  Emits-present project_id identity_id role_slugs (ok membership) = search emits_rules
  Emits-present project_id identity_id role_slugs (err e) =
      search (emits_rules, Emits-get_identity_membership, Emits-create_identity_membership) depth 9

  Emits-corrected :
      (project_id identity_id : String) (role_slugs : List String) (membership : IdentityMembership)
      → Emits Q (corrected platform c project_id identity_id role_slugs membership)
  unfolding corrected
  Emits-corrected project_id identity_id role_slugs membership =
      search (emits_rules, Emits-get_identity_membership, Emits-update_identity_membership) depth 9

  pub Emits-reconcile_identity_membership :
      (project_id identity_id : String) (role_slugs : List String)
      → Emits Q (reconcile_identity_membership platform c project_id identity_id role_slugs)
  unfolding reconcile_identity_membership
  Emits-reconcile_identity_membership project_id identity_id role_slugs =
      search (emits_rules, Emits-get_identity_membership, Emits-present, Emits-corrected) depth 9

  Emits-reconcile_bindings :
      (reads : Reads Q) (i : InfisicalIdentity) (bindings : List IdentityProjectRoleBinding)
      → Emits Q (reconcile_bindings platform c i bindings)
  unfolding reconcile_bindings
  Emits-reconcile_bindings reads i [] = search emits_rules
  Emits-reconcile_bindings reads i (b ∷ bs) =
      let rest = λ (j : InfisicalIdentity). Emits-reconcile_bindings reads j bs in
      search (emits_rules, Emits-reconcile_identity_membership, rest) depth 12

  pub Emits-reconcile_organization_project_memberships :
      (reads : Reads Q) (i : InfisicalIdentity)
      → Emits Q (reconcile_organization_project_memberships platform c i)
  unfolding reconcile_organization_project_memberships
  Emits-reconcile_organization_project_memberships reads i = Emits-reconcile_bindings reads _ _
