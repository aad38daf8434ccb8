-- ===== src/Controller/Identity/Membership.antt =====
-- infisicalidentity_controller.go: the project memberships of an identity.
pub mod Calls
use infisical_entity_operato.Base.{
  String, Bool, true, false, not, Option, none, some, List, [], ◌∷◌, ◌++◌, ◌==◌, is_empty, concat,
  quote, if◌then◌else◌,
}
use infisical_entity_operato.Result.{Result, ok, err}
use infisical_entity_operato.Failure.{Error, plain, wrapped, is_not_found}
use infisical_entity_operato.Api.{
  InfisicalIdentity, IdentityProjectRoleBinding, IdentityProjectMembershipStatus,
}
use infisical_entity_operato.Platform.{Platform}
use infisical_entity_operato.Exec.{
  Exec, pure, raise, lift, attempt, or_wrap, read_project, ◌>>=◌, ◌>>◌,
}
use infisical_entity_operato.Client.{
  Client, get_identity_membership, create_identity_membership, update_identity_membership,
}
use infisical_entity_operato.Client.Wire.Memberships.{IdentityMembership}
use infisical_entity_operato.Controller.Roles.{
  identity_role_slugs, identity_role_slugs_equal, identity_role_statuses_from,
}

abbrev pub membership_status :
    (project_id : String) → IdentityMembership → IdentityProjectMembershipStatus
membership_status project_id membership = record {
  project_id = if membership.project_id == "" then project_id else membership.project_id;
  membership_id = membership.id;
  roles = identity_role_statuses_from membership.roles;
}

module _ (platform : Platform) (c : Client) where
  module _ (project_id identity_id : String) (role_slugs : List String) where
    -- The membership that was read, or the one that is created and read again
    present : Result Error IdentityMembership → Exec Error IdentityMembership
    present (ok membership) = pure membership
    present (err e) =
        if not (is_not_found e) then raise (wrapped "read identity project membership: " e) else (do
          or_wrap (create_identity_membership platform c project_id identity_id role_slugs)
              (wrapped "create identity project membership: ")
          or_wrap (get_identity_membership platform c project_id identity_id)
              (wrapped "read created identity project membership: "))

    corrected : IdentityMembership → Exec Error IdentityMembership
    corrected membership =
        if not (identity_role_slugs_equal role_slugs membership.roles)
        then (do
          or_wrap (update_identity_membership platform c project_id identity_id role_slugs)
              (wrapped "update identity project membership: ")
          or_wrap (get_identity_membership platform c project_id identity_id)
              (wrapped "read updated identity project membership: "))
        else pure membership

    unfoldable pub reconcile_identity_membership :
        Exec Error (Option IdentityProjectMembershipStatus)
    unfolding present corrected
    reconcile_identity_membership = if is_empty role_slugs then pure none else (do
      found ← attempt (get_identity_membership platform c project_id identity_id)
      membership ← present found
      final ← corrected membership
      pure (some (membership_status project_id final)))

  add_membership : InfisicalIdentity → Option IdentityProjectMembershipStatus → InfisicalIdentity
  add_membership identity none = identity
  add_membership identity (some membership) = record identity {
    status = record identity.status {
      project_memberships = identity.status.project_memberships ++ membership ∷ [];
    };
  }

  -- The loop over the bindings; an error comes with the identity as it has been changed so far.
  reconcile_bindings :
      InfisicalIdentity
      → List IdentityProjectRoleBinding
      → Exec (InfisicalIdentity × Error) InfisicalIdentity
  unfolding add_membership
  reconcile_bindings identity [] = pure identity
  reconcile_bindings identity (binding ∷ rest) = do
    let name = binding.project_ref.name
    project ←
        or_wrap
          (read_project platform (record { namespace = identity.meta.namespace; name = name }))
          (λ e. (
            identity,
            wrapped (concat ("read project " ∷ quote name ∷ " for identity membership: " ∷ [])) e,
          ))
    role_slugs ← or_wrap (lift (identity_role_slugs binding.role_slugs)) (λ e.
        (identity, wrapped (concat ("projectRoleBindings project " ∷ quote name ∷ ": " ∷ [])) e))
    membership ←
        or_wrap
          (reconcile_identity_membership project.status.project_id identity.status.identity_id
            role_slugs)
          (λ e. (identity, wrapped (concat ("project " ∷ quote name ∷ ": " ∷ [])) e))
    reconcile_bindings (add_membership identity membership) rest

  unfoldable pub reconcile_organization_project_memberships :
      InfisicalIdentity → Exec (InfisicalIdentity × Error) InfisicalIdentity
  unfolding reconcile_bindings
  reconcile_organization_project_memberships identity =
      reconcile_bindings
        (record identity { status = record identity.status { project_memberships = [] } })
        identity.spec.project_role_bindings
