-- ===== src/Controller/Identity/Reconcile.antt =====
-- infisicalidentity_controller.go: Reconcile, reconcileIdentity and reconcileIdentityDeletion.
pub mod Calls
use infisical_entity_operato.Base.{
  String, Bool, true, false, not, ◌||◌, Option, none, some, List, [], ◌∷◌, ◌==◌, if◌then◌else◌,
}
use infisical_entity_operato.Result.{Result, ok, err}
use infisical_entity_operato.Failure.{Error, drift_detection_every}
use infisical_entity_operato.Api.{
  InfisicalIdentity, IdentityScope, identity_scope_organization, deletion_policy_orphan,
  condition_true, IdentityProjectMembershipStatus,
}
use infisical_entity_operato.Platform.{Key, Platform}
use infisical_entity_operato.Exec.{
  Exec, Response, pure, raise, lift, check, or_return, read_identity, ◌>>=◌, ◌>>◌,
}
use infisical_entity_operato.Client.{Client, delete_identity, delete_organization_identity}
use infisical_entity_operato.Client.Wire.Identities.{Identity}
use infisical_entity_operato.Controller.Policies.{deletion_policy}
use infisical_entity_operato.Controller.Connections.{infisical_client_for_connection}
use infisical_entity_operato.Controller.Roles.{identity_role_slugs}
use infisical_entity_operato.Controller.Objects.{
  persist_status, respond, reconcile_object, delete_external,
}
use infisical_entity_operato.Controller.Identity.Spec.{identity_scope, validate_identity_spec}
use infisical_entity_operato.Controller.Identity.State.{
  IdentityAnchor, identity_resource, set_identity_observed_state, with_condition, identity_error,
}
use infisical_entity_operato.Controller.Identity.Membership.{
  reconcile_identity_membership, reconcile_organization_project_memberships,
}
use infisical_entity_operato.Controller.Identity.Steps.{
  identity_anchor, anchor_reason, adopt_step, create_step, read_step, update_step,
}

abbrev with_membership :
    InfisicalIdentity → Option IdentityProjectMembershipStatus → InfisicalIdentity
with_membership identity none = record identity {
  status = record identity.status { membership_id = ""; roles = [] };
}
with_membership identity (some membership) = record identity {
  status = record identity.status {
    membership_id = membership.membership_id;
    roles = membership.roles;
  };
}

module _ (platform : Platform) where
  unfoldable pub membership_step :
      Client → IdentityAnchor → IdentityScope → InfisicalIdentity → Exec Response InfisicalIdentity
  membership_step c anchor scope identity =
      if scope == identity_scope_organization
      then or_return (reconcile_organization_project_memberships platform c identity)
          (λ failure. identity_error platform failure.0 "RoleMembershipReconcileFailed" failure.1)
      else (do
        role_slugs ←
            or_return (lift (identity_role_slugs identity.spec.role_slugs))
              (identity_error platform identity "RoleConfigurationInvalid")
        membership ←
            or_return
              (reconcile_identity_membership platform c anchor.project_id
                identity.status.identity_id role_slugs)
              (identity_error platform identity "RoleMembershipReconcileFailed")
        pure (with_membership identity membership))

  -- The last lines: the condition Ready, and the patch from the copy of the start
  unfoldable pub identity_ready : (before identity : InfisicalIdentity) → Exec Response Response
  identity_ready before identity r =
      respond drift_detection_every
        (persist_status platform identity_resource
          (with_condition (platform.now r.calls) identity condition_true "Ready"
            "Infisical identity is reconciled")
          before)
        r

  unfoldable pub reconcile_identity : InfisicalIdentity → Exec Response Response
  reconcile_identity identity = do
    let scope = identity_scope identity
    or_return (check (validate_identity_spec identity))
        (identity_error platform identity "ConfigurationInvalid")
    anchor ←
        or_return (identity_anchor platform identity scope)
          (λ e. identity_error platform identity (anchor_reason platform scope e) e)
    c ←
        or_return
          (infisical_client_for_connection platform identity.meta.namespace
            identity.spec.connection_ref)
          (identity_error platform identity "ConnectionNotReady")
    adopted ← adopt_step platform c anchor scope identity
    acquired ← create_step platform c anchor scope adopted
    current ← read_step platform c anchor scope acquired
    updated ← update_step platform c anchor scope acquired current
    observed ←
        membership_step c anchor scope (set_identity_observed_state acquired updated anchor scope)
    identity_ready identity observed

  unfoldable pub delete_remote_identity : InfisicalIdentity → Client → Exec Error (Unit {0})
  delete_remote_identity identity c =
      if identity_scope identity == identity_scope_organization
      then delete_organization_identity platform c identity.status.identity_id
      else if not (identity.status.project_id == "")
      then delete_identity platform c identity.status.project_id identity.status.identity_id
      else pure tt

  unfoldable pub reconcile_identity_deletion : InfisicalIdentity → Exec Response Response
  reconcile_identity_deletion identity =
      delete_external platform identity_resource
        (deletion_policy identity.spec.deletion_policy == deletion_policy_orphan
          || identity.status.identity_id == "")
        identity.spec.connection_ref (delete_remote_identity identity) identity

  unfoldable pub reconcile_identity_request : Key → Exec Response Response
  reconcile_identity_request key =
      reconcile_object platform identity_resource (λ i. i.spec.deletion_policy) reconcile_identity
        reconcile_identity_deletion (read_identity platform key)
