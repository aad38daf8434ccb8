-- ===== src/Controller/Identity/Reconcile/Calls.antt =====
-- The calls of a reconciliation of an identity.
use infisical_entity_operato.Api.{InfisicalIdentity, IdentityScope}
use infisical_entity_operato.Platform.{Method, Call, Platform}
use infisical_entity_operato.Exec.Emits.{Permits, Reads, Emits, emits_rules}
use infisical_entity_operato.Client.{Client}
use infisical_entity_operato.Controller.Connections.Calls.{Emits-infisical_client_for_connection}
use infisical_entity_operato.Controller.Objects.Calls.{Emits-respond, Emits-persist_status}
use infisical_entity_operato.Controller.Identity.State.{IdentityAnchor, identity_resource}
use infisical_entity_operato.Controller.Identity.State.Calls.{StatusWrites, Emits-identity_error}
use infisical_entity_operato.Controller.Identity.Membership.Calls.{
  Emits-reconcile_identity_membership, Emits-reconcile_organization_project_memberships,
}
use infisical_entity_operato.Controller.Identity.Steps.Calls.{
  Emits-identity_anchor, Emits-adopt_step, Emits-create_step, Emits-read_step, Emits-update_step,
}
use infisical_entity_operato.Controller.Identity.Reconcile.{
  membership_step, identity_ready, reconcile_identity,
}

module _ (platform : Platform) {Q : Call → Type 0} (writes : StatusWrites Q) (reads : Reads Q)
    (login : Permits Q Method.post) (gets : Permits Q Method.get)
    (patches : Permits Q Method.patch) where
  Emits-membership_step :
      (c : Client) (anchor : IdentityAnchor) (scope : IdentityScope) (i : InfisicalIdentity)
      → Emits Q (membership_step platform c anchor scope i)
  unfolding membership_step
  Emits-membership_step c anchor scope i =
      search
        (
          emits_rules, Emits-reconcile_identity_membership,
          Emits-reconcile_organization_project_memberships, Emits-identity_error,
        )
        depth 9

  Emits-identity_ready : (before i : InfisicalIdentity) → Emits Q (identity_ready platform before i)
  unfolding identity_ready identity_resource
  Emits-identity_ready before i = record {
    at = λ r h.
        (Emits-respond _ _ (
            Emits-persist_status platform identity_resource _ before
              (writes.on_ready _ before i _ _))).at
          r h;
  }

  -- Whatever holds of reads, of requests by GET, POST and PATCH, and of the three kinds of status
  -- patches, holds of every call of a reconciliation.
  pub Emits-reconcile_identity : (i : InfisicalIdentity) → Emits Q (reconcile_identity platform i)
  unfolding reconcile_identity
  Emits-reconcile_identity i =
      search
        (
          emits_rules, Emits-identity_error, Emits-identity_anchor,
          Emits-infisical_client_for_connection, Emits-adopt_step, Emits-create_step,
          Emits-read_step, Emits-update_step, Emits-membership_step, Emits-identity_ready,
        )
        depth 20
