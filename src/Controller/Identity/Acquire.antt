-- ===== src/Controller/Identity/Acquire.antt =====
-- After the steps that find or create an identity its identifier is known, and it belongs to the
-- project or the organization of its specification.
use infisical_entity_operato.Base.{◌≡◌, ◌≢◌, inl, inr, ◌⊎◌, ◌==◌, arith, eq_iff}
use infisical_entity_operato.Result.{ok}
use infisical_entity_operato.Api.{InfisicalIdentity, IdentityScope, identity_scope_organization}
use infisical_entity_operato.Platform.{Run, Platform}
use infisical_entity_operato.Exec.{pure}
use infisical_entity_operato.Exec.Outcome.{bind-ok, check-ok, if-ok, pure-ok, or_return-ok}
use infisical_entity_operato.Client.{Client, create_identity, create_organization_identity}
use infisical_entity_operato.Client.Wire.Identities.{Identity}
use infisical_entity_operato.Client.Validated.{create_identity-id, create_organization_identity-id}
use infisical_entity_operato.Controller.Identity.State.{
  IdentityAnchor, validate_observed_identity, set_identity_observed_state,
}
use infisical_entity_operato.Controller.Identity.Steps.{
  create_remote, create_missing, create_step, read_step,
}

module _ (platform : Platform) (c : Client) (anchor : IdentityAnchor) (scope : IdentityScope) where
  remote-id :
      (identity : InfisicalIdentity) (created : Identity) (r r' : Run)
      → create_remote platform c anchor scope identity r ≡ (ok created, r')
      → created.id ≢ ""
  unfolding create_remote
  remote-id identity created r r' h =
      elim (if-ok (scope == identity_scope_organization)
        (create_organization_identity platform c anchor.organization_id _)
        (create_identity platform c anchor.project_id _) r r' created h) [
          | inl (_, made) ↦
              create_organization_identity-id platform c r r' anchor.organization_id _ created made
          | inr (_, made) ↦ create_identity-id platform c r r' anchor.project_id _ created made
        ]

  observed-id :
      (identity : InfisicalIdentity) (created : Identity)
      → (set_identity_observed_state identity created anchor scope).status.identity_id ≡ created.id
  unfolding set_identity_observed_state
  observed-id identity created = ground arith

  missing-HasId :
      (identity identity' : InfisicalIdentity) (r r' : Run)
      → create_missing platform c anchor scope identity r ≡ (ok identity', r')
      → identity'.status.identity_id ≢ ""
  unfolding create_missing
  missing-HasId identity identity' r r' h =
      let (_, r1, _, create) = bind-ok _ _ r r' identity' h in
      let (created, r2, made, validate) = bind-ok _ _ r1 r' identity' create in
      let (_, r3, _, last) = bind-ok _ _ r2 r' identity' validate in
      let (is, _) = pure-ok _ r3 r' identity' last in
      rw (← is) (
        rw (observed-id identity created)
          (remote-id identity created r1 r2 (or_return-ok _ _ r1 r2 created made)))

  -- Where the step that creates a missing identity does not end the reconciliation, the identity
  -- has an identifier.
  pub create_step-HasIdentity :
      (identity identity' : InfisicalIdentity) (r r' : Run)
      → create_step platform c anchor scope identity r ≡ (ok identity', r')
      → identity'.status.identity_id ≢ ""
  unfolding create_step
  create_step-HasIdentity identity identity' r r' h =
      elim (if-ok _ (create_missing platform c anchor scope identity) (pure identity) r r' identity'
        h) [
          | inr (has, kept) ↦
              ground
                (arith, eq_iff identity.status.identity_id "", pure-ok identity r r' identity' kept)
          | inl (lacks, made) ↦ missing-HasId identity identity' r r' made
        ]

  -- An identity that the reconciliation goes on with, having read it, is of the organization or the
  -- project that it is anchored in, as far as Infisical says where it belongs.
  pub read_step-InAnchor :
      (identity : InfisicalIdentity) (current : Identity) (r r' : Run)
      → read_step platform c anchor scope identity r ≡ (ok current, r')
      → ((scope ≡ identity_scope_organization)
          × ((current.organization_id ≡ "") ⊎ (current.organization_id ≡ anchor.organization_id)))
        ⊎ ((scope ≢ identity_scope_organization)
            × ((current.project_id ≡ "") ⊎ (current.project_id ≡ anchor.project_id)))
  unfolding read_step validate_observed_identity
  read_step-InAnchor identity current r r' h =
      let (found, r1, _, validate) = bind-ok _ _ r r' current h in
      let (_, r2, checked, last) = bind-ok _ _ r1 r' current validate in
      let (is, _) = pure-ok found r2 r' current last in
      let (valid, _) = check-ok _ r1 r2 (or_return-ok _ _ r1 r2 tt checked) in
      ground (
        arith,
        is,
        valid,
        eq_iff scope identity_scope_organization,
        eq_iff found.organization_id "",
        eq_iff found.project_id "",
        eq_iff found.organization_id anchor.organization_id,
        eq_iff found.project_id anchor.project_id,
      )
