-- ===== src/Controller/Identity/Steps/Calls.antt =====
-- The calls of the steps of reconcileIdentity.
use infisical_entity_operato.Base.{String, Option, none, some, List, [], ◌∷◌}
use infisical_entity_operato.Api.{InfisicalIdentity, IdentityScope, IdentityProjectRoleBinding}
use infisical_entity_operato.Platform.{Method, Call, Platform}
use infisical_entity_operato.Exec.Emits.{
  Permits, Reads, Emits, Emits-bind, Emits-check, emits_rules,
}
use infisical_entity_operato.Client.{Client}
use infisical_entity_operato.Client.Identities.Calls.{
  Emits-find_identity, Emits-find_organization_identity, Emits-create_identity,
  Emits-create_organization_identity, Emits-get_identity, Emits-get_organization_identity,
  Emits-update_identity, Emits-update_organization_identity,
}
use infisical_entity_operato.Client.Wire.Identities.{Identity}
use infisical_entity_operato.Controller.Identity.State.{IdentityAnchor}
use infisical_entity_operato.Controller.Identity.State.Calls.{
  StatusWrites, Emits-identity_error, Emits-identity_missing,
}
use infisical_entity_operato.Controller.Identity.Steps.{
  check_bindings, organization_anchor, project_anchor, identity_anchor, adopt_found, adopt_step,
  create_remote, create_missing, create_step, read_step, update_step,
}

module _ (platform : Platform) {Q : Call → Type 0} (reads : Reads Q) where
  Emits-check_bindings :
      (namespace organization_id : String) (bindings : List IdentityProjectRoleBinding)
      → Emits Q (check_bindings platform namespace organization_id bindings)
  unfolding check_bindings
  Emits-check_bindings namespace organization_id [] = search emits_rules
  Emits-check_bindings namespace organization_id (b ∷ bs) =
      let rest : Emits Q (check_bindings platform namespace organization_id bs) =
        Emits-check_bindings namespace organization_id bs in
      Emits-bind _ _ (search emits_rules) (λ project. Emits-bind _ _ (Emits-check _) (λ _. rest))

  Emits-organization_anchor : (i : InfisicalIdentity) → Emits Q (organization_anchor platform i)
  unfolding organization_anchor
  Emits-organization_anchor i = search (emits_rules, Emits-check_bindings) depth 9

  Emits-project_anchor : (i : InfisicalIdentity) → Emits Q (project_anchor platform i)
  unfolding project_anchor
  Emits-project_anchor i = search emits_rules depth 9

  pub Emits-identity_anchor :
      (i : InfisicalIdentity) (scope : IdentityScope) → Emits Q (identity_anchor platform i scope)
  unfolding identity_anchor
  Emits-identity_anchor i scope =
      search (emits_rules, Emits-organization_anchor, Emits-project_anchor)

module _ (platform : Platform) {Q : Call → Type 0} (writes : StatusWrites Q)
    (login : Permits Q Method.post) (gets : Permits Q Method.get) (patches : Permits Q Method.patch)
    (c : Client) (anchor : IdentityAnchor) (scope : IdentityScope) where
  Emits-adopt_found :
      (i : InfisicalIdentity) (found : Option Identity)
      → Emits Q (adopt_found platform c anchor scope i found)
  unfolding adopt_found
  Emits-adopt_found i none = search emits_rules
  Emits-adopt_found i (some adopted) = search (emits_rules, Emits-identity_error)

  pub Emits-adopt_step : (i : InfisicalIdentity) → Emits Q (adopt_step platform c anchor scope i)
  unfolding adopt_step
  Emits-adopt_step i =
      search
        (
          emits_rules, Emits-find_identity, Emits-find_organization_identity, Emits-adopt_found,
          Emits-identity_error,
        )
        depth 9

  Emits-create_remote : (i : InfisicalIdentity) → Emits Q (create_remote platform c anchor scope i)
  unfolding create_remote
  Emits-create_remote i =
      search (emits_rules, Emits-create_identity, Emits-create_organization_identity)

  Emits-create_missing :
      (i : InfisicalIdentity) → Emits Q (create_missing platform c anchor scope i)
  unfolding create_missing
  Emits-create_missing i = search (emits_rules, Emits-create_remote, Emits-identity_error) depth 12

  pub Emits-create_step : (i : InfisicalIdentity) → Emits Q (create_step platform c anchor scope i)
  unfolding create_step
  Emits-create_step i = search (emits_rules, Emits-create_missing)

  pub Emits-read_step : (i : InfisicalIdentity) → Emits Q (read_step platform c anchor scope i)
  unfolding read_step
  Emits-read_step i =
      search
        (
          emits_rules, Emits-get_identity, Emits-get_organization_identity, Emits-identity_missing,
          Emits-identity_error,
        )
        depth 9

  pub Emits-update_step :
      (i : InfisicalIdentity) (current : Identity)
      → Emits Q (update_step platform c anchor scope i current)
  unfolding update_step
  Emits-update_step i current =
      search
        (
          emits_rules, Emits-update_identity, Emits-update_organization_identity,
          Emits-identity_error,
        )
        depth 9
