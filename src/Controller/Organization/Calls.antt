-- ===== src/Controller/Organization/Calls.antt =====
-- The calls of a reconciliation of an organization.
use infisical_entity_operato.Base.{Option, none, some}
use infisical_entity_operato.Api.{InfisicalOrganization}
use infisical_entity_operato.Platform.{Method, Call, Platform}
use infisical_entity_operato.Exec.Emits.{Permits, Reads, Emits, emits_rules}
use infisical_entity_operato.Client.{Client}
use infisical_entity_operato.Client.Organizations.Calls.{
  Emits-find_organization, Emits-create_organization,
}
use infisical_entity_operato.Client.Wire.{Organization}
use infisical_entity_operato.Controller.Connections.Calls.{Emits-infisical_client_for_connection}
use infisical_entity_operato.Controller.Status.Calls.{
  StatusPatches, Emits-status_error, Emits-status_missing, Emits-status_ready,
}
use infisical_entity_operato.Controller.Organization.{
  organization_status, organization_error, adopt_found, adopt_step, create_organization_step,
  verify_found, verify_organization_step, reconcile_organization,
}

module _ (platform : Platform) {Q : Call → Type 0} (writes : StatusPatches Q organization_status)
    (reads : Reads Q) (login : Permits Q Method.post) (gets : Permits Q Method.get) where
  module _ (c : Client) where
    Emits-adopt_found :
        (o : InfisicalOrganization) (found : Option Organization)
        → Emits Q (adopt_found platform c o found)
    unfolding adopt_found organization_error
    Emits-adopt_found o (some adopted) = search emits_rules
    Emits-adopt_found o none = search (emits_rules, Emits-status_error)

    Emits-adopt_step : (o : InfisicalOrganization) → Emits Q (adopt_step platform c o)
    unfolding adopt_step organization_error
    Emits-adopt_step o =
        search (emits_rules, Emits-find_organization, Emits-adopt_found, Emits-status_error) depth 9

    Emits-create_organization_step :
        (before o : InfisicalOrganization) → Emits Q (create_organization_step platform c before o)
    unfolding create_organization_step organization_error
    Emits-create_organization_step before o =
        search (emits_rules, Emits-create_organization, Emits-status_error, Emits-status_ready)
          depth 9

    Emits-verify_found :
        (before o : InfisicalOrganization) (found : Option Organization)
        → Emits Q (verify_found platform c before o found)
    unfolding verify_found organization_error
    Emits-verify_found before o none = search Emits-status_missing
    Emits-verify_found before o (some current) =
        search (emits_rules, Emits-status_error, Emits-status_ready)

    Emits-verify_organization_step :
        (before o : InfisicalOrganization) → Emits Q (verify_organization_step platform c before o)
    unfolding verify_organization_step organization_error
    Emits-verify_organization_step before o =
        search (emits_rules, Emits-find_organization, Emits-verify_found, Emits-status_error) depth
          9

  pub Emits-reconcile_organization :
      (o : InfisicalOrganization) → Emits Q (reconcile_organization platform o)
  unfolding reconcile_organization organization_error
  Emits-reconcile_organization o =
      search
        (
          emits_rules, Emits-infisical_client_for_connection, Emits-adopt_step,
          Emits-create_organization_step, Emits-verify_organization_step, Emits-status_error,
        )
        depth 12
