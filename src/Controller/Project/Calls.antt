-- ===== src/Controller/Project/Calls.antt =====
-- The calls of a reconciliation of a project.
use infisical_entity_operato.Base.{String, Option, none, some}
use infisical_entity_operato.Api.{InfisicalProject, LocalObjectReference}
use infisical_entity_operato.Platform.{Method, Call, Platform}
use infisical_entity_operato.Exec.Emits.{Permits, Reads, Emits, emits_rules}
use infisical_entity_operato.Client.{Client}
use infisical_entity_operato.Client.Token.Calls.{Emits-token_identity_id_context}
use infisical_entity_operato.Client.Memberships.Calls.{Emits-ensure_identity_project_membership}
use infisical_entity_operato.Client.Projects.Calls.{
  Emits-find_project, Emits-create_project, Emits-get_project, Emits-update_project,
}
use infisical_entity_operato.Client.Wire.{Project}
use infisical_entity_operato.Controller.Connections.Calls.{Emits-infisical_client_for_connection}
use infisical_entity_operato.Controller.Status.Calls.{
  StatusPatches, Emits-status_error, Emits-status_missing, Emits-status_ready,
}
use infisical_entity_operato.Controller.Project.State.{project_status}
use infisical_entity_operato.Controller.Project.{
  project_error, organization_id_of, expected_organization_id, creator_membership,
  ensure_project_creator_membership, adopt_found, adopt_step, create_missing, create_step,
  read_step, update_step, reconcile_project,
}

module _ (platform : Platform) {Q : Call → Type 0} (reads : Reads Q) where
  Emits-organization_id_of :
      (namespace : String) (ref : Option LocalObjectReference)
      → Emits Q (organization_id_of platform namespace ref)
  unfolding organization_id_of
  Emits-organization_id_of namespace none = search emits_rules
  Emits-organization_id_of namespace (some ref) = search emits_rules depth 9

  Emits-expected_organization_id :
      (p : InfisicalProject) → Emits Q (expected_organization_id platform p)
  unfolding expected_organization_id
  Emits-expected_organization_id p =
      Emits-organization_id_of p.meta.namespace p.spec.organization_ref

module _ (platform : Platform) {Q : Call → Type 0} (writes : StatusPatches Q project_status)
    (login : Permits Q Method.post) (gets : Permits Q Method.get)
    (patches : Permits Q Method.patch) where
  module _ (c : Client) where
    Emits-creator_membership :
        (p : InfisicalProject) (ref : Option LocalObjectReference)
        → Emits Q (creator_membership platform c p ref)
    unfolding creator_membership
    Emits-creator_membership p none = search emits_rules
    Emits-creator_membership p (some ref) =
        search
          (emits_rules, Emits-token_identity_id_context, Emits-ensure_identity_project_membership)
          depth 9

    Emits-ensure_project_creator_membership :
        (p : InfisicalProject) → Emits Q (ensure_project_creator_membership platform c p)
    unfolding ensure_project_creator_membership
    Emits-ensure_project_creator_membership p = Emits-creator_membership p p.spec.organization_ref

  module _ (c : Client) (expected : String) where
    Emits-adopt_found :
        (p : InfisicalProject) (found : Option Project)
        → Emits Q (adopt_found platform c expected p found)
    unfolding adopt_found project_error
    Emits-adopt_found p (some adopted) = search (emits_rules, Emits-status_error)
    Emits-adopt_found p none = search (emits_rules, Emits-status_error)

    Emits-adopt_step : (p : InfisicalProject) → Emits Q (adopt_step platform c expected p)
    unfolding adopt_step project_error
    Emits-adopt_step p =
        search (emits_rules, Emits-find_project, Emits-adopt_found, Emits-status_error) depth 9

    Emits-create_missing : (p : InfisicalProject) → Emits Q (create_missing platform c expected p)
    unfolding create_missing project_error
    Emits-create_missing p = search (emits_rules, Emits-create_project, Emits-status_error) depth 12

    Emits-create_step : (p : InfisicalProject) → Emits Q (create_step platform c expected p)
    unfolding create_step
    Emits-create_step p = search (emits_rules, Emits-create_missing)

    Emits-read_step : (p : InfisicalProject) → Emits Q (read_step platform c expected p)
    unfolding read_step project_error
    Emits-read_step p =
        search (emits_rules, Emits-get_project, Emits-status_missing, Emits-status_error) depth 9

    Emits-update_step :
        (p : InfisicalProject) (current : Project)
        → Emits Q (update_step platform c expected p current)
    unfolding update_step project_error
    Emits-update_step p current =
        search (emits_rules, Emits-update_project, Emits-status_error) depth 9

module _ (platform : Platform) {Q : Call → Type 0} (writes : StatusPatches Q project_status)
    (reads : Reads Q) (login : Permits Q Method.post) (gets : Permits Q Method.get)
    (patches : Permits Q Method.patch) where
  pub Emits-reconcile_project : (p : InfisicalProject) → Emits Q (reconcile_project platform p)
  unfolding reconcile_project project_error
  Emits-reconcile_project p =
      search
        (
          emits_rules, Emits-expected_organization_id, Emits-infisical_client_for_connection,
          Emits-adopt_step, Emits-create_step, Emits-ensure_project_creator_membership,
          Emits-read_step, Emits-update_step, Emits-status_error, Emits-status_ready,
        )
        depth 20
