-- ===== src/Controller/Objects/Tests.antt =====
-- Instances of the theorems on finalizers, at a project.
use infisical_entity_operato.Base.{
  ◌≡◌, ◌⊎◌, refl, true, false, some, none, [], ◌∷◌, contains, trim_space, trim_right, lookup,
}
use infisical_entity_operato.Result.{Result, err}
use infisical_entity_operato.Api.{InfisicalProject}
use infisical_entity_operato.Failure.{Error, http_error}
use infisical_entity_operato.Platform.{response, content, update, Run, Platform}
use infisical_entity_operato.Exec.{pure, check, lift, ◌>>=◌, or_wrap, read_connection, read_secret}
use infisical_entity_operato.Client.{
  delete_project, exchange_with, bearer_token, do_with_token, send_request, interpret, new,
  parse_base_url, new_http_client,
}
use infisical_entity_operato.Controller.Policies.{deletion_policy}
use infisical_entity_operato.Controller.Connections.{
  infisical_client_for_connection, validate_connection_spec, secret_value_from_reference,
}
use infisical_entity_operato.Controller.Objects.{
  Response, finalizer_name, delete_external, reconcile_object,
}
use infisical_entity_operato.Controller.Objects.Deletion.{
  is_gone, error_returned, without_finalizer, with_finalizer, delete_external-finalizer,
  reconcile_object-finalizer,
}
use infisical_entity_operato.Controller.Project.State.{project_resource}
use infisical_entity_operato.Controller.Project.{reconcile_project, reconcile_project_deletion}
use infisical_entity_operato.Demo.{demo_platform, demo_project, demo_client, empty_run}

-- A server that refuses every request
abbrev busy_platform : Platform
busy_platform = record demo_platform { send = λ calls request. response 500 (content "busy" none) }

-- A project with its finalizer, and one that is to be removed from Infisical with its object
abbrev held_project : InfisicalProject
held_project = record demo_project {
  meta = record demo_project.meta { finalizers = finalizer_name ∷ [] };
}

abbrev connected_run : Run
connected_run =
    (infisical_client_for_connection busy_platform "team" (record { name = "infisical" })
      empty_run).1

abbrev refused_run : Run
refused_run = (delete_project busy_platform demo_client "p-1" connected_run).1

abbrev refused : Result Error (Unit {0})
refused = err (http_error 500 "busy")

abbrev ended : Result Response Response × Run
ended =
    delete_external busy_platform project_resource false (record { name = "infisical" })
      (λ c. delete_project busy_platform c "p-1") held_project empty_run

delete_external-finalizer_example :
    ((is_gone refused ≡ true)
      × (ended.1.calls
          ≡ update (without_finalizer busy_platform project_resource held_project)
            ∷ refused_run.calls))
    ⊎ ((is_gone refused ≡ false)
        × (ended.1.calls ≡ refused_run.calls)
        × (error_returned ended.0 ≡ some (http_error 500 "busy")))
unfolding infisical_client_for_connection validate_connection_spec secret_value_from_reference
    project_resource check lift pure ◌>>=◌ or_wrap read_connection read_secret lookup trim_space
    trim_right new parse_base_url new_http_client delete_project exchange_with bearer_token
    do_with_token send_request interpret contains
delete_external-finalizer_example =
    delete_external-finalizer busy_platform project_resource (record { name = "infisical" })
      (λ c. delete_project busy_platform c "p-1") held_project demo_client empty_run connected_run
      refused_run refused refl refl refl

reconcile_object-finalizer_example :
    (reconcile_object demo_platform project_resource
      (λ p. "Delete")
      (reconcile_project demo_platform)
      (reconcile_project_deletion demo_platform)
      (pure demo_project)
      empty_run).1.calls
    ≡ update (with_finalizer demo_platform project_resource demo_project) ∷ []
unfolding pure deletion_policy project_resource contains
reconcile_object-finalizer_example =
    reconcile_object-finalizer demo_platform project_resource (λ p. "Delete")
      (reconcile_project demo_platform) (reconcile_project_deletion demo_platform)
      (pure demo_project) demo_project empty_run empty_run refl refl refl refl
