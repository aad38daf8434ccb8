-- ===== src/Controller/UniversalAuth/Tests.antt =====
-- Instances of the theorems on the Universal Auth controller.
use infisical_entity_operato.Base.{
  ◌≡◌, ◌↔◌, ◌⊎◌, refl, true, false, none, some, [], All, trim_space, lookup, insert,
}
use infisical_entity_operato.Result.{err}
use infisical_entity_operato.Failure.{Error, kube_error, is_kube_not_found}
use infisical_entity_operato.Api.{InfisicalUniversalAuth, UniversalAuthConfigSpec}
use infisical_entity_operato.Platform.{Run, Kind, read, Platform}
use infisical_entity_operato.Exec.{
  pure, check, lift, ◌>>=◌, or_return, attempt, read_secret, record_call, update_object,
}
use infisical_entity_operato.Client.{
  create_universal_auth_client_secret, get_universal_auth, exchange_with, bearer_token,
  do_with_token, send_request, interpret, inside,
}
use infisical_entity_operato.Json.{object_of, member, string_of, bool_of, int_of, items_of}
use infisical_entity_operato.Client.Wire.UniversalAuth.{
  UniversalAuthConfig, no_universal_auth, no_client_secret, CreateUniversalAuthClientSecretResponse,
  decode_universal_auth, decode_client_secret, decode_created_client_secret,
  validate_created_client_secret, validate_universal_auth, encode_universal_auth_config,
}
use infisical_entity_operato.Controller.UniversalAuth.{read_step, reconcile_universal_auth}
use infisical_entity_operato.Controller.UniversalAuth.Safety.{
  NamesSecretWhenReady, reconcile_universal_auth-NamesSecretWhenReady,
}
use infisical_entity_operato.Controller.UniversalAuth.Acquire.{read_step-Owned}
use infisical_entity_operato.Controller.UniversalAuth.State.{
  universal_auth_config_request, universal_auth_config_needs_update,
  validate_universal_auth_ownership,
}
use infisical_entity_operato.Controller.UniversalAuth.Drift.{
  Applied, universal_auth_config_needs_update_iff, universal_auth_config-empty_ips,
}
use infisical_entity_operato.Controller.UniversalAuth.Publish.{
  publish_universal_auth_secret, secret_to_fill, set_universal_auth_secret_owner, filled,
  store_secret, universal_auth_secret_key,
}
use infisical_entity_operato.Controller.UniversalAuth.Publish.Safety.{
  StoresOnlyHolding, Names, publish_universal_auth_secret-StoresOnlyHolding,
  publish_universal_auth_secret-controlled,
}
use infisical_entity_operato.Controller.UniversalAuth.Recovery.{with_client_secret}
use infisical_entity_operato.Controller.UniversalAuth.Rotation.{
  rotate_client_secret, client_secret_request, ensure_universal_auth_client_secret,
}
use infisical_entity_operato.Controller.UniversalAuth.Rotation.Published.{
  rotate_client_secret-unpublished,
}
use infisical_entity_operato.Controller.UniversalAuth.Rotation.Kept.{
  ensure_universal_auth_client_secret-kept,
}
use infisical_entity_operato.Client.{get_universal_auth_client_secret}
use infisical_entity_operato.Client.Wire.UniversalAuth.{
  UniversalAuthClientSecret, validate_client_secret,
}
use infisical_entity_operato.Result.{ok}
use infisical_entity_operato.Base.{arith, eq_iff}
use infisical_entity_operato.Demo.{
  demo_platform, controlled_platform, other_owner, demo_secret, demo_client, demo_universal_auth,
  empty_run,
}

-- Infisical's answers, as they are decoded
abbrev read_config : UniversalAuthConfig
read_config = record no_universal_auth { id = "ua-1"; identity_id = "i-1"; client_id = "c-1" }

abbrev created_secret : CreateUniversalAuthClientSecretResponse
created_secret = record {
  client_secret = "s-1";
  client_secret_data = record no_client_secret { id = "cs-1" };
}

abbrev rotated_auth : InfisicalUniversalAuth
rotated_auth = record demo_universal_auth {
  status = record demo_universal_auth.status {
    client_secret = record {
      secret_name = "login";
      client_secret_id = "cs-1";
      client_secret_prefix = "";
      last_rotation_nonce = "1";
      last_rotated_at = some 1700000000000000000;
    };
  };
}

abbrev ensured_run : Run
ensured_run =
    (ensure_universal_auth_client_secret demo_platform demo_client demo_universal_auth read_config
      empty_run).1

-- A cluster that refuses every write
abbrev read_only_platform : Platform
read_only_platform = record demo_platform { write = λ calls. some (kube_error false "read-only") }

abbrev created_run : Run
created_run =
    (create_universal_auth_client_secret read_only_platform demo_client "i-1"
      (client_secret_request demo_universal_auth) empty_run).1

rotate_client_secret-unpublished_example :
    rotate_client_secret read_only_platform demo_client read_config demo_universal_auth empty_run
    ≡ (
      err (demo_universal_auth, kube_error false "read-only"),
      (publish_universal_auth_secret read_only_platform demo_universal_auth "s-1" "c-1" "cs-1"
          created_run).1,
    )
unfolding check ◌>>=◌ attempt pure read_secret is_kube_not_found lift lookup
    create_universal_auth_client_secret exchange_with bearer_token do_with_token send_request
    interpret object_of decode_client_secret decode_created_client_secret
    validate_created_client_secret client_secret_request publish_universal_auth_secret
    secret_to_fill set_universal_auth_secret_owner filled store_secret universal_auth_secret_key
    update_object insert member string_of bool_of int_of
rotate_client_secret-unpublished_example =
    rotate_client_secret-unpublished read_only_platform demo_client demo_universal_auth read_config
      created_secret (kube_error false "read-only") empty_run created_run
      (publish_universal_auth_secret read_only_platform demo_universal_auth "s-1" "c-1" "cs-1"
        created_run).1
      refl refl

publish_universal_auth_secret-StoresOnlyHolding_example :
    All
      (StoresOnlyHolding demo_universal_auth "s-1" "c-1" "cs-1")
      (publish_universal_auth_secret demo_platform demo_universal_auth "s-1" "c-1" "cs-1"
        empty_run).1.calls
publish_universal_auth_secret-StoresOnlyHolding_example =
    publish_universal_auth_secret-StoresOnlyHolding demo_universal_auth "s-1" "c-1" "cs-1"
      demo_platform empty_run tt

abbrev found_run : Run
found_run = record_call (read Kind.secret (record { namespace = "team"; name = "login" })) empty_run

publish_universal_auth_secret-controlled_example :
    (Names other_owner demo_universal_auth
      × (secret_to_fill controlled_platform demo_universal_auth (ok demo_secret) ≡ ok demo_secret))
    ⊎ ((Names other_owner demo_universal_auth → ⊥)
        × (e : Error) × (publish_universal_auth_secret controlled_platform demo_universal_auth "s-1"
              "c-1" "cs-1" empty_run
            ≡ (err e, found_run)))
unfolding read_secret
publish_universal_auth_secret-controlled_example =
    publish_universal_auth_secret-controlled demo_universal_auth "s-1" "c-1" "cs-1"
      controlled_platform demo_secret other_owner empty_run found_run refl refl

universal_auth_config_needs_update_iff_example :
    (universal_auth_config_needs_update demo_universal_auth read_config ≡ false)
    ↔ Applied (universal_auth_config_request demo_universal_auth) read_config
universal_auth_config_needs_update_iff_example =
    universal_auth_config_needs_update_iff demo_universal_auth read_config

-- A specification that asks for no trusted address
abbrev closed_config : UniversalAuthConfigSpec
closed_config = record {
  client_secret_trusted_ips = some [];
  access_token_trusted_ips = none;
  access_token_ttl = none;
  access_token_max_ttl = none;
  access_token_num_uses_limit = none;
  access_token_period = none;
  lockout_enabled = none;
  lockout_threshold = none;
  lockout_duration_seconds = none;
  lockout_counter_reset_seconds = none;
}

abbrev closed_auth : InfisicalUniversalAuth
closed_auth = record demo_universal_auth {
  spec = record demo_universal_auth.spec { config = some closed_config };
}

universal_auth_config-empty_ips_example :
    (encode_universal_auth_config (universal_auth_config_request closed_auth)
      ≡ encode_universal_auth_config
          (record (universal_auth_config_request closed_auth) { client_secret_trusted_ips = none }))
    × (universal_auth_config_needs_update closed_auth read_config ≡ true)
universal_auth_config-empty_ips_example =
    universal_auth_config-empty_ips closed_auth closed_config read_config refl refl (λ e. cc)

read_step-Owned_example : read_config.identity_id ≡ "i-1"
unfolding read_step or_return check ◌>>=◌ pure lift get_universal_auth exchange_with bearer_token
    do_with_token send_request interpret inside object_of decode_universal_auth
    validate_universal_auth validate_universal_auth_ownership member string_of bool_of int_of
    items_of
read_step-Owned_example =
    read_step-Owned demo_platform demo_client "i-1" demo_universal_auth read_config empty_run
      (read_step demo_platform demo_client "i-1" demo_universal_auth empty_run).1 refl

-- The client secret as Infisical describes it, and the object after it was read
abbrev live_secret : UniversalAuthClientSecret
live_secret = record no_client_secret { id = "cs-1" }

ensure_universal_auth_client_secret-kept_example :
    ensure_universal_auth_client_secret demo_platform demo_client rotated_auth read_config empty_run
    ≡ (
      ok (with_client_secret rotated_auth live_secret),
      (get_universal_auth_client_secret demo_platform demo_client "i-1" "cs-1" found_run).1,
    )
unfolding read_secret get_universal_auth_client_secret exchange_with bearer_token do_with_token
    send_request interpret inside object_of decode_client_secret validate_client_secret member
    string_of bool_of int_of pure ◌>>=◌ lift trim_space
ensure_universal_auth_client_secret-kept_example =
    ensure_universal_auth_client_secret-kept demo_platform demo_client rotated_auth read_config
      demo_secret live_secret empty_run found_run
      (get_universal_auth_client_secret demo_platform demo_client "i-1" "cs-1" found_run).1 refl
      (λ e. ground (arith, (eq_iff "cs-1" "").1 e)) refl refl refl refl

reconcile_universal_auth-NamesSecretWhenReady_example :
    All NamesSecretWhenReady
      (reconcile_universal_auth demo_platform demo_universal_auth empty_run).1.calls
reconcile_universal_auth-NamesSecretWhenReady_example =
    reconcile_universal_auth-NamesSecretWhenReady demo_platform demo_universal_auth empty_run tt
