-- ===== src/Controller/UniversalAuth/Drift.antt =====
-- When Universal Auth is updated, that an update ends it, and where it does not.
use infisical_entity_operato.Base.{
  Option, none, some, List, [], ◌∷◌, true, false, ◌≡◌, refl, ◌≢◌, ◌↔◌, arith,
}
use infisical_entity_operato.Api.{InfisicalUniversalAuth, UniversalAuthConfigSpec}
use infisical_entity_operato.Client.Wire.UniversalAuth.{
  UniversalAuthTrustedIp, UniversalAuthConfig, UniversalAuthConfigRequest,
  encode_universal_auth_config,
}
use infisical_entity_operato.Json.{omit_no_items}
use infisical_entity_operato.Controller.Optional.{
  Met, MetList, optional_list_diff, optional_int64_diff_iff, optional_bool_diff_iff,
  optional_list_diff_iff,
}
use infisical_entity_operato.Controller.UniversalAuth.State.{
  addresses, differs, universal_auth_trusted_ips_from, universal_auth_config_request,
  universal_auth_config_needs_update,
}

-- The configuration has every value that a request sets.
pub record Applied (request : UniversalAuthConfigRequest) (current : UniversalAuthConfig)
    : Type 0 where
  pub client_secret_trusted_ips :
      MetList
        (addresses request.client_secret_trusted_ips)
        (addresses current.client_secret_trusted_ips)
  pub access_token_trusted_ips :
      MetList
        (addresses request.access_token_trusted_ips)
        (addresses current.access_token_trusted_ips)
  pub access_token_ttl : Met request.access_token_ttl current.access_token_ttl
  pub access_token_max_ttl : Met request.access_token_max_ttl current.access_token_max_ttl
  pub access_token_num_uses_limit :
      Met request.access_token_num_uses_limit current.access_token_num_uses_limit
  pub access_token_period : Met request.access_token_period current.access_token_period
  pub lockout_enabled : Met request.lockout_enabled current.lockout_enabled
  pub lockout_threshold : Met request.lockout_threshold current.lockout_threshold
  pub lockout_duration_seconds :
      Met request.lockout_duration_seconds current.lockout_duration_seconds
  pub lockout_counter_reset_seconds :
      Met request.lockout_counter_reset_seconds current.lockout_counter_reset_seconds

differs-Applied :
    (request : UniversalAuthConfigRequest) (current : UniversalAuthConfig)
    → differs request current ≡ false
    → Applied request current
unfolding differs
differs-Applied request current h = record {
  client_secret_trusted_ips = (optional_list_diff_iff _ _).0 (ground arith);
  access_token_trusted_ips = (optional_list_diff_iff _ _).0 (ground arith);
  access_token_ttl = (optional_int64_diff_iff _ _).0 (ground arith);
  access_token_max_ttl = (optional_int64_diff_iff _ _).0 (ground arith);
  access_token_num_uses_limit = (optional_int64_diff_iff _ _).0 (ground arith);
  access_token_period = (optional_int64_diff_iff _ _).0 (ground arith);
  lockout_enabled = (optional_bool_diff_iff _ _).0 (ground arith);
  lockout_threshold = (optional_int64_diff_iff _ _).0 (ground arith);
  lockout_duration_seconds = (optional_int64_diff_iff _ _).0 (ground arith);
  lockout_counter_reset_seconds = (optional_int64_diff_iff _ _).0 (ground arith);
}

Applied-differs :
    (request : UniversalAuthConfigRequest) (current : UniversalAuthConfig)
    → Applied request current
    → differs request current ≡ false
unfolding differs
Applied-differs request current a = ground (
  arith,
  (optional_list_diff_iff (addresses request.client_secret_trusted_ips)
        (addresses current.client_secret_trusted_ips)).1
      a.client_secret_trusted_ips,
  (optional_list_diff_iff (addresses request.access_token_trusted_ips)
        (addresses current.access_token_trusted_ips)).1
      a.access_token_trusted_ips,
  (optional_int64_diff_iff request.access_token_ttl current.access_token_ttl).1 a.access_token_ttl,
  (optional_int64_diff_iff request.access_token_max_ttl current.access_token_max_ttl).1
      a.access_token_max_ttl,
  (optional_int64_diff_iff request.access_token_num_uses_limit
        current.access_token_num_uses_limit).1
      a.access_token_num_uses_limit,
  (optional_int64_diff_iff request.access_token_period current.access_token_period).1
      a.access_token_period,
  (optional_bool_diff_iff request.lockout_enabled current.lockout_enabled).1 a.lockout_enabled,
  (optional_int64_diff_iff request.lockout_threshold current.lockout_threshold).1
      a.lockout_threshold,
  (optional_int64_diff_iff request.lockout_duration_seconds current.lockout_duration_seconds).1
      a.lockout_duration_seconds,
  (optional_int64_diff_iff request.lockout_counter_reset_seconds
        current.lockout_counter_reset_seconds).1
      a.lockout_counter_reset_seconds,
)

needs_update_of :
    (config : Option UniversalAuthConfigSpec) (auth : InfisicalUniversalAuth)
    (current : UniversalAuthConfig)
    → auth.spec.config ≡ config
    → (universal_auth_config_needs_update auth current ≡ false)
      ↔ Applied (universal_auth_config_request auth) current
unfolding universal_auth_config_needs_update universal_auth_config_request
needs_update_of none auth current e = rw e (
  (λ h. record {
    client_secret_trusted_ips = tt;
    access_token_trusted_ips = tt;
    access_token_ttl = tt;
    access_token_max_ttl = tt;
    access_token_num_uses_limit = tt;
    access_token_period = tt;
    lockout_enabled = tt;
    lockout_threshold = tt;
    lockout_duration_seconds = tt;
    lockout_counter_reset_seconds = tt;
  }),
  (λ a. refl),
)
needs_update_of (some config) auth current e =
    rw e (differs-Applied _ current, Applied-differs _ current)

-- Universal Auth is left as it is exactly when it has every value that the request of the operator
-- sets; values that the specification leaves out are not compared.
pub universal_auth_config_needs_update_iff :
    (auth : InfisicalUniversalAuth) (current : UniversalAuthConfig)
    → (universal_auth_config_needs_update auth current ≡ false)
      ↔ Applied (universal_auth_config_request auth) current
universal_auth_config_needs_update_iff auth current =
    needs_update_of auth.spec.config auth current refl

empty_addresses :
    (ips : Option (List UniversalAuthTrustedIp))
    → ips ≢ some []
    → optional_list_diff (some []) (addresses ips) ≡ true
unfolding optional_list_diff
empty_addresses none h = refl
empty_addresses (some []) h = absurd (h refl)
empty_addresses (some (ip ∷ ips)) h = refl

-- An empty list of trusted addresses is not sent, and is compared all the same: the request is that of a
-- specification without the list, and Universal Auth counts as out of date as long as it has another list.
pub universal_auth_config-empty_ips :
    (auth : InfisicalUniversalAuth) (config : UniversalAuthConfigSpec)
    (current : UniversalAuthConfig)
    → auth.spec.config ≡ some config
    → config.client_secret_trusted_ips ≡ some []
    → current.client_secret_trusted_ips ≢ some []
    → (encode_universal_auth_config (universal_auth_config_request auth)
        ≡ encode_universal_auth_config
            (record (universal_auth_config_request auth) { client_secret_trusted_ips = none }))
      × (universal_auth_config_needs_update auth current ≡ true)
unfolding encode_universal_auth_config universal_auth_config_request
    universal_auth_config_needs_update differs universal_auth_trusted_ips_from omit_no_items
universal_auth_config-empty_ips auth config current is empty other = (
  rw is (rw empty refl),
  rw is (rw empty (ground (arith, empty_addresses current.client_secret_trusted_ips other))),
)
