-- ===== src/Controller/Connections/Valid.antt =====
-- What a valid connection has, and what building its client does.
use infisical_entity_operato.Base.{
  ℤ, pos, String, ◌≡◌, ◌≢◌, refl, ◌∙◌, ap, ◌↔◌, ◌⊎◌, inl, inr, false, Option, none, some, bool_eq,
  is_blank, is_negative, int_eq_iff, trim_right, trim_space, All, arith, eq_iff,
}
use infisical_entity_operato.Result.{Result, ok, err}
use infisical_entity_operato.Api.{
  SecretKeyReference, InfisicalConnection, UniversalAuthConnectionSpec, LocalObjectReference,
}
use infisical_entity_operato.Platform.{Url, Run, Platform}
use infisical_entity_operato.Exec.Outcome.{bind-ok, lift-ok}
use infisical_entity_operato.Client.Http.{parse_base_url}
use infisical_entity_operato.Client.Http.Valid.{IsWebAddress, IsWebAddress-accepted}
use infisical_entity_operato.Controller.Calls.{NotHttp, Reads_NotHttp}
use infisical_entity_operato.Controller.Connections.{
  url_error, bad_timeout, host_error, validate_connection_spec, secret_ref_blank,
  universal_auth_blank, is_some, infisical_client_for_connection, non_empty_value,
  secret_value_from_reference,
}
use infisical_entity_operato.Controller.Connections.Calls.{Emits-infisical_client_for_connection}

-- The address, without spaces around it and slashes at its end
abbrev pub host_of : String → String
host_of host_api = trim_right b'/' (trim_space host_api)

-- No host is given, or one that parses to such an address
abbrev pub HostValid : Platform → String → Type 0
HostValid platform host_api =
    (host_of host_api ≡ "")
    ⊎ ((url : Url) × (platform.parse_url (host_of host_api) ≡ ok url) × IsWebAddress url)

-- Exactly one way to authenticate, with a Secret that has a name
abbrev pub OneAuth : Option SecretKeyReference → Option UniversalAuthConnectionSpec → Type 0
OneAuth (some ref) none = is_blank ref.name ≡ false
OneAuth none (some auth) = is_blank auth.secret_ref.name ≡ false
OneAuth none none = ⊥
OneAuth (some ref) (some auth) = ⊥

abbrev pub TimeoutValid : Option ℤ → Type 0
TimeoutValid none = Unit
TimeoutValid (some t) = (is_negative t ≡ false) × (t ≢ pos 0)

url_error_iff : (url : Url) → (url_error (ok url) ≡ none) ↔ IsWebAddress url
unfolding url_error
url_error_iff url = ground (
  arith,
  eq_iff url.scheme "http",
  eq_iff url.scheme "https",
  eq_iff url.host "",
  eq_iff url.raw_query "",
  eq_iff url.fragment "",
)

parsed_iff :
    (x : Result String Url) → (url_error x ≡ none) ↔ ((url : Url) × (x ≡ ok url) × IsWebAddress url)
unfolding url_error
parsed_iff (ok url) = (
  λ h. (url, refl, (url_error_iff url).0 h),
  λ (u, is, valid). ap url_error is ∙ (url_error_iff u).1 valid,
)
parsed_iff (err text) = (λ h. ground arith, λ (u, is, valid). ground arith)

timeout_iff : (t : Option ℤ) → (bad_timeout t ≡ false) ↔ TimeoutValid t
timeout_iff none = ground arith
timeout_iff (some t) = ground (arith, int_eq_iff t (pos 0))

auth_iff :
    (ref : Option SecretKeyReference) (auth : Option UniversalAuthConnectionSpec)
    → ((bool_eq (is_some ref) (is_some auth) ≡ false)
        × (secret_ref_blank ref ≡ false)
        × (universal_auth_blank auth ≡ false))
      ↔ OneAuth ref auth
auth_iff none none = ground arith
auth_iff none (some auth) = ground arith
auth_iff (some ref) none = ground arith
auth_iff (some ref) (some auth) = ground arith

module _ (platform : Platform) where
  host_iff :
      (host_api : String) → (host_error platform host_api ≡ none) ↔ HostValid platform host_api
  unfolding host_error
  host_iff host_api =
      ground
        (arith, eq_iff (host_of host_api) "", parsed_iff (platform.parse_url (host_of host_api)))

  -- A connection passes the checks exactly when it has one way to authenticate, with a named Secret, an
  -- address that is empty or a web address without query, and a timeout that is absent or positive.
  pub validate_connection_spec_iff :
      (connection : InfisicalConnection)
      → (validate_connection_spec platform connection ≡ none) ↔ (
          OneAuth connection.spec.auth_secret_ref connection.spec.universal_auth
          × HostValid platform connection.spec.host_api
          × TimeoutValid connection.spec.request_timeout)
  unfolding validate_connection_spec
  validate_connection_spec_iff connection = ground (
    arith,
    auth_iff connection.spec.auth_secret_ref connection.spec.universal_auth,
    host_iff connection.spec.host_api,
    timeout_iff connection.spec.request_timeout,
  )

  -- The client accepts the address of a valid connection, if there is one.
  pub validate_connection_spec-accepted :
      (connection : InfisicalConnection)
      → validate_connection_spec platform connection ≡ none
      → host_of connection.spec.host_api ≢ ""
      → (url : Url) × (parse_base_url platform connection.spec.host_api ≡ ok url)
  validate_connection_spec-accepted connection valid given =
      elim ((validate_connection_spec_iff connection).0 valid).1 [
        | inl empty ↦ absurd (given empty)
        | inr (url, parsed, web) ↦
            (url, IsWebAddress-accepted platform connection.spec.host_api url parsed web)
      ]

  -- To build the client of a connection takes reads from Kubernetes alone: it sends nothing to
  -- Infisical, if nothing was sent before.
  pub infisical_client_for_connection-NotHttp :
      (namespace : String) (ref : LocalObjectReference) (r : Run)
      → All NotHttp r.calls
      → All NotHttp (infisical_client_for_connection platform namespace ref r).1.calls
  infisical_client_for_connection-NotHttp namespace ref r h =
      (Emits-infisical_client_for_connection platform Reads_NotHttp namespace ref).at r h

  non_empty-ok :
      (purpose namespace name key : String) (found : Option String) (value : String)
      → non_empty_value platform purpose namespace name key found ≡ ok value
      → (found ≡ some value) × (is_blank value ≡ false)
  unfolding non_empty_value
  non_empty-ok purpose namespace name key none value h = ground arith
  non_empty-ok purpose namespace name key (some v) value h = ground arith

  -- A value that is read from a Secret is not blank.
  pub secret_value_from_reference-NotBlank :
      (namespace : String) (ref : SecretKeyReference) (default_key purpose value : String)
      (r r' : Run)
      → secret_value_from_reference platform namespace ref default_key purpose r ≡ (ok value, r')
      → is_blank value ≡ false
  unfolding secret_value_from_reference
  secret_value_from_reference-NotBlank namespace ref default_key purpose value r r' h =
      let (secret, r1, _, rest) = bind-ok _ _ r r' value h in
      (non_empty-ok _ _ _ _ _ value (lift-ok _ r1 r' value rest).0).1
