-- ===== src/Controller/Connections.antt =====
-- internal/controller/infisical/common.go: from a connection to an API client.
pub mod Calls
pub mod Valid
mod Tests
use infisical_entity_operato.Base.{
  ℕ, ℤ, pos, negsuc, String, Bool, true, false, not, ◌&&◌, ◌||◌, Option, none, some, List, [], ◌∷◌,
  ◌==◌, nat_eq, bool_eq, is_blank, is_negative, int_eq, trim_space, trim_right, lookup, concat,
  quote, if◌then◌else◌,
}
use infisical_entity_operato.Result.{Result, ok, err}
use infisical_entity_operato.Failure.{Error, plain, wrapped, dependency, is_kube_not_found}
use infisical_entity_operato.Api.{
  SecretKeyReference, LocalObjectReference, Secret, InfisicalConnection,
  UniversalAuthConnectionSpec,
}
use infisical_entity_operato.Platform.{Key, Url, Platform}
use infisical_entity_operato.Exec.{
  Exec, pure, raise, lift, check, or_wrap, read_connection, read_secret, ◌>>=◌, ◌>>◌,
}
use infisical_entity_operato.Client.{Client, new, new_with_universal_auth}

abbrev pub is_some {ℓ} : {A : Type ℓ} → Option A → Bool
is_some none = false
is_some (some a) = true

abbrev pub secret_ref_blank : Option SecretKeyReference → Bool
secret_ref_blank none = false
secret_ref_blank (some ref) = is_blank ref.name

abbrev pub universal_auth_blank : Option UniversalAuthConnectionSpec → Bool
universal_auth_blank none = false
universal_auth_blank (some auth) = is_blank auth.secret_ref.name

url_error : Result String Url → Option Error
url_error (err text) = some (wrapped "parse Infisical API URL: " (plain text))
url_error (ok parsed) =
    if not (parsed.scheme == "http") && not (parsed.scheme == "https")
    then some (
        plain
          (concat ("infisical API URL must use http or https, got " ∷ quote parsed.scheme ∷ [])))
    else if parsed.host == ""
    then some (plain "infisical API URL has no host")
    else if not (parsed.raw_query == "") || not (parsed.fragment == "")
    then some (plain "infisical API URL must not contain a query or fragment")
    else none

-- The duration is set and is not greater than zero.
abbrev pub bad_timeout : Option ℤ → Bool
bad_timeout none = false
bad_timeout (some t) = is_negative t || int_eq t (pos 0)

module _ (platform : Platform) where
  host_error : String → Option Error
  unfolding url_error
  host_error host_api =
      let host = trim_right b'/' (trim_space host_api) in
      if host == "" then none else url_error (platform.parse_url host)

  unfoldable pub validate_connection_spec : InfisicalConnection → Option Error
  unfolding host_error
  validate_connection_spec connection =
      let spec = connection.spec in
      if bool_eq (is_some spec.auth_secret_ref) (is_some spec.universal_auth)
      then some (plain "exactly one of authSecretRef or universalAuth must be configured")
      else if secret_ref_blank spec.auth_secret_ref
      then some (plain "authSecretRef.name is required")
      else if universal_auth_blank spec.universal_auth
      then some (plain "universalAuth.secretRef.name is required")
      else elim (host_error spec.host_api) [
        | some e ↦ some e
        | none ↦
            if bad_timeout spec.request_timeout
            then some (plain "requestTimeout must be greater than zero")
            else none
      ]

  -- The errors of a failed read: one of the dependency where the object is not there
  unfoldable pub read_failed : (missing prefix : String) → Error → Error
  read_failed missing prefix e =
      if is_kube_not_found e then dependency missing else wrapped prefix e

  non_empty_value : (purpose namespace name key : String) → Option String → Result Error String
  non_empty_value purpose namespace name key found =
      let missing = dependency (
        concat (
          purpose
          ∷ " Secret "
          ∷ namespace
          ∷ "/"
          ∷ name
          ∷ " does not contain a non-empty "
          ∷ quote key
          ∷ " key"
          ∷ [])) in
      elim found [
        | none ↦ err missing
        | some value ↦ if is_blank value then err missing else ok value
      ]

  unfoldable pub secret_value_from_reference :
      (namespace : String) → SecretKeyReference → (default_key purpose : String) → Exec Error String
  unfolding read_failed non_empty_value
  secret_value_from_reference namespace ref default_key purpose = do
    let key = if ref.key == "" then default_key else ref.key
    secret ← or_wrap (read_secret platform (record { namespace = namespace; name = ref.name })) (
        read_failed
          (concat (purpose ∷ " Secret " ∷ namespace ∷ "/" ∷ ref.name ∷ " was not found" ∷ []))
          (concat ("get " ∷ purpose ∷ " Secret " ∷ namespace ∷ "/" ∷ ref.name ∷ ": " ∷ [])))
    lift (non_empty_value purpose namespace ref.name key (lookup key secret.values))

  unfoldable pub optional_secret_value_from_reference :
      (namespace : String)
      → Option SecretKeyReference
      → (default_key purpose : String) → Exec Error String
  optional_secret_value_from_reference namespace none default_key purpose = pure ""
  optional_secret_value_from_reference namespace (some ref) default_key purpose =
      secret_value_from_reference namespace ref default_key purpose

  abbrev default_host : String → String
  default_host host_api = if host_api == "" then "https://app.infisical.com/api" else host_api

  -- A duration greater than zero, or 30 seconds
  abbrev default_timeout : Option ℤ → ℤ
  default_timeout none = pos 30000000000
  default_timeout (some (negsuc t)) = pos 30000000000
  default_timeout (some (pos t)) = if nat_eq t 0 then pos 30000000000 else pos t

  with_universal_auth :
      (namespace : String)
      → InfisicalConnection
      → Option UniversalAuthConnectionSpec
      → Exec Error Client
  with_universal_auth namespace connection none =
      raise (dependency "connection must configure authSecretRef or universalAuth")
  with_universal_auth namespace connection (some auth) = do
    let ref = auth.secret_ref
    let id_key = if ref.client_id_key == "" then "clientId" else ref.client_id_key
    let secret_key = if ref.client_secret_key == "" then "clientSecret" else ref.client_secret_key
    client_id ←
        secret_value_from_reference namespace (record { name = ref.name; key = id_key }) "client ID"
          "Universal Auth"
    client_secret ←
        secret_value_from_reference namespace (record { name = ref.name; key = secret_key })
          "client secret" "Universal Auth"
    new_with_universal_auth platform (default_host connection.spec.host_api) client_id client_secret
        auth.organization_slug (default_timeout connection.spec.request_timeout)

  client_of :
      (namespace : String) → InfisicalConnection → Option SecretKeyReference → Exec Error Client
  unfolding with_universal_auth
  client_of namespace connection none =
      with_universal_auth namespace connection connection.spec.universal_auth
  client_of namespace connection (some ref) = do
    token ← secret_value_from_reference namespace ref "token" "authentication"
    new platform (default_host connection.spec.host_api) token
        (default_timeout connection.spec.request_timeout)

  unfoldable pub infisical_client_for_connection :
      (namespace : String) → LocalObjectReference → Exec Error Client
  unfolding client_of
  infisical_client_for_connection namespace ref = do
    check (if is_blank ref.name then some (dependency "connectionRef.name is required") else none)
    connection ←
        or_wrap (read_connection platform (record { namespace = namespace; name = ref.name })) (
          read_failed
            (concat ("InfisicalConnection " ∷ namespace ∷ "/" ∷ ref.name ∷ " was not found" ∷ []))
            (concat ("get InfisicalConnection " ∷ namespace ∷ "/" ∷ ref.name ∷ ": " ∷ [])))
    check (validate_connection_spec connection)
    client_of namespace connection connection.spec.auth_secret_ref

unfoldable pub connection_references_secret : InfisicalConnection → String → Bool
connection_references_secret connection name =
    elim connection.spec.auth_secret_ref [ some ref ↦ ref.name == name | none ↦ false ]
    || elim connection.spec.universal_auth [
      | some auth ↦ auth.secret_ref.name == name
      | none ↦ false
    ]
