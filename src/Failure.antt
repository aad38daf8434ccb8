-- ===== src/Failure.antt =====
-- The error values of the operator: dependencyError of internal/controller/infisical/common.go,
-- identityConfigurationError, HTTPError and InvalidResponseError of internal/infisicalclient, and
-- the errors of the Kubernetes client.
use infisical_entity_operato.Base.{
  ℕ, String, Bool, true, false, [], ◌∷◌, ◌==◌, ◌||◌, nat_eq, concat, decimal, trim_space,
  if◌then◌else◌,
}

pub data Error : Type 0 where
  -- errors.New, and fmt.Errorf without `%w`
  plain : String → Error
  -- fmt.Errorf("prefix%w", err)
  wrapped : String → Error → Error
  dependency : String → Error
  configuration : Error → Error
  http_error : (status_code : ℕ) (body : String) → Error
  invalid_response : String → Error
  -- an API status error of Kubernetes, and whether its reason is NotFound
  kube_error : (not_found : Bool) (message : String) → Error

-- The method `Error` of each type.
unfoldable pub message : Error → String
message (plain s) = s
message (wrapped prefix e) = concat (prefix ∷ message e ∷ [])
message (dependency s) = s
message (configuration e) = message e
message (http_error code body) =
    if body == ""
    then concat ("Infisical API returned HTTP " ∷ decimal code ∷ [])
    else concat ("Infisical API returned HTTP " ∷ decimal code ∷ ": " ∷ body ∷ [])
message (invalid_response s) = s
message (kube_error not_found s) = s

-- errors.As walks through what `Unwrap` shows: the `%w` errors and identityConfigurationError.
unfoldable pub is_dependency_error : Error → Bool
is_dependency_error (dependency s) = true
is_dependency_error (wrapped prefix e) = is_dependency_error e
is_dependency_error (configuration e) = is_dependency_error e
is_dependency_error _ = false

unfoldable pub is_configuration_error : Error → Bool
is_configuration_error (configuration e) = true
is_configuration_error (wrapped prefix e) = is_configuration_error e
is_configuration_error _ = false

unfoldable pub is_not_found : Error → Bool
is_not_found (http_error code body) = nat_eq code 404
is_not_found (wrapped prefix e) = is_not_found e
is_not_found (configuration e) = is_not_found e
is_not_found _ = false

unfoldable pub is_unauthorized : Error → Bool
is_unauthorized (http_error code body) = nat_eq code 401 || nat_eq code 403
is_unauthorized (wrapped prefix e) = is_unauthorized e
is_unauthorized (configuration e) = is_unauthorized e
is_unauthorized _ = false

-- apierrors.IsNotFound
unfoldable pub is_kube_not_found : Error → Bool
is_kube_not_found (kube_error not_found s) = not_found
is_kube_not_found (wrapped prefix e) = is_kube_not_found e
is_kube_not_found (configuration e) = is_kube_not_found e
is_kube_not_found _ = false

-- statusErrorMessage, of an error that is not nil
unfoldable pub status_error_message : Error → String
unfolding message
status_error_message e = trim_space (message e)

-- Seconds, in Go's nanoseconds.
abbrev pub dependency_retry : ℕ
dependency_retry = 15000000000

abbrev pub external_retry : ℕ
external_retry = 30000000000

abbrev pub drift_detection_every : ℕ
drift_detection_every = 120000000000

unfoldable pub retry_for : Error → ℕ
retry_for e = if is_dependency_error e then dependency_retry else external_retry
