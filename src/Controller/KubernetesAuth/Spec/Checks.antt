-- ===== src/Controller/KubernetesAuth/Spec/Checks.antt =====
-- What each check of a specification of Kubernetes Auth asks for.
use infisical_entity_operato.Base.{
  ℕ, suc, ℤ, pos, negsuc, ◌≤◌, String, Bool, true, false, not, ◌&&◌, ◌||◌, ◌≡◌, ◌≢◌, ◌↔◌, ◌⊎◌, inl,
  inr, refl, arith, eq_iff, ◌==◌, Bool-cases, Option, none, some, List, [], ◌∷◌, All, is_blank,
  trim_space,
}
use infisical_entity_operato.Failure.{Error}
use infisical_entity_operato.Api.{SecretKeyReference, KubernetesTrustedIp}
use infisical_entity_operato.Platform.{Platform}
use infisical_entity_operato.Controller.Connections.{secret_ref_blank}
use infisical_entity_operato.Controller.KubernetesAuth.Spec.{
  refuse, first_error, value_checks, address_checks, values_error, validate_kubernetes_auth_values,
  validate_kubernetes_auth_duration, kubernetes_auth_mode, negative_limit, verification_error,
  trusted_ips_error,
}

abbrev pub Passes : Option Error → Type 0
Passes e = e ≡ none

-- A text that is not empty and has no space around it
abbrev pub IsWord : String → Type 0
IsWord s = (trim_space s ≡ s) × (s ≢ "")

abbrev pub InRange : Option ℤ → Type 0
InRange none = Unit
InRange (some (pos n)) = n ≤ 315360000
InRange (some (negsuc n)) = ⊥

abbrev pub NotNegative : Option ℤ → Type 0
NotNegative none = Unit
NotNegative (some (pos n)) = Unit
NotNegative (some (negsuc n)) = ⊥

-- The certificate authority is given where certificates are verified, and not where they are not.
abbrev pub MatchesVerification : Option Bool → Option SecretKeyReference → Type 0
MatchesVerification none ref = Unit
MatchesVerification (some true) ref = ref ≢ none
MatchesVerification (some false) ref = ref ≡ none

abbrev pub IsNamed : Option SecretKeyReference → Type 0
IsNamed none = Unit
IsNamed (some ref) = is_blank ref.name ≡ false

abbrev pub IsAddress : Platform → KubernetesTrustedIp → Type 0
IsAddress platform ip =
    IsWord ip.ip_address
    × ((platform.is_ip ip.ip_address ≡ true) ⊎ (platform.is_cidr ip.ip_address ≡ true))

pub first_error_iff : (es : List (Option Error)) → (first_error es ≡ none) ↔ All Passes es
unfolding first_error
first_error_iff [] = ((λ h. tt), (λ h. refl))
first_error_iff (none ∷ es) =
    ((λ h. (refl, (first_error_iff es).0 h)), (λ h. (first_error_iff es).1 h.1))
first_error_iff (some e ∷ es) = ((λ h. absurd (ground arith)), (λ h. absurd (ground (arith, h.0))))

pub refuse_iff : (b : Bool) (text : String) → (refuse b text ≡ none) ↔ (b ≡ false)
refuse_iff true text = ground arith
refuse_iff false text = ground arith

pub IsWord-iff :
    (s : String) → ((s == "" || is_blank s) ≡ false) × (not (s == trim_space s) ≡ false) ↔ IsWord s
IsWord-iff s = ground (arith, eq_iff s "", eq_iff (trim_space s) "", eq_iff s (trim_space s))

pub values_iff :
    (field : String) (i : ℕ) (values : List String)
    → (values_error field i values ≡ none) ↔ All IsWord values
unfolding values_error
values_iff field i [] = ((λ h. tt), (λ h. refl))
values_iff field i (value ∷ values) = (
  (λ h.
      let (filled, (trimmed, (rest, _))) =
        (first_error_iff (value_checks field i value (values_error field (suc i) values))).0 h in
      (
        (IsWord-iff value).0 ((refuse_iff _ _).0 filled, (refuse_iff _ _).0 trimmed),
        (values_iff field (suc i) values).0 rest,
      )),
  (λ h.
      let (filled, trimmed) = (IsWord-iff value).1 h.0 in
      (first_error_iff (value_checks field i value (values_error field (suc i) values))).1 (
        (refuse_iff _ _).1 filled,
        ((refuse_iff _ _).1 trimmed, ((values_iff field (suc i) values).1 h.1, tt)),
      )),
)

pub named_values_iff :
    (values : List String) (field : String)
    → (validate_kubernetes_auth_values values field ≡ none) ↔ ((values ≢ []) × All IsWord values)
unfolding validate_kubernetes_auth_values
named_values_iff [] field = ((λ h. absurd (ground arith)), (λ h. absurd (h.0 refl)))
named_values_iff (x ∷ xs) field = (
  (λ h. ((λ e. cc), (values_iff field 0 (x ∷ xs)).0 h)),
  (λ h. (values_iff field 0 (x ∷ xs)).1 h.1),
)

pub duration_iff :
    (value : Option ℤ) (field : String)
    → (validate_kubernetes_auth_duration value field ≡ none) ↔ InRange value
unfolding validate_kubernetes_auth_duration
duration_iff none field = ground arith
duration_iff (some (pos n)) field = ground arith
duration_iff (some (negsuc n)) field = ground arith

pub negative_iff : (value : Option ℤ) → (negative_limit value ≡ false) ↔ NotNegative value
negative_iff none = ground arith
negative_iff (some (pos n)) = ground arith
negative_iff (some (negsuc n)) = ground arith

pub verification_iff :
    (verify : Option Bool) (ref : Option SecretKeyReference)
    → (verification_error verify ref ≡ none) ↔ MatchesVerification verify ref
unfolding verification_error
verification_iff none ref = ((λ h. tt), (λ h. refl))
verification_iff (some true) none = ground arith
verification_iff (some true) (some ref) = ground arith
verification_iff (some false) none = ground arith
verification_iff (some false) (some ref) = ground arith

pub IsNamed-iff : (ref : Option SecretKeyReference) → (secret_ref_blank ref ≡ false) ↔ IsNamed ref
IsNamed-iff none = ground arith
IsNamed-iff (some ref) = ((λ h. h), (λ h. h))

address_iff : (b c : Bool) → ((not b && not c) ≡ false) ↔ ((b ≡ true) ⊎ (c ≡ true))
address_iff true c = ground arith
address_iff false true = ground arith
address_iff false false = ground arith

pub addresses_iff :
    (platform : Platform) (i : ℕ) (ips : List KubernetesTrustedIp)
    → (trusted_ips_error platform i ips ≡ none) ↔ All (IsAddress platform) ips
unfolding trusted_ips_error
addresses_iff platform i [] = ((λ h. tt), (λ h. refl))
addresses_iff platform i (ip ∷ ips) = (
  (λ h.
      let (filled, (trimmed, (address, (rest, _)))) =
        (first_error_iff
            (address_checks platform i ip.ip_address (trusted_ips_error platform (suc i) ips))).0
          h in
      (
        (
          (IsWord-iff ip.ip_address).0 ((refuse_iff _ _).0 filled, (refuse_iff _ _).0 trimmed),
          (address_iff _ _).0 ((refuse_iff _ _).0 address),
        ),
        (addresses_iff platform (suc i) ips).0 rest,
      )),
  (λ h.
      let (filled, trimmed) = (IsWord-iff ip.ip_address).1 h.0.0 in
      (first_error_iff
          (address_checks platform i ip.ip_address (trusted_ips_error platform (suc i) ips))).1
        (
          (refuse_iff _ _).1 filled,
          (
            (refuse_iff _ _).1 trimmed,
            (
              (refuse_iff _ _).1 ((address_iff _ _).1 h.0.1),
              ((addresses_iff platform (suc i) ips).1 h.1, tt),
            ),
          ),
        )),
)

pub host_iff :
    (host : String)
    → ((not (host == "") && not (trim_space host == host)) ≡ false)
      ↔ ((host ≡ "") ⊎ (trim_space host ≡ host))
host_iff host = ground (arith, eq_iff host "", eq_iff (trim_space host) host)

pub mode_iff :
    (mode : String)
    → (not (kubernetes_auth_mode mode == "api") ≡ false) ↔ ((mode ≡ "") ⊎ (mode ≡ "api"))
unfolding kubernetes_auth_mode
mode_iff mode = elim (Bool-cases (mode == "")) [
  | inl empty ↦ rw empty ((λ h. inl ((eq_iff mode "").0 empty)), (λ h. refl))
  | inr set ↦ rw set (ground (arith, eq_iff mode "", eq_iff mode "api"))
]
