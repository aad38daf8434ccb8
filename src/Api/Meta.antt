-- ===== src/Api/Meta.antt =====
-- api/infisical/v1alpha1/common.go, and what the operator reads of metav1.ObjectMeta, Condition and
-- corev1.Secret. Enumerations are texts, as in the source; a time is a number of nanoseconds, 0 for
-- the zero time.
use infisical_entity_operato.Base.{
  ℕ, String, Bool, true, Option, none, some, List, nat_eq, string_discrete, ℕ_discrete,
}

abbrev pub CreationPolicy : Type 0
CreationPolicy = String

abbrev pub creation_policy_create : CreationPolicy
creation_policy_create = "Create"

abbrev pub creation_policy_adopt : CreationPolicy
creation_policy_adopt = "Adopt"

abbrev pub creation_policy_create_or_adopt : CreationPolicy
creation_policy_create_or_adopt = "CreateOrAdopt"

abbrev pub DeletionPolicy : Type 0
DeletionPolicy = String

abbrev pub deletion_policy_delete : DeletionPolicy
deletion_policy_delete = "Delete"

abbrev pub deletion_policy_orphan : DeletionPolicy
deletion_policy_orphan = "Orphan"

pub record SecretKeyReference : Type 0 where
  pub name : String
  pub key : String

pub record UniversalAuthSecretReference : Type 0 where
  pub name : String
  pub client_id_key : String
  pub client_secret_key : String

pub record LocalObjectReference : Type 0 where
  pub name : String

pub record IdentityMetadata : Type 0 where
  pub key : String
  pub value : String

pub record EnvironmentStatus : Type 0 where
  pub id : String
  pub name : String
  pub slug : String

pub record ObjectMeta : Type 0 where
  pub namespace : String
  pub name : String
  pub generation : ℕ
  pub deletion_timestamp : Option ℕ
  pub finalizers : List String
  pub uid : String

-- metav1.Time.IsZero, of a pointer
abbrev pub is_zero_time : Option ℕ → Bool
is_zero_time none = true
is_zero_time (some t) = nat_eq t 0

pub record Condition : Type 0 where
  pub type : String
  pub status : String
  pub observed_generation : ℕ
  pub last_transition_time : ℕ
  pub reason : String
  pub message : String

abbrev pub condition_true : String
condition_true = "True"

abbrev pub condition_false : String
condition_false = "False"

-- metav1.OwnerReference; a nil pointer to a Boolean counts as false.
pub record OwnerReference : Type 0 where
  pub api_version : String
  pub kind : String
  pub name : String
  pub uid : String
  pub controller : Bool
  pub block_owner_deletion : Bool

-- `resource_version` is empty where the Secret is not stored yet.
pub record Secret : Type 0 where
  pub meta : ObjectMeta
  pub type : String
  pub resource_version : String
  pub annotations : List (String × String)
  pub owner_references : List OwnerReference
  pub values : List (String × String)

unfoldable pub SecretKeyReference-discrete : Discrete SecretKeyReference
unfolding string_discrete
SecretKeyReference-discrete = hlevel string_discrete

unfoldable pub UniversalAuthSecretReference-discrete : Discrete UniversalAuthSecretReference
unfolding string_discrete
UniversalAuthSecretReference-discrete = hlevel string_discrete

unfoldable pub LocalObjectReference-discrete : Discrete LocalObjectReference
unfolding string_discrete
LocalObjectReference-discrete = hlevel string_discrete

unfoldable pub IdentityMetadata-discrete : Discrete IdentityMetadata
unfolding string_discrete
IdentityMetadata-discrete = hlevel string_discrete

unfoldable pub EnvironmentStatus-discrete : Discrete EnvironmentStatus
unfolding string_discrete
EnvironmentStatus-discrete = hlevel string_discrete

unfoldable pub ObjectMeta-discrete : Discrete ObjectMeta
unfolding string_discrete ℕ_discrete
ObjectMeta-discrete = hlevel (string_discrete, ℕ_discrete)

unfoldable pub Condition-discrete : Discrete Condition
unfolding string_discrete ℕ_discrete
Condition-discrete = hlevel (string_discrete, ℕ_discrete)
