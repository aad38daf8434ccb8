-- ===== src/Api/Resources.antt =====
-- The custom resources of api/infisical/v1alpha1: connections, organizations, projects and
-- environments. A reference to a connection or to a local object is the record of its name.
use infisical_entity_operato.Base.{
  ℕ, ℤ, String, Bool, Option, List, string_discrete, ℕ_discrete, ℤ-discrete,
}
use infisical_entity_operato.Api.Meta.{
  CreationPolicy, DeletionPolicy, SecretKeyReference, UniversalAuthSecretReference,
  LocalObjectReference, EnvironmentStatus, ObjectMeta, Condition, SecretKeyReference-discrete,
  UniversalAuthSecretReference-discrete, LocalObjectReference-discrete, EnvironmentStatus-discrete,
  ObjectMeta-discrete, Condition-discrete,
}

pub record UniversalAuthConnectionSpec : Type 0 where
  pub secret_ref : UniversalAuthSecretReference
  pub organization_slug : String

-- `request_timeout` is in nanoseconds.
pub record InfisicalConnectionSpec : Type 0 where
  pub host_api : String
  pub auth_secret_ref : Option SecretKeyReference
  pub universal_auth : Option UniversalAuthConnectionSpec
  pub request_timeout : Option ℤ

pub record InfisicalConnectionStatus : Type 0 where
  pub observed_generation : ℕ
  pub conditions : List Condition

pub record InfisicalConnection : Type 0 where
  pub meta : ObjectMeta
  pub spec : InfisicalConnectionSpec
  pub status : InfisicalConnectionStatus

pub record InfisicalOrganizationSpec : Type 0 where
  pub connection_ref : LocalObjectReference
  pub organization_id : String
  pub organization_name : String
  pub creation_policy : CreationPolicy
  pub deletion_policy : DeletionPolicy

pub record InfisicalOrganizationStatus : Type 0 where
  pub organization_id : String
  pub organization_name : String
  pub slug : String
  pub observed_generation : ℕ
  pub conditions : List Condition

pub record InfisicalOrganization : Type 0 where
  pub meta : ObjectMeta
  pub spec : InfisicalOrganizationSpec
  pub status : InfisicalOrganizationStatus

pub record InfisicalProjectSpec : Type 0 where
  pub connection_ref : LocalObjectReference
  pub organization_ref : Option LocalObjectReference
  pub project_name : String
  pub description : String
  pub slug : String
  pub type : String
  pub should_create_default_envs : Option Bool
  pub has_delete_protection : Option Bool
  pub creation_policy : CreationPolicy
  pub deletion_policy : DeletionPolicy

pub record InfisicalProjectStatus : Type 0 where
  pub project_id : String
  pub slug : String
  pub organization_id : String
  pub environments : List EnvironmentStatus
  pub observed_generation : ℕ
  pub conditions : List Condition

pub record InfisicalProject : Type 0 where
  pub meta : ObjectMeta
  pub spec : InfisicalProjectSpec
  pub status : InfisicalProjectStatus

pub record InfisicalEnvironmentSpec : Type 0 where
  pub connection_ref : LocalObjectReference
  pub project_ref : LocalObjectReference
  pub environment_name : String
  pub slug : String
  pub position : Option ℤ
  pub creation_policy : CreationPolicy
  pub deletion_policy : DeletionPolicy

pub record InfisicalEnvironmentStatus : Type 0 where
  pub environment_id : String
  pub project_id : String
  pub name : String
  pub slug : String
  pub position : ℤ
  pub observed_generation : ℕ
  pub conditions : List Condition

pub record InfisicalEnvironment : Type 0 where
  pub meta : ObjectMeta
  pub spec : InfisicalEnvironmentSpec
  pub status : InfisicalEnvironmentStatus

UniversalAuthConnectionSpec-discrete : Discrete UniversalAuthConnectionSpec
unfolding string_discrete UniversalAuthSecretReference-discrete
UniversalAuthConnectionSpec-discrete =
    hlevel (string_discrete, UniversalAuthSecretReference-discrete)

InfisicalConnectionSpec-discrete : Discrete InfisicalConnectionSpec
unfolding string_discrete ℤ-discrete SecretKeyReference-discrete
    UniversalAuthConnectionSpec-discrete
InfisicalConnectionSpec-discrete =
    hlevel (
      string_discrete, ℤ-discrete, SecretKeyReference-discrete,
      UniversalAuthConnectionSpec-discrete,
    )

InfisicalConnectionStatus-discrete : Discrete InfisicalConnectionStatus
unfolding ℕ_discrete Condition-discrete
InfisicalConnectionStatus-discrete = hlevel (ℕ_discrete, Condition-discrete)

unfoldable pub InfisicalConnection-discrete : Discrete InfisicalConnection
unfolding ObjectMeta-discrete InfisicalConnectionSpec-discrete InfisicalConnectionStatus-discrete
InfisicalConnection-discrete =
    hlevel
      (ObjectMeta-discrete, InfisicalConnectionSpec-discrete, InfisicalConnectionStatus-discrete)

InfisicalOrganizationSpec-discrete : Discrete InfisicalOrganizationSpec
unfolding string_discrete LocalObjectReference-discrete
InfisicalOrganizationSpec-discrete = hlevel (string_discrete, LocalObjectReference-discrete)

InfisicalOrganizationStatus-discrete : Discrete InfisicalOrganizationStatus
unfolding string_discrete ℕ_discrete Condition-discrete
InfisicalOrganizationStatus-discrete = hlevel (string_discrete, ℕ_discrete, Condition-discrete)

unfoldable pub InfisicalOrganization-discrete : Discrete InfisicalOrganization
unfolding ObjectMeta-discrete InfisicalOrganizationSpec-discrete
    InfisicalOrganizationStatus-discrete
InfisicalOrganization-discrete =
    hlevel (
      ObjectMeta-discrete, InfisicalOrganizationSpec-discrete, InfisicalOrganizationStatus-discrete,
    )

InfisicalProjectSpec-discrete : Discrete InfisicalProjectSpec
unfolding string_discrete LocalObjectReference-discrete
InfisicalProjectSpec-discrete = hlevel (string_discrete, LocalObjectReference-discrete)

InfisicalProjectStatus-discrete : Discrete InfisicalProjectStatus
unfolding string_discrete ℕ_discrete Condition-discrete EnvironmentStatus-discrete
InfisicalProjectStatus-discrete =
    hlevel (string_discrete, ℕ_discrete, Condition-discrete, EnvironmentStatus-discrete)

unfoldable pub InfisicalProject-discrete : Discrete InfisicalProject
unfolding ObjectMeta-discrete InfisicalProjectSpec-discrete InfisicalProjectStatus-discrete
InfisicalProject-discrete =
    hlevel (ObjectMeta-discrete, InfisicalProjectSpec-discrete, InfisicalProjectStatus-discrete)

InfisicalEnvironmentSpec-discrete : Discrete InfisicalEnvironmentSpec
unfolding string_discrete ℤ-discrete LocalObjectReference-discrete
InfisicalEnvironmentSpec-discrete =
    hlevel (string_discrete, ℤ-discrete, LocalObjectReference-discrete)

InfisicalEnvironmentStatus-discrete : Discrete InfisicalEnvironmentStatus
unfolding string_discrete ℕ_discrete ℤ-discrete Condition-discrete
InfisicalEnvironmentStatus-discrete =
    hlevel (string_discrete, ℕ_discrete, ℤ-discrete, Condition-discrete)

unfoldable pub InfisicalEnvironment-discrete : Discrete InfisicalEnvironment
unfolding ObjectMeta-discrete InfisicalEnvironmentSpec-discrete InfisicalEnvironmentStatus-discrete
InfisicalEnvironment-discrete =
    hlevel
      (ObjectMeta-discrete, InfisicalEnvironmentSpec-discrete, InfisicalEnvironmentStatus-discrete)
