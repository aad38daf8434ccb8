-- ===== src/Platform.antt =====
-- What surrounds the operator: the Kubernetes API behind controller-runtime's client, the Infisical
-- server behind net/http, the clock, and the parsers of net/url and time. Each answer is a function
-- of the calls made so far, so it may depend on them in any way.
use infisical_entity_operato.Base.{ℕ, ℤ, String, Bool, Option, List}
use infisical_entity_operato.Result.{Result}
use infisical_entity_operato.Failure.{Error}
use infisical_entity_operato.Json.{Json}
use infisical_entity_operato.Api.{
  OwnerReference, Secret, InfisicalConnection, InfisicalOrganization, InfisicalProject,
  InfisicalEnvironment, InfisicalIdentity, InfisicalUniversalAuth, InfisicalKubernetesAuth,
}

-- types.NamespacedName
pub record Key : Type 0 where
  pub namespace : String
  pub name : String

pub data Kind : Type 0 where
  connection organization project environment identity universal_auth kubernetes_auth secret : Kind

pub data Object : Type 0 where
  connection : InfisicalConnection → Object
  organization : InfisicalOrganization → Object
  project : InfisicalProject → Object
  environment : InfisicalEnvironment → Object
  identity : InfisicalIdentity → Object
  universal_auth : InfisicalUniversalAuth → Object
  kubernetes_auth : InfisicalKubernetesAuth → Object
  secret : Secret → Object

-- The parts of url.URL that the client reads.
pub record Url : Type 0 where
  pub scheme : String
  pub host : String
  pub path : String
  pub raw_query : String
  pub fragment : String

pub data Method : Type 0 where
  get post patch delete : Method

-- `token` is that of the header "Authorization: Bearer", "" where there is no such header.
pub record Request : Type 0 where
  pub method : Method
  pub url : Url
  pub query : List (String × String)
  pub token : String
  pub body : Option Json

pub data Payload : Type 0 where
  unreadable : String → Payload
  -- the text, as far as it is read, and the JSON value that it holds, if it does
  content : String → Option Json → Payload

pub data Reply : Type 0 where
  no_response : String → Reply
  response : ℕ → Payload → Reply

pub data Call : Type 0 where
  read : Kind → Key → Call
  -- List, in a namespace
  list : Kind → String → Call
  create : Object → Call
  update : Object → Call
  -- Status().Patch with MergeFrom: the object before, and the object
  patch_status : (before after : Object) → Call
  http : Request → Call

-- The calls made so far, the latest first, and the token that the API client in use has cached.
pub record Run : Type 0 where
  pub calls : List Call
  pub cached_token : String
  pub expires_at : ℕ

-- The answer to a call is given from the calls up to it. `now` is the n-th reading of the clock
-- after the last call.
pub record Platform : Type 0 where
  pub get_connection : List Call → Key → Result Error InfisicalConnection
  pub get_organization : List Call → Key → Result Error InfisicalOrganization
  pub get_project : List Call → Key → Result Error InfisicalProject
  pub get_environment : List Call → Key → Result Error InfisicalEnvironment
  pub get_identity : List Call → Key → Result Error InfisicalIdentity
  pub get_universal_auth : List Call → Key → Result Error InfisicalUniversalAuth
  pub get_kubernetes_auth : List Call → Key → Result Error InfisicalKubernetesAuth
  pub get_secret : List Call → Key → Result Error Secret
  pub list_connections : List Call → String → Result Error (List InfisicalConnection)
  pub list_organizations : List Call → String → Result Error (List InfisicalOrganization)
  pub list_projects : List Call → String → Result Error (List InfisicalProject)
  pub list_environments : List Call → String → Result Error (List InfisicalEnvironment)
  pub list_identities : List Call → String → Result Error (List InfisicalIdentity)
  pub list_universal_auths : List Call → String → Result Error (List InfisicalUniversalAuth)
  pub list_kubernetes_auths : List Call → String → Result Error (List InfisicalKubernetesAuth)
  pub write : List Call → Option Error
  pub send : List Call → Request → Reply
  pub now : List Call → ℕ → ℕ
  -- time.Duration of a number of seconds whose nanoseconds are past 2 ^ 62: rounded, or overflown
  pub long_duration : ℤ → ℤ
  pub parse_url : String → Result String Url
  pub is_rfc3339 : String → Bool
  -- controllerutil's functions on the finalizers of an object
  pub contains_finalizer : List String → String → Bool
  pub add_finalizer : List String → String → List String
  pub remove_finalizer : List String → String → List String
  -- metav1.GetControllerOf, and the owner references that controllerutil.SetControllerReference sets
  pub controller_of : List OwnerReference → Option OwnerReference
  pub set_controller_reference : Object → Secret → Result Error (List OwnerReference)
  -- The reconciler has a scheme.
  pub has_scheme : Bool
  -- net.ParseIP and net.ParseCIDR succeed.
  pub is_ip : String → Bool
  pub is_cidr : String → Bool
  -- base64 and JSON decoding of the middle part of an access token
  pub claims : String → Option Json
