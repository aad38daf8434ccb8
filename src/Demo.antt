-- ===== src/Demo.antt =====
-- Data that the tests and the witnesses share: a cluster with one object of each kind, an Infisical
-- server with one project and one identity, and a clock that stands still.
use infisical_entity_operato.Base.{
  ℤ, String, true, false, none, some, [], ◌∷◌, contains, if◌then◌else◌,
}
use infisical_entity_operato.Result.{ok}
use infisical_entity_operato.Json.{Json, str, obj, end, field}
use infisical_entity_operato.Api.{
  ObjectMeta, Secret, InfisicalConnection, InfisicalOrganization, InfisicalProject,
  InfisicalEnvironment, InfisicalIdentity, InfisicalUniversalAuth, InfisicalKubernetesAuth,
  OwnerReference,
}
use infisical_entity_operato.Platform.{Url, response, content, Run, Platform}
use infisical_entity_operato.Client.{Client}

abbrev pub meta_of : String → ObjectMeta
meta_of name = record {
  namespace = "team";
  name = name;
  generation = 2;
  deletion_timestamp = none;
  finalizers = [];
  uid = "";
}

abbrev pub demo_connection : InfisicalConnection
demo_connection = record {
  meta = meta_of "infisical";
  spec = record {
    host_api = "https://example.com/api";
    auth_secret_ref = some (record { name = "token"; key = "" });
    universal_auth = none;
    request_timeout = none;
  };
  status = record { observed_generation = 0; conditions = [] };
}

abbrev pub demo_organization : InfisicalOrganization
demo_organization = record {
  meta = meta_of "acme";
  spec = record {
    connection_ref = record { name = "infisical" };
    organization_id = "";
    organization_name = "";
    creation_policy = "CreateOrAdopt";
    deletion_policy = "Orphan";
  };
  status = record {
    organization_id = "o-1";
    organization_name = "acme";
    slug = "acme";
    observed_generation = 1;
    conditions = [];
  };
}

abbrev pub demo_project : InfisicalProject
demo_project = record {
  meta = meta_of "shop";
  spec = record {
    connection_ref = record { name = "infisical" };
    organization_ref = none;
    project_name = "";
    description = "";
    slug = "shop";
    type = "";
    should_create_default_envs = none;
    has_delete_protection = none;
    creation_policy = "CreateOrAdopt";
    deletion_policy = "Orphan";
  };
  status = record {
    project_id = "p-1";
    slug = "shop";
    organization_id = "o-1";
    environments = [];
    observed_generation = 1;
    conditions = [];
  };
}

abbrev pub demo_environment : InfisicalEnvironment
demo_environment = record {
  meta = meta_of "staging";
  spec = record {
    connection_ref = record { name = "infisical" };
    project_ref = record { name = "shop" };
    environment_name = "";
    slug = "";
    position = none;
    creation_policy = "CreateOrAdopt";
    deletion_policy = "Orphan";
  };
  status = record {
    environment_id = "";
    project_id = "";
    name = "";
    slug = "";
    position = ℤ.pos 0;
    observed_generation = 0;
    conditions = [];
  };
}

abbrev pub demo_identity : InfisicalIdentity
demo_identity = record {
  meta = meta_of "web";
  spec = record {
    connection_ref = record { name = "infisical" };
    scope = "";
    project_ref = some (record { name = "shop" });
    organization_ref = none;
    identity_name = "";
    has_delete_protection = none;
    metadata = none;
    role_slugs = [];
    organization_role = "";
    project_role_bindings = [];
    creation_policy = "";
    deletion_policy = "Orphan";
  };
  status = record {
    identity_id = "";
    project_id = "";
    organization_id = "";
    organization_role = "";
    membership_id = "";
    roles = [];
    project_memberships = [];
    observed_generation = 0;
    conditions = [];
  };
}

abbrev pub demo_universal_auth : InfisicalUniversalAuth
demo_universal_auth = record {
  meta = meta_of "web-login";
  spec = record {
    connection_ref = record { name = "infisical" };
    identity_ref = record { name = "web" };
    config = none;
    client_secret = record {
      secret_ref = record { name = "login"; client_id_key = ""; client_secret_key = "" };
      description = "";
      num_uses_limit = none;
      ttl = none;
      rotation_nonce = "1";
    };
    creation_policy = "CreateOrAdopt";
    deletion_policy = "Orphan";
  };
  status = record {
    auth_id = "";
    identity_id = "";
    client_id = "";
    config = record {
      client_secret_trusted_ips = none;
      access_token_trusted_ips = none;
      access_token_ttl = ℤ.pos 0;
      access_token_max_ttl = ℤ.pos 0;
      access_token_num_uses_limit = ℤ.pos 0;
      access_token_period = ℤ.pos 0;
      lockout_enabled = false;
      lockout_threshold = ℤ.pos 0;
      lockout_duration_seconds = ℤ.pos 0;
      lockout_counter_reset_seconds = ℤ.pos 0;
    };
    client_secret = record {
      secret_name = "";
      client_secret_id = "";
      client_secret_prefix = "";
      last_rotation_nonce = "";
      last_rotated_at = none;
    };
    observed_generation = 0;
    conditions = [];
  };
}

abbrev pub demo_kubernetes_auth : InfisicalKubernetesAuth
demo_kubernetes_auth = record {
  meta = meta_of "web-pods";
  spec = record {
    connection_ref = record { name = "infisical" };
    identity_ref = record { name = "web" };
    kubernetes_host = "https://kube";
    allowed_namespaces = "web" ∷ "api" ∷ [];
    allowed_names = "default" ∷ [];
    allowed_audience = "";
    ca_cert_secret_ref = none;
    verify_tls_certificate = none;
    token_reviewer_jwt_secret_ref = none;
    token_review_mode = "";
    access_token_trusted_ips = none;
    access_token_ttl = none;
    access_token_max_ttl = none;
    access_token_num_uses_limit = none;
    creation_policy = "CreateOrAdopt";
    deletion_policy = "Orphan";
  };
  status = record {
    auth_id = "";
    identity_id = "";
    kubernetes_host = "";
    allowed_namespaces = [];
    allowed_names = [];
    allowed_audience = "";
    token_review_mode = "";
    verify_tls_certificate = false;
    has_ca_certificate = false;
    has_token_reviewer_jwt = false;
    access_token_trusted_ips = none;
    access_token_ttl = ℤ.pos 0;
    access_token_max_ttl = ℤ.pos 0;
    access_token_num_uses_limit = ℤ.pos 0;
    observed_generation = 0;
    conditions = [];
  };
}

abbrev pub demo_secret : Secret
demo_secret = record {
  meta = meta_of "token";
  type = "Opaque";
  resource_version = "7";
  annotations = [];
  owner_references = [];
  values = ("token", "t-1") ∷ [];
}

abbrev pub demo_url : Url
demo_url = record {
  scheme = "https";
  host = "example.com";
  path = "/api";
  raw_query = "";
  fragment = "";
}

-- Every answer holds the project, the environment, the identity and its authentication methods.
abbrev pub demo_answer : Json
demo_answer = obj (
    field "identity"
      (obj (field "id" (str "i-1") (field "name" (str "web") (field "projectId" (str "p-1") end))))
      (field "project"
        (obj (
          field "id" (str "p-1") (
            field "name" (str "shop") (field "slug" (str "shop") (field "orgId" (str "o-1") end)))))
        (field "environment"
          (obj (
            field "id" (str "e-1")
              (field "name" (str "staging") (field "slug" (str "staging") end))))
          (field "identityUniversalAuth"
            (obj (
              field "id" (str "ua-1")
                (field "clientId" (str "c-1") (field "identityId" (str "i-1") end))))
            (field "identityKubernetesAuth" (obj (field "id" (str "ka-1") end)) (
              field "clientSecret" (str "s-1")
                (field "clientSecretData" (obj (field "id" (str "cs-1") end)) end)))))))

abbrev pub demo_platform : Platform
demo_platform = record {
  get_connection = λ calls key. ok demo_connection;
  get_organization = λ calls key. ok demo_organization;
  get_project = λ calls key. ok demo_project;
  get_environment = λ calls key. ok demo_environment;
  get_identity = λ calls key. ok demo_identity;
  get_universal_auth = λ calls key. ok demo_universal_auth;
  get_kubernetes_auth = λ calls key. ok demo_kubernetes_auth;
  list_connections = λ calls namespace. ok (demo_connection ∷ []);
  list_organizations = λ calls namespace. ok (demo_organization ∷ []);
  list_projects = λ calls namespace. ok (demo_project ∷ []);
  list_environments = λ calls namespace. ok (demo_environment ∷ []);
  list_identities = λ calls namespace. ok (demo_identity ∷ []);
  list_universal_auths = λ calls namespace. ok (demo_universal_auth ∷ []);
  list_kubernetes_auths = λ calls namespace. ok (demo_kubernetes_auth ∷ []);
  get_secret = λ calls key. ok demo_secret;
  write = λ calls. none;
  send = λ calls request. response 200 (content "" (some demo_answer));
  now = λ calls n. 1700000000000000000;
  long_duration = λ seconds. ℤ.negsuc 9223372036854775807;
  parse_url = λ text. ok demo_url;
  is_rfc3339 = λ text. true;
  contains_finalizer = λ finalizers f. contains f finalizers;
  add_finalizer = λ finalizers f. if contains f finalizers then finalizers else f ∷ finalizers;
  remove_finalizer = λ finalizers f. [];
  controller_of = λ owners. none;
  set_controller_reference = λ owner secret. ok [];
  has_scheme = true;
  is_ip = λ text. true;
  is_cidr = λ text. true;
  claims = λ part. none;
}

abbrev pub empty_run : Run
empty_run = record { calls = []; cached_token = ""; expires_at = 0 }

abbrev pub demo_client : Client
demo_client = record {
  base_url = demo_url;
  timeout = 30000000000;
  token = "t-1";
  universal_auth = none;
}

-- A cluster where another resource controls every Secret
abbrev pub other_owner : OwnerReference
other_owner = record {
  api_version = "v1";
  kind = "Vault";
  name = "vault";
  uid = "u-9";
  controller = true;
  block_owner_deletion = true;
}

abbrev pub controlled_platform : Platform
controlled_platform = record demo_platform { controller_of = λ owners. some other_owner }
