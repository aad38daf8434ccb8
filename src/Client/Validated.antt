-- ===== src/Client/Validated.antt =====
-- An entity that the server describes without an identifier is an error of the client.
use infisical_entity_operato.Base.{String, ◌≡◌, ◌≢◌, arith, eq_iff}
use infisical_entity_operato.Result.{Result, ok}
use infisical_entity_operato.Failure.{Error}
use infisical_entity_operato.Platform.{Run, Platform}
use infisical_entity_operato.Exec.{Exec, lift, ◌>>=◌}
use infisical_entity_operato.Exec.Outcome.{bind-ok, lift-ok}
use infisical_entity_operato.Client.Http.{Client}
use infisical_entity_operato.Client.Wire.{
  Project, validate_project, CreateProjectRequest, Environment, validate_environment,
  CreateEnvironmentRequest,
}
use infisical_entity_operato.Client.Wire.Identities.{
  Identity, as_identity, validate_identity, CreateIdentityRequest,
  CreateOrganizationIdentityRequest,
}
use infisical_entity_operato.Client.Wire.UniversalAuth.{
  UniversalAuthClientSecret, validate_client_secret, CreateUniversalAuthClientSecretRequest,
  CreateUniversalAuthClientSecretResponse, validate_created_client_secret,
}
use infisical_entity_operato.Client.UniversalAuth.{
  create_universal_auth_client_secret, get_universal_auth_client_secret,
}
use infisical_entity_operato.Client.Projects.{create_project}
use infisical_entity_operato.Client.Environments.{create_environment}
use infisical_entity_operato.Client.Identities.{create_identity, create_organization_identity}

validate_project-id : (x p : Project) → validate_project x ≡ ok p → p.id ≢ ""
unfolding validate_project
validate_project-id x p h e = ground (arith, eq_iff x.id "")

validate_environment-id : (x p : Environment) → validate_environment x ≡ ok p → p.id ≢ ""
unfolding validate_environment
validate_environment-id x p h e = ground (arith, eq_iff x.id "")

validate_identity-id : (x p : Identity) → validate_identity x ≡ ok p → p.id ≢ ""
unfolding validate_identity
validate_identity-id x p h e = ground (arith, eq_iff x.id "")

validate_client_secret-id :
    (x s : UniversalAuthClientSecret) → validate_client_secret x ≡ ok s → s.id ≢ ""
unfolding validate_client_secret
validate_client_secret-id x s h e = ground (arith, eq_iff x.id "")

validate_created_client_secret-id :
    (x s : CreateUniversalAuthClientSecretResponse)
    → validate_created_client_secret x ≡ ok s
    → s.client_secret_data.id ≢ ""
unfolding validate_created_client_secret
validate_created_client_secret-id x s h e = ground (arith, eq_iff x.client_secret_data.id "")

module _ {A B : Type 0} (validate : A → Result Error B) (m : Exec Error A) where
  -- The result of a call that ends with a validation has passed it.
  validated :
      (r r' : Run) (b : B)
      → (m >>= λ a. lift (validate a)) r ≡ (ok b, r')
      → (a : A) × (validate a ≡ ok b)
  validated r r' b h =
      let (a, r1, _, rest) = bind-ok m (λ a. lift (validate a)) r r' b h in
      (a, (lift-ok (validate a) r1 r' b rest).0)

module _ (platform : Platform) (c : Client) (r r' : Run) where
  pub create_project-id :
      (request : CreateProjectRequest) (p : Project)
      → create_project platform c request r ≡ (ok p, r')
      → p.id ≢ ""
  unfolding create_project
  create_project-id request p h =
      let (a, is) = validated validate_project _ r r' p h in validate_project-id a p is

  pub create_environment-id :
      (project_id : String) (request : CreateEnvironmentRequest) (e : Environment)
      → create_environment platform c project_id request r ≡ (ok e, r')
      → e.id ≢ ""
  unfolding create_environment
  create_environment-id project_id request e h =
      let (a, is) = validated validate_environment _ r r' e h in validate_environment-id a e is

  pub create_identity-id :
      (project_id : String) (request : CreateIdentityRequest) (i : Identity)
      → create_identity platform c project_id request r ≡ (ok i, r')
      → i.id ≢ ""
  unfolding create_identity
  create_identity-id project_id request i h =
      let (a, is) = validated validate_identity _ r r' i h in validate_identity-id a i is

  pub create_organization_identity-id :
      (organization_id : String) (request : CreateOrganizationIdentityRequest) (i : Identity)
      → create_organization_identity platform c organization_id request r ≡ (ok i, r')
      → i.id ≢ ""
  unfolding create_organization_identity
  create_organization_identity-id organization_id request i h =
      let (a, is) = validated (λ item. validate_identity (as_identity item)) _ r r' i h in
      validate_identity-id (as_identity a) i is

  pub get_universal_auth_client_secret-id :
      (identity_id client_secret_id : String) (s : UniversalAuthClientSecret)
      → get_universal_auth_client_secret platform c identity_id client_secret_id r ≡ (ok s, r')
      → s.id ≢ ""
  unfolding get_universal_auth_client_secret
  get_universal_auth_client_secret-id identity_id client_secret_id s h =
      let (a, is) = validated validate_client_secret _ r r' s h in validate_client_secret-id a s is

  pub create_universal_auth_client_secret-id :
      (identity_id : String) (request : CreateUniversalAuthClientSecretRequest)
      (s : CreateUniversalAuthClientSecretResponse)
      → create_universal_auth_client_secret platform c identity_id request r ≡ (ok s, r')
      → s.client_secret_data.id ≢ ""
  unfolding create_universal_auth_client_secret
  create_universal_auth_client_secret-id identity_id request s h =
      let (a, is) = validated validate_created_client_secret _ r r' s h in
      validate_created_client_secret-id a s is
