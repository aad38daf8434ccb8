-- ===== src/Client/UniversalAuth/Calls.antt =====
-- The requests of the functions of UniversalAuth.
use infisical_entity_operato.Base.{String}
use infisical_entity_operato.Platform.{Method, Call, Platform}
use infisical_entity_operato.Exec.Emits.{Permits, Emits, emits_rules}
use infisical_entity_operato.Client.Http.{Client}
use infisical_entity_operato.Client.Token.Calls.{Emits-exchange_with}
use infisical_entity_operato.Client.Wire.UniversalAuth.{
  UniversalAuthConfigRequest, CreateUniversalAuthClientSecretRequest,
}
use infisical_entity_operato.Client.UniversalAuth.{
  write_universal_auth, attach_universal_auth, get_universal_auth, update_universal_auth,
  delete_universal_auth, create_universal_auth_client_secret, list_universal_auth_client_secrets,
  get_universal_auth_client_secret, revoke_universal_auth_client_secret,
}

module _ (platform : Platform) {Q : Call → Type 0} (login : Permits Q Method.post) (c : Client)
    (identity_id : String) where
  pub Emits-write_universal_auth :
      (method : Method) (request : UniversalAuthConfigRequest)
      → Permits Q method
      → Emits Q (write_universal_auth platform c identity_id method request)
  unfolding write_universal_auth
  Emits-write_universal_auth method request p = search (emits_rules, Emits-exchange_with)

  pub Emits-attach_universal_auth :
      (request : UniversalAuthConfigRequest)
      → Emits Q (attach_universal_auth platform c identity_id request)
  unfolding attach_universal_auth write_universal_auth
  Emits-attach_universal_auth request = search (emits_rules, Emits-exchange_with)

  pub Emits-get_universal_auth :
      Permits Q Method.get → Emits Q (get_universal_auth platform c identity_id)
  unfolding get_universal_auth
  Emits-get_universal_auth p = search (emits_rules, Emits-exchange_with)

  pub Emits-update_universal_auth :
      (request : UniversalAuthConfigRequest)
      → Permits Q Method.patch
      → Emits Q (update_universal_auth platform c identity_id request)
  unfolding update_universal_auth write_universal_auth
  Emits-update_universal_auth request p = search (emits_rules, Emits-exchange_with)

  pub Emits-delete_universal_auth :
      Permits Q Method.delete → Emits Q (delete_universal_auth platform c identity_id)
  unfolding delete_universal_auth
  Emits-delete_universal_auth p = search (emits_rules, Emits-exchange_with)

  pub Emits-create_universal_auth_client_secret :
      (request : CreateUniversalAuthClientSecretRequest)
      → Emits Q (create_universal_auth_client_secret platform c identity_id request)
  unfolding create_universal_auth_client_secret
  Emits-create_universal_auth_client_secret request = search (emits_rules, Emits-exchange_with)

  pub Emits-list_universal_auth_client_secrets :
      Permits Q Method.get → Emits Q (list_universal_auth_client_secrets platform c identity_id)
  unfolding list_universal_auth_client_secrets
  Emits-list_universal_auth_client_secrets p = search (emits_rules, Emits-exchange_with)

  pub Emits-get_universal_auth_client_secret :
      (client_secret_id : String)
      → Permits Q Method.get
      → Emits Q (get_universal_auth_client_secret platform c identity_id client_secret_id)
  unfolding get_universal_auth_client_secret
  Emits-get_universal_auth_client_secret client_secret_id p =
      search (emits_rules, Emits-exchange_with)

  pub Emits-revoke_universal_auth_client_secret :
      (client_secret_id : String)
      → Emits Q (revoke_universal_auth_client_secret platform c identity_id client_secret_id)
  unfolding revoke_universal_auth_client_secret
  Emits-revoke_universal_auth_client_secret client_secret_id =
      search (emits_rules, Emits-exchange_with)
