-- ===== src/Controller/Connections/Calls.antt =====
-- Finding the API client of a connection reads Kubernetes objects, and nothing else.
use infisical_entity_operato.Base.{String, Option, none, some}
use infisical_entity_operato.Platform.{Call, Platform}
use infisical_entity_operato.Exec.Emits.{Reads, Emits, emits_rules}
use infisical_entity_operato.Client.Http.Calls.{Emits-new, Emits-new_with_universal_auth}
use infisical_entity_operato.Api.{
  SecretKeyReference, LocalObjectReference, InfisicalConnection, UniversalAuthConnectionSpec,
}
use infisical_entity_operato.Controller.Connections.{
  secret_value_from_reference, optional_secret_value_from_reference, with_universal_auth, client_of,
  infisical_client_for_connection,
}

module _ (platform : Platform) {Q : Call → Type 0} (reads : Reads Q) where
  pub Emits-secret_value_from_reference :
      (namespace : String) (ref : SecretKeyReference) (default_key purpose : String)
      → Emits Q (secret_value_from_reference platform namespace ref default_key purpose)
  unfolding secret_value_from_reference
  Emits-secret_value_from_reference namespace ref default_key purpose = search emits_rules

  pub Emits-optional_secret_value_from_reference :
      (namespace : String) (o : Option SecretKeyReference) (default_key purpose : String)
      → Emits Q (optional_secret_value_from_reference platform namespace o default_key purpose)
  unfolding optional_secret_value_from_reference
  Emits-optional_secret_value_from_reference namespace none default_key purpose = search emits_rules
  Emits-optional_secret_value_from_reference namespace (some ref) default_key purpose =
      search Emits-secret_value_from_reference

  Emits-with_universal_auth :
      (namespace : String) (connection : InfisicalConnection)
      (o : Option UniversalAuthConnectionSpec)
      → Emits Q (with_universal_auth platform namespace connection o)
  unfolding with_universal_auth
  Emits-with_universal_auth namespace connection none = search emits_rules
  Emits-with_universal_auth namespace connection (some auth) =
      search (emits_rules, Emits-secret_value_from_reference, Emits-new_with_universal_auth)

  Emits-client_of :
      (namespace : String) (connection : InfisicalConnection) (o : Option SecretKeyReference)
      → Emits Q (client_of platform namespace connection o)
  unfolding client_of
  Emits-client_of namespace connection none = search Emits-with_universal_auth
  Emits-client_of namespace connection (some ref) =
      search (emits_rules, Emits-secret_value_from_reference, Emits-new)

  pub Emits-infisical_client_for_connection :
      (namespace : String) (ref : LocalObjectReference)
      → Emits Q (infisical_client_for_connection platform namespace ref)
  unfolding infisical_client_for_connection
  Emits-infisical_client_for_connection namespace ref = search (emits_rules, Emits-client_of)
