-- ===== src/Client/Token/Calls.antt =====
-- The calls of the client: requests of one method, and logins by POST.
use infisical_entity_operato.Base.{String, Bool, true, false, Option, none, some, List}
use infisical_entity_operato.Json.{Json}
use infisical_entity_operato.Platform.{Method, Call, Platform}
use infisical_entity_operato.Exec.Emits.{Permits, Emits, emits_rules}
use infisical_entity_operato.Client.Http.{Client, Target}
use infisical_entity_operato.Client.Http.{UniversalAuthCredentials}
use infisical_entity_operato.Client.Http.Calls.{Emits-do_with_token}
use infisical_entity_operato.Client.Wire.{Login}
use infisical_entity_operato.Client.Token.{
  exchange, store_token, token_or_exchange, token_of, bearer_token, exchange_with, check_connection,
  token_identity_id_context,
}

module _ (platform : Platform) {Q : Call → Type 0} (login : Permits Q Method.post) where
  Emits-store_token : (x : Login) → Emits Q (store_token platform x)
  unfolding store_token
  Emits-store_token x = record { at = λ r h. h }

  module _ (c : Client) where
    Emits-exchange :
        (credentials : UniversalAuthCredentials) → Emits Q (exchange platform c credentials)
    unfolding exchange
    Emits-exchange credentials = search (emits_rules, Emits-do_with_token, Emits-store_token)

    Emits-token_or_exchange :
        (credentials : UniversalAuthCredentials) (fresh : Bool)
        → Emits Q (token_or_exchange platform c credentials fresh)
    unfolding token_or_exchange
    Emits-token_or_exchange credentials true = record { at = λ r h. h }
    Emits-token_or_exchange credentials false = record { at = (Emits-exchange credentials).at }

    Emits-token_of : (o : Option UniversalAuthCredentials) → Emits Q (token_of platform c o)
    unfolding token_of
    Emits-token_of none = record { at = λ r h. h }
    Emits-token_of (some credentials) = record {
      at = λ r h. (Emits-token_or_exchange credentials _).at r h;
    }

    pub Emits-bearer_token : Emits Q (bearer_token platform c)
    unfolding bearer_token
    Emits-bearer_token = Emits-token_of c.universal_auth

    pub Emits-exchange_with :
        {A : Type 0} (method : Method) (path : String) (query : List (String × String))
        (body : Option Json) (target : Target A)
        → Permits Q method
        → Emits Q (exchange_with platform c method path query body target)
    unfolding exchange_with
    Emits-exchange_with method path query body target p =
        search (emits_rules, Emits-do_with_token, Emits-bearer_token)

    pub Emits-check_connection : Permits Q Method.get → Emits Q (check_connection platform c)
    unfolding check_connection
    Emits-check_connection p = search (emits_rules, Emits-exchange_with)

    pub Emits-token_identity_id_context : Emits Q (token_identity_id_context platform c)
    unfolding token_identity_id_context
    Emits-token_identity_id_context = search (emits_rules, Emits-bearer_token)
