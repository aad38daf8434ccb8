-- ===== src/Client/Http/Calls.antt =====
-- The calls of one exchange, and of the construction of a client.
use infisical_entity_operato.Base.{ℤ, String, refl, Option, List}
use infisical_entity_operato.Json.{Json}
use infisical_entity_operato.Platform.{Method, Call, Platform}
use infisical_entity_operato.Exec.Emits.{Permits, Emits, emits_rules}
use infisical_entity_operato.Client.Http.{Client, Target}
use infisical_entity_operato.Client.Http.{
  do_with_token, start_session, new, new_with_universal_auth,
}

module _ (platform : Platform) {Q : Call → Type 0} where
  pub Emits-do_with_token :
      (c : Client) {A : Type 0} (token : String) (method : Method) (path : String)
      (query : List (String × String)) (body : Option Json) (target : Target A)
      → Permits Q method
      → Emits Q (do_with_token platform c token method path query body target)
  unfolding do_with_token
  Emits-do_with_token c token method path query body target p = record {
    at = λ r h. (p.at _ refl, h);
  }

  Emits-start_session : Emits Q start_session
  unfolding start_session
  Emits-start_session = record { at = λ r h. h }

  pub Emits-new :
      (base_url token : String) (timeout : ℤ) → Emits Q (new platform base_url token timeout)
  unfolding new
  Emits-new base_url token timeout = search (emits_rules, Emits-start_session)

  pub Emits-new_with_universal_auth :
      (base_url client_id client_secret organization_slug : String) (timeout : ℤ)
      → Emits Q (
          new_with_universal_auth platform base_url client_id client_secret organization_slug
            timeout)
  unfolding new_with_universal_auth
  Emits-new_with_universal_auth base_url client_id client_secret organization_slug timeout =
      search (emits_rules, Emits-start_session)
