-- ===== src/Controller/UniversalAuth/Publish/Calls.antt =====
-- The calls that publish a client secret.
use infisical_entity_operato.Base.{String, ◌≡◌}
use infisical_entity_operato.Result.{ok}
use infisical_entity_operato.Api.{Secret, InfisicalUniversalAuth}
use infisical_entity_operato.Platform.{Call, Object, create, update, Platform}
use infisical_entity_operato.Exec.Emits.{Reads, Emits, Emits-bind_lift, emits_rules}
use infisical_entity_operato.Controller.UniversalAuth.Publish.{
  filled, set_universal_auth_secret_owner, store_secret, publish_universal_auth_secret,
}

-- The Secret may be stored, be it there before or not.
abbrev pub MayStore : (Call → Type 0) → Secret → Type 0
MayStore Q secret = Q (create (Object.secret secret)) × Q (update (Object.secret secret))

module _ (platform : Platform) {Q : Call → Type 0} (reads : Reads Q) where
  Emits-store_secret : (s : Secret) → MayStore Q s → Emits Q (store_secret platform s)
  unfolding store_secret
  Emits-store_secret s may = search (emits_rules, may.0, may.1)

  -- Only a Secret that is filled and has its owner is stored.
  pub Emits-publish_universal_auth_secret :
      (a : InfisicalUniversalAuth) (client_secret client_id client_secret_id : String)
      → ((secret owned : Secret)
          → set_universal_auth_secret_owner platform
              (filled a client_secret client_id client_secret_id secret)
              a
            ≡ ok owned
          → MayStore Q owned)
      → Emits Q (publish_universal_auth_secret platform a client_secret client_id client_secret_id)
  unfolding publish_universal_auth_secret
  Emits-publish_universal_auth_secret a client_secret client_id client_secret_id may =
      let store = λ (secret : Secret).
        Emits-bind_lift
          (set_universal_auth_secret_owner platform
            (filled a client_secret client_id client_secret_id secret) a)
          (store_secret platform) (λ owned is. Emits-store_secret owned (may secret owned is)) in
      search (emits_rules, store) depth 9
