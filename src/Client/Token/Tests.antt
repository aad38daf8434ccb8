-- ===== src/Client/Token/Tests.antt =====
-- Instances of the theorems on the bearer token.
use infisical_entity_operato.Base.{◌≡◌, refl, ◌⊎◌, ◌+◌, ◌*◌, ◌≤◌, ◌<◌, ℤ, some, arith, List}
use infisical_entity_operato.Result.{ok}
use infisical_entity_operato.Client.Http.{Client}
use infisical_entity_operato.Client.Token.{
  expiry, duration_of, refresh_skew, bearer_token, token_of, token_or_exchange,
}
use infisical_entity_operato.Client.Token.Bounds.{expiry-bounds}
use infisical_entity_operato.Client.Token.Reuse.{bearer_token-again}
use infisical_entity_operato.Platform.{Run}
use infisical_entity_operato.Demo.{demo_platform, demo_client}

expiry_run : expiry demo_platform 100 (ℤ.pos 7200) ≡ 7170000000100
unfolding expiry duration_of refresh_skew
expiry_run = refl

expiry-bounds_example :
    (100 < expiry demo_platform 100 (ℤ.pos 20))
    × (expiry demo_platform 100 (ℤ.pos 20) < 100 + 20 * 1000000000)
    × ((20 ≤ 30) ⊎ (expiry demo_platform 100 (ℤ.pos 20) + 30000000000 ≡ 100 + 20 * 1000000000))
expiry-bounds_example = expiry-bounds demo_platform 100 20 (omega arith) (omega arith)

-- A client with credentials, and a run in which it has a token
abbrev login_client : Client
login_client = record demo_client {
  universal_auth = some (record { client_id = "c"; client_secret = "s"; organization_slug = "" });
}

abbrev logged_in : Run
logged_in = record { calls = List.[]; cached_token = "t-9"; expires_at = 1700000000000000001 }

bearer_token-again_example :
    bearer_token demo_platform login_client logged_in ≡ (ok "t-9", logged_in)
unfolding bearer_token token_of token_or_exchange
bearer_token-again_example =
    bearer_token-again demo_platform login_client logged_in "t-9" logged_in refl (omega arith)
