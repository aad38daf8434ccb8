-- ===== src/Client/Token/Reuse.antt =====
-- The cache of the bearer token.
use infisical_entity_operato.Base.{
  String, ◌≡◌, ◌≢◌, refl, ap, ◌<◌, Bool, true, false, not, ◌&&◌, Option, none, some, ◌==◌, ltb,
  is_blank, trim_space, arith, eq_iff,
}
use infisical_entity_operato.Result.{ok}
use infisical_entity_operato.Failure.{Error}
use infisical_entity_operato.Platform.{Run, Platform}
use infisical_entity_operato.Exec.{check, ◌>>=◌}
use infisical_entity_operato.Exec.Outcome.{bind-ok}
use infisical_entity_operato.Client.Http.{Client, UniversalAuthCredentials}
use infisical_entity_operato.Client.Wire.{Login}
use infisical_entity_operato.Client.Token.{
  login_error, store_token, exchange, token_or_exchange, token_of, bearer_token,
}

-- A text that is not blank is not empty.
blank-empty : (s : String) → s ≡ "" → is_blank s ≡ true
unfolding trim_space
blank-empty s e = rw e refl

-- An answer without error has a token.
login_error-token : (login : Login) → login_error login ≡ none → login.access_token ≢ ""
unfolding login_error
login_error-token login h e = ground (arith, blank-empty login.access_token e)

module _ (platform : Platform) where
  stored :
      (login : Login) (o : Option Error) (r : Run) (t : String) (r' : Run)
      → login_error login ≡ o
      → (check o >>= λ _. store_token platform login) r ≡ (ok t, r')
      → (r'.cached_token ≡ t) × (t ≢ "")
  unfolding ◌>>=◌ check store_token
  stored login none r t r' is h = ground (arith, login_error-token login)
  stored login (some e) r t r' is h = ground arith

  module _ (c : Client) where
    exchanged :
        (credentials : UniversalAuthCredentials) (r : Run) (t : String) (r' : Run)
        → exchange platform c credentials r ≡ (ok t, r')
        → (r'.cached_token ≡ t) × (t ≢ "")
    unfolding exchange
    exchanged credentials r t r' h =
        let (login, r1, received, rest) = bind-ok _ _ r r' t h in
        stored login (login_error login) r1 t r' refl rest

    -- After either branch the cache holds the token.
    holds :
        (credentials : UniversalAuthCredentials) (good : Bool) (r : Run) (t : String) (r' : Run)
        → (not (r.cached_token == "") && ltb (platform.now r.calls 0) r.expires_at) ≡ good
        → token_or_exchange platform c credentials good r ≡ (ok t, r')
        → (r'.cached_token ≡ t) × (t ≢ "")
    unfolding token_or_exchange
    holds credentials true r t r' is h = ground (arith, eq_iff r.cached_token "")
    holds credentials false r t r' is h = exchanged credentials r t r' h

    reused :
        (o : Option UniversalAuthCredentials) (r : Run) (t : String) (r' : Run)
        → token_of platform c o r ≡ (ok t, r')
        → platform.now r'.calls 0 < r'.expires_at
        → token_of platform c o r' ≡ (ok t, r')
    unfolding token_of token_or_exchange
    reused none r t r' h fresh = ap (λ p. (p.0, r')) h
    reused (some credentials) r t r' h fresh =
        let (cached, filled) = holds credentials _ r t r' refl h in
        ground (arith, cached, filled, eq_iff r'.cached_token "")

-- A token that was obtained is obtained again without any call, as long as the clock is before its
-- expiry.
pub bearer_token-again :
    (platform : Platform) (c : Client) (r : Run) (t : String) (r' : Run)
    → bearer_token platform c r ≡ (ok t, r')
    → platform.now r'.calls 0 < r'.expires_at
    → bearer_token platform c r' ≡ (ok t, r')
unfolding bearer_token
bearer_token-again platform c r t r' = reused platform c c.universal_auth r t r'
