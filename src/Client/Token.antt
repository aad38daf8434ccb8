-- ===== src/Client/Token.antt =====
-- internal/infisicalclient/client.go: the bearer token, and the calls that carry it.
pub mod Calls
pub mod Bounds
pub mod Reuse
mod Tests
use Prim.Native.Char.{code}
use Prim.Native.String
use infisical_entity_operato.Base.{
  ℕ, ◌+◌, ◌-◌, ◌*◌, ◌/◌, suc, ℤ, pos, negsuc, String, Bool, true, false, not, ◌&&◌, ◌||◌, Option,
  none, some, List, [], ◌∷◌, ◌==◌, nat_eq, ltb, leb, is_blank, split, concat, quote, if◌then◌else◌,
}
use infisical_entity_operato.Result.{Result, ok, err}
use infisical_entity_operato.Failure.{Error, plain, wrapped}
use infisical_entity_operato.Json.{
  Json, Fields, null, bool, num, str, arr, obj, end, field, omit_empty, member, string_of, items_of,
  of_nil, object_of,
}
use infisical_entity_operato.Platform.{Method, Run, Platform}
use infisical_entity_operato.Exec.{Exec, pure, raise, lift, check, or_wrap, ◌>>=◌, ◌>>◌}
use infisical_entity_operato.Client.Http.{
  UniversalAuthCredentials, Client, Target, no_target, inside, do_with_token,
}
use infisical_entity_operato.Client.Wire.{Login, decode_login, no_login, Project, decode_project}

lower : ℕ → ℕ
lower c = if leb b'A' c && leb c b'Z' then c + 32 else c

-- strings.EqualFold, for texts of ASCII letters
equal_fold : String → String → Bool
unfolding lower
equal_fold String.[] String.[] = true
equal_fold (String.◌∷◌ c s) (String.◌∷◌ d t) =
    nat_eq (lower (code c)) (lower (code d)) && equal_fold s t
equal_fold _ _ = false

unfoldable pub login_error : Login → Option Error
unfolding equal_fold
login_error login =
    if is_blank login.access_token
    then some (plain "infisical Universal Auth login returned an empty access token")
    else if not (login.token_type == "") && not (equal_fold login.token_type "Bearer")
    then some (
        plain (
          concat (
            "infisical Universal Auth login returned unsupported token type "
            ∷ quote login.token_type
            ∷ [])))
    else none

-- The time after which the token is not used: half of the validity is kept back, and 30 seconds
-- where it is longer than that.
unfoldable pub refresh_skew : ℕ → ℕ
refresh_skew valid_for = if leb valid_for 30000000000 then valid_for / 2 else 30000000000

-- `now.Add(validFor - refreshSkew)`; what is kept back is nothing where the validity is negative.
used_until : (now : ℕ) → (valid_for : ℤ) → ℕ
unfolding refresh_skew
used_until now (pos valid_for) = now + (valid_for - refresh_skew valid_for)
used_until now (negsuc valid_for) = now - suc valid_for

-- `time.Duration(seconds * float64(time.Second))`: up to 2 ^ 62 nanoseconds the product is a whole number of
-- a float64 and the conversion is exact; beyond, the rounding and the overflow are those of the platform.
unfoldable pub duration_of : Platform → (seconds : ℤ) → ℤ
duration_of platform (pos seconds) =
    if leb seconds 4611686018
    then pos (seconds * 1000000000)
    else platform.long_duration (pos seconds)
duration_of platform (negsuc seconds) =
    if leb (suc seconds) 4611686018
    then negsuc (suc seconds * 1000000000 - 1)
    else platform.long_duration (negsuc seconds)

unfoldable pub expiry : Platform → ℕ → ℤ → ℕ
unfolding used_until duration_of
expiry platform now seconds = used_until now (duration_of platform seconds)

login_request : UniversalAuthCredentials → Json
login_request credentials = obj (
    field "clientId" (str credentials.client_id) (
      field "clientSecret" (str credentials.client_secret)
        (omit_empty "organizationSlug" credentials.organization_slug end)))

module _ (platform : Platform) where
  store_token : Login → Exec Error String
  store_token login r = (
    ok login.access_token,
    record r {
      cached_token = login.access_token;
      expires_at = expiry platform (platform.now r.calls 0) login.expires_in;
    },
  )

  module _ (c : Client) where
    exchange : UniversalAuthCredentials → Exec Error String
    unfolding login_request store_token
    exchange credentials = do
      login ←
          or_wrap
            (do_with_token platform c "" Method.post "/v1/auth/universal-auth/login" []
              (some (login_request credentials))
              (record { wanted = true; zero = no_login; decode = decode_login }))
            (wrapped "exchange Infisical Universal Auth credentials: ")
      check (login_error login)
      store_token login

    -- What follows from the test that a cached token is still good
    token_or_exchange : UniversalAuthCredentials → Bool → Exec Error String
    unfolding exchange
    token_or_exchange credentials true r = (ok r.cached_token, r)
    token_or_exchange credentials false r = exchange credentials r

    token_of : Option UniversalAuthCredentials → Exec Error String
    unfolding token_or_exchange
    token_of none r = (ok c.token, r)
    token_of (some credentials) r =
        token_or_exchange credentials
          (not (r.cached_token == "") && ltb (platform.now r.calls 0) r.expires_at) r

    unfoldable pub bearer_token : Exec Error String
    unfolding token_of
    bearer_token = token_of c.universal_auth

    -- The method `do` of the client
    unfoldable pub exchange_with :
        {A : Type 0}
        → (method : Method) (path : String) (query : List (String × String)) (body : Option Json)
        → Target A
        → Exec Error A
    exchange_with method path query body target = do
      token ← bearer_token
      do_with_token platform c token method path query body target

    unfoldable pub check_connection : Exec Error (Unit {0})
    check_connection = do
      exchange_with Method.get "/v1/projects" [] none (record {
        wanted = true;
        zero = [];
        decode = λ fs.
            elim (items_of (λ v. object_of (decode_project platform.is_rfc3339) (some v))
              (member "projects" fs)) [ ok projects ↦ ok (of_nil projects) | err e ↦ err e ];
      })
      pure tt

  claimed_identity : Option Json → String
  claimed_identity none = ""
  claimed_identity (some claims) =
      elim (object_of (λ fs. string_of (member "identityId" fs)) (some claims)) [
        | ok id ↦ id
        | err e ↦ ""
      ]

  unfoldable pub token_identity_id : String → String
  unfolding claimed_identity
  token_identity_id token = elim (split b'.' token) [
    | header ∷ payload ∷ signature ∷ [] ↦ claimed_identity (platform.claims payload)
    | _ ↦ ""
  ]

  unfoldable pub token_identity_id_context : Client → Exec Error String
  token_identity_id_context c = do token ← bearer_token c; pure (token_identity_id token)
