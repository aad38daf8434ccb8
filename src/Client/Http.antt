-- ===== src/Client/Http.antt =====
-- internal/infisicalclient/client.go: construction of a client, its token, and one HTTP exchange.
pub mod Calls
pub mod Valid
mod Tests
use Prim.Native.Char.{code}
use Prim.Native.String
use infisical_entity_operato.Base.{
  ℕ, ◌+◌, ◌-◌, ◌*◌, ◌/◌, suc, ℤ, pos, negsuc, String, Bool, true, false, not, ◌&&◌, ◌||◌, Option,
  none, some, List, [], ◌∷◌, ◌==◌, nat_eq, ltb, leb, is_negative, is_blank, trim_space, trim_right,
  trim_left, split, concat, quote, if◌then◌else◌,
}
use infisical_entity_operato.Result.{Result, ok, err}
use infisical_entity_operato.Failure.{Error, plain, wrapped, http_error}
use infisical_entity_operato.Json.{
  Json, Fields, str, obj, end, field, omit_empty, member, string_of, int_of, object_of,
}
use infisical_entity_operato.Platform.{
  Url, Method, Request, Payload, unreadable, content, Reply, no_response, response, Call, http, Run,
  Platform,
}
use infisical_entity_operato.Exec.{
  Exec, pure, raise, lift, check, or_wrap, record_call, ◌>>=◌, ◌>>◌,
}

pub record UniversalAuthCredentials : Type 0 where
  pub client_id : String
  pub client_secret : String
  pub organization_slug : String

-- The token that an exchange has cached, and its expiry, are in the run.
pub record Client : Type 0 where
  pub base_url : Url
  pub timeout : ℕ
  pub token : String
  pub universal_auth : Option UniversalAuthCredentials

-- Durations are in nanoseconds.
unfoldable pub new_http_client : ℤ → ℕ
new_http_client (pos t) = if nat_eq t 0 then 30000000000 else t
new_http_client (negsuc t) = 30000000000

invalid_url : Url → Option Error
invalid_url parsed =
    if not (parsed.scheme == "http") && not (parsed.scheme == "https")
    then some (
        plain
          (concat ("infisical API URL must use http or https, got " ∷ quote parsed.scheme ∷ [])))
    else if parsed.host == ""
    then some (plain "infisical API URL has no host")
    else if not (parsed.raw_query == "") || not (parsed.fragment == "")
    then some (plain "infisical API URL must not contain a query or fragment")
    else none

abbrev checked_url : Url → Option Error → Result Error Url
checked_url parsed none = ok parsed
checked_url parsed (some e) = err e

unfoldable pub parse_base_url : Platform → String → Result Error Url
unfolding invalid_url
parse_base_url platform base_url =
    elim (platform.parse_url (trim_right b'/' (trim_space base_url))) [
      | ok parsed ↦ checked_url parsed (invalid_url parsed)
      | err text ↦ err (wrapped "parse Infisical API URL: " (plain text))
    ]

-- A new client has no cached token.
start_session : Exec Error (Unit {0})
start_session r = (ok tt, record r { cached_token = ""; expires_at = 0 })

unfoldable pub new : Platform → (base_url token : String) (timeout : ℤ) → Exec Error Client
unfolding start_session
new platform base_url token timeout = do
  check (if is_blank token then some (plain "infisical bearer token is empty") else none)
  parsed ← lift (parse_base_url platform base_url)
  start_session
  pure (record {
    base_url = parsed;
    timeout = new_http_client timeout;
    token = token;
    universal_auth = none;
  })

unfoldable pub new_with_universal_auth :
    Platform
    → (base_url client_id client_secret organization_slug : String) (timeout : ℤ)
    → Exec Error Client
unfolding start_session
new_with_universal_auth platform base_url client_id client_secret organization_slug timeout = do
  check (
      if is_blank client_id
      then some (plain "infisical Universal Auth client ID is empty")
      else if is_blank client_secret
      then some (plain "infisical Universal Auth client secret is empty")
      else none)
  parsed ← lift (parse_base_url platform base_url)
  start_session
  pure (record {
    base_url = parsed;
    timeout = new_http_client timeout;
    token = "";
    universal_auth = some (record {
      client_id = client_id;
      client_secret = client_secret;
      organization_slug = organization_slug;
    });
  })

-- Where a response is decoded to: `zero` is the value of the target before it.
pub record Target (A : Type 0) : Type 0 where
  pub wanted : Bool
  pub zero : A
  pub decode : Fields → Result Error A

-- The target nil
abbrev pub no_target : Target (Unit {0})
no_target = record { wanted = false; zero = tt; decode = λ fs. ok tt }

-- A target that takes its value from one field of the response object
unfoldable pub inside : {A : Type 0} → A → String → (Fields → Result Error A) → Target A
inside zero name decode = record {
  wanted = true;
  zero = zero;
  decode = λ fs. object_of decode (member name fs);
}

failed_response : ℕ → Payload → Error
failed_response status_code (unreadable text) =
    wrapped "read Infisical API error response: " (plain text)
failed_response status_code (content text value) = http_error status_code (trim_space text)

module _ {A : Type 0} (target : Target A) where
  decoded : Payload → Result Error A
  decoded (unreadable text) = err (wrapped "decode Infisical API response: " (plain text))
  decoded (content text none) =
      err (wrapped "decode Infisical API response: " (plain "invalid JSON"))
  decoded (content text (some value)) = elim (object_of target.decode (some value)) [
    | ok a ↦ ok a
    | err e ↦ err (wrapped "decode Infisical API response: " e)
  ]

  unfoldable pub interpret : Reply → Result Error A
  unfolding failed_response decoded
  interpret (no_response text) = err (wrapped "call Infisical API: " (plain text))
  interpret (response status_code payload) =
      if ltb status_code 200 || leb 300 status_code
      then err (failed_response status_code payload)
      else if not target.wanted || nat_eq status_code 204
      then ok target.zero
      else decoded payload

unfoldable pub request_url : Url → String → Url
request_url base path = record base {
  path = concat (trim_right b'/' base.path ∷ "/" ∷ trim_left b'/' path ∷ []);
}

unfoldable pub send_request : {A : Type 0} → Platform → Request → Target A → Exec Error A
send_request platform request target r =
    let r' = record_call (http request) r in (interpret target (platform.send r'.calls request), r')

module _ (platform : Platform) (c : Client) where
  unfoldable pub do_with_token :
      {A : Type 0}
      → (token : String) (method : Method) (path : String) (query : List (String × String))
        (body : Option Json)
      → Target A
      → Exec Error A
  unfolding send_request
  do_with_token token method path query body target =
      send_request platform
        (record {
          method = method;
          url = request_url c.base_url path;
          query = query;
          token = token;
          body = body;
        })
        target
