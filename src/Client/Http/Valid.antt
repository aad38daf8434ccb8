-- ===== src/Client/Http/Valid.antt =====
-- The address of a client, and how an answer outside 200..299 is reported.
use infisical_entity_operato.Base.{
  ℕ, String, ◌≡◌, ◌≢◌, refl, ap, ◌⊎◌, Bool, true, false, ◌||◌, ◌&&◌, not, if◌then◌else◌, ◌↔◌, ◌≤◌,
  ◌<◌, inl, inr, Option, none, some, nat_eq, ltb, leb, trim_right, trim_space, arith, eq_iff,
}
use infisical_entity_operato.Result.{Result, ok, err}
use infisical_entity_operato.Failure.{Error, is_not_found, is_unauthorized}
use infisical_entity_operato.Json.{Json, Fields, null, bool, num, str, arr, obj, end, object_of}
use infisical_entity_operato.Platform.{
  Url, Payload, unreadable, content, Reply, no_response, response, Platform,
}
use infisical_entity_operato.Client.Http.{
  parse_base_url, invalid_url, checked_url, Target, interpret, decoded, failed_response,
}

abbrev pub IsWebAddress : Url → Type 0
IsWebAddress url =
    ((url.scheme ≡ "http") ⊎ (url.scheme ≡ "https"))
    × (url.host ≢ "")
    × (url.raw_query ≡ "")
    × (url.fragment ≡ "")

checked-IsWebAddress :
    (parsed url : Url) → checked_url parsed (invalid_url parsed) ≡ ok url → IsWebAddress url
unfolding invalid_url
checked-IsWebAddress parsed url h = ground (
  arith,
  eq_iff parsed.scheme "http",
  eq_iff parsed.scheme "https",
  eq_iff parsed.host "",
  eq_iff parsed.raw_query "",
  eq_iff parsed.fragment "",
)

parsed-IsWebAddress :
    (x : Result String Url) (url : Url)
    → elim x [
      | ok parsed ↦ checked_url parsed (invalid_url parsed)
      | err text ↦ err (Error.wrapped "parse Infisical API URL: " (Error.plain text))
    ]
      ≡ ok url
    → IsWebAddress url
parsed-IsWebAddress (ok parsed) url h = checked-IsWebAddress parsed url h
parsed-IsWebAddress (err text) url h = ground arith

-- The address that a client is built with has the scheme http or https, a host, no query and no
-- fragment.
pub parse_base_url-IsWebAddress :
    (platform : Platform) (base_url : String) (url : Url)
    → parse_base_url platform base_url ≡ ok url
    → IsWebAddress url
unfolding parse_base_url
parse_base_url-IsWebAddress platform base_url url h =
    parsed-IsWebAddress (platform.parse_url (trim_right b'/' (trim_space base_url))) url h

-- Such an address is accepted.
pub IsWebAddress-accepted :
    (platform : Platform) (base_url : String) (url : Url)
    → platform.parse_url (trim_right b'/' (trim_space base_url)) ≡ ok url
    → IsWebAddress url
    → parse_base_url platform base_url ≡ ok url
unfolding parse_base_url invalid_url
IsWebAddress-accepted platform base_url url parsed web =
    rw (parse_base_url, parsed)
      (ground (
        arith,
        eq_iff url.scheme "http",
        eq_iff url.scheme "https",
        eq_iff url.host "",
        eq_iff url.raw_query "",
        eq_iff url.fragment "",
      ))

abbrev pub error_says : {A : Type 0} → (Error → Bool) → Result Error A → Bool
error_says test (ok a) = false
error_says test (err e) = test e

-- The answer has this status, and its body can be read.
abbrev pub HasStatus : ℕ → Reply → Type 0
HasStatus code reply =
    (text : String) × (value : Option Json) × (reply ≡ response code (content text value))

abbrev pub status_of : Reply → ℕ
status_of (no_response text) = 0
status_of (response code payload) = code

-- No error of the decoder is one that Infisical has answered.
abbrev pub DecodesLocally : {A : Type 0} → Target A → Type 0
DecodesLocally target =
    (fs : Fields) (e : Error)
    → target.decode fs ≡ err e
    → (is_not_found e ≡ false) × (is_unauthorized e ≡ false)

-- The error, if it is one, was not answered by Infisical.
abbrev IsLocal : {A : Type 0} → Result Error A → Type 0
IsLocal x = (error_says is_not_found x ≡ false) × (error_says is_unauthorized x ≡ false)

module _ {A : Type 0} (target : Target A) (local : DecodesLocally target) where
  decode-IsLocal : (fs : Fields) → IsLocal (target.decode fs)
  decode-IsLocal fs = from (target.decode fs) (local fs)
    where
      from :
          (x : Result Error A)
          → ((e : Error) → x ≡ err e → (is_not_found e ≡ false) × (is_unauthorized e ≡ false))
          → IsLocal x
      from (ok a) h = (refl, refl)
      from (err e) h = h e refl

  object-IsLocal : (value : Json) → IsLocal (object_of target.decode (some value))
  unfolding object_of is_not_found is_unauthorized
  object-IsLocal null = decode-IsLocal end
  object-IsLocal (obj fs) = decode-IsLocal fs
  object-IsLocal (bool b) = (refl, refl)
  object-IsLocal (num n) = (refl, refl)
  object-IsLocal (str t) = (refl, refl)
  object-IsLocal (arr vs) = (refl, refl)

  decoded-IsLocal : (payload : Payload) → IsLocal (decoded target payload)
  unfolding decoded is_not_found is_unauthorized
  decoded-IsLocal (unreadable text) = (refl, refl)
  decoded-IsLocal (content text none) = (refl, refl)
  decoded-IsLocal (content text (some value)) =
      from (object_of target.decode (some value)) (object-IsLocal value)
    where
      from :
          (x : Result Error A)
          → IsLocal x
          → IsLocal {A = A} (elim x [
            | ok a ↦ ok a
            | err e ↦ err (Error.wrapped "decode Infisical API response: " e)
          ])
      from (ok a) h = (refl, refl)
      from (err e) h = h

  counts :
      (test : Error → Bool) (code : ℕ) (payload : Payload)
      → error_says test (decoded target payload) ≡ false
      → error_says test (interpret target (response code payload))
        ≡ ((ltb code 200 || leb 300 code) && test (failed_response code payload))
  unfolding interpret
  counts test code payload h =
      branch (ltb code 200 || leb 300 code) (not target.wanted || nat_eq code 204)
        (decoded target payload) h
    where
      branch :
          (bad empty : Bool) (x : Result Error A)
          → error_says test x ≡ false
          → error_says test (
              if bad
              then err (failed_response code payload)
              else if empty
              then ok target.zero
              else x)
            ≡ (bad && test (failed_response code payload))
      branch true empty x h = refl
      branch false true x h = refl
      branch false false x h = h

  not_found_iff :
      (reply : Reply)
      → (error_says is_not_found (interpret target reply) ≡ true) ↔ HasStatus 404 reply
  unfolding interpret is_not_found
  not_found_iff (no_response text) = ground arith
  not_found_iff (response code (unreadable text)) =
      rw (counts is_not_found code (unreadable text) (decoded-IsLocal (unreadable text)).0)
        (unfold failed_response in ground arith)
  not_found_iff (response code (content text value)) =
      rw (counts is_not_found code (content text value) (decoded-IsLocal (content text value)).0) (
        (λ h. (
          text,
          value,
          ap (λ n. response n (content text value)) (unfold failed_response in ground arith),
        )),
        (λ (_, _, e). let is : code ≡ 404 = ap status_of e in unfold failed_response in rw is refl),
      )

  unauthorized_iff :
      (reply : Reply)
      → (error_says is_unauthorized (interpret target reply) ≡ true)
        ↔ (HasStatus 401 reply ⊎ HasStatus 403 reply)
  unfolding interpret is_unauthorized
  unauthorized_iff (no_response text) = ground arith
  unauthorized_iff (response code (unreadable text)) =
      rw (counts is_unauthorized code (unreadable text) (decoded-IsLocal (unreadable text)).1)
        (unfold failed_response in ground arith)
  unauthorized_iff (response code (content text value)) =
      rw (counts is_unauthorized code (content text value) (decoded-IsLocal (content text value)).1)
        (
          (λ h.
              let codes : (code ≡ 401) ⊎ (code ≡ 403) = unfold failed_response in ground arith in
              elim codes [
                | inl is ↦ inl (text, value, ap (λ n. response n (content text value)) is)
                | inr is ↦ inr (text, value, ap (λ n. response n (content text value)) is)
              ]),
          (λ h. elim h [
            | inl (_, _, e) ↦
                let is : code ≡ 401 = ap status_of e in unfold failed_response in rw is refl
            | inr (_, _, e) ↦
                let is : code ≡ 403 = ap status_of e in unfold failed_response in rw is refl
          ]),
        )

  succeeds :
      (reply : Reply) (a : A)
      → interpret target reply ≡ ok a
      → (200 ≤ status_of reply) × (status_of reply < 300)
  unfolding interpret
  succeeds (no_response text) a h = absurd (ground arith)
  succeeds (response code payload) a h = ground arith

  -- Whatever is answered, the call succeeds only with a status from 200 to 299; its error counts as "not
  -- found" exactly where the status is 404 and the body can be read, and as "unauthorized" exactly where the
  -- status is 401 or 403 and the body can be read, if no error of the decoder counts as one of these.
  pub interpret-status :
      (reply : Reply)
      → ((a : A)
          → interpret target reply ≡ ok a
          → (200 ≤ status_of reply) × (status_of reply < 300))
        × ((error_says is_not_found (interpret target reply) ≡ true) ↔ HasStatus 404 reply)
        × ((error_says is_unauthorized (interpret target reply) ≡ true)
            ↔ (HasStatus 401 reply ⊎ HasStatus 403 reply))
  interpret-status reply = (succeeds reply, not_found_iff reply, unauthorized_iff reply)
