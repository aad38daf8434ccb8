-- ===== src/Controller/UniversalAuth/Rotation/Kept.antt =====
-- A client secret that is published, asked for and not revoked is kept.
use infisical_entity_operato.Base.{
  false, not, ◌≡◌, ◌≢◌, refl, ◌∙◌, arith, eq_iff, ◌==◌, is_blank, Bool, none, some, if◌then◌else◌,
}
use infisical_entity_operato.Result.{ok}
use infisical_entity_operato.Api.{Secret, InfisicalUniversalAuth}
use infisical_entity_operato.Platform.{Run, Platform}
use infisical_entity_operato.Exec.{check, read_secret, pure}
use infisical_entity_operato.Exec.Outcome.{bind_ok, attempt_run}
use infisical_entity_operato.Client.{Client, get_universal_auth_client_secret}
use infisical_entity_operato.Client.Wire.UniversalAuth.{
  UniversalAuthConfig, UniversalAuthClientSecret,
}
use infisical_entity_operato.Controller.UniversalAuth.Recovery.{
  secret_name, with_client_secret, needs_rotation_at_first, at_first, inspect_published,
}
use infisical_entity_operato.Controller.UniversalAuth.Rotation.{
  ask_for, confirmed, confirm_client_secret, rotate_client_secret,
  ensure_universal_auth_client_secret,
}

module _ (platform : Platform) (c : Client) (auth : InfisicalUniversalAuth)
    (config : UniversalAuthConfig) (metadata : UniversalAuthClientSecret)
    (has_id : auth.status.client_secret.client_secret_id ≢ "")
    (nonce : auth.status.client_secret.last_rotation_nonce ≡ auth.spec.client_secret.rotation_nonce)
    (valid : metadata.is_client_secret_revoked ≡ false) where
  id_test : (auth.status.client_secret.client_secret_id == "") ≡ false
  id_test = ground (arith, eq_iff auth.status.client_secret.client_secret_id "")

  not_needed : needs_rotation_at_first auth ≡ false
  unfolding needs_rotation_at_first
  not_needed = ground (
    arith,
    id_test,
    eq_iff auth.status.client_secret.last_rotation_nonce auth.spec.client_secret.rotation_nonce,
  )

  inspected :
      (published : Secret) (r1 : Run)
      → inspect_published platform c auth config (ok published) r1
        ≡ (ok (at_first auth auth.status.client_secret.client_secret_id), r1)
  unfolding inspect_published pure
  inspected published r1 = rw id_test refl

  kept :
      (r1 r2 : Run)
      → get_universal_auth_client_secret platform c config.identity_id
          auth.status.client_secret.client_secret_id r1
        ≡ (ok metadata, r2)
      → confirm_client_secret platform c config
          (at_first auth auth.status.client_secret.client_secret_id)
          r1
        ≡ (
          ok (record (at_first auth auth.status.client_secret.client_secret_id) {
            auth = with_client_secret auth metadata;
          }),
          r2,
        )
  unfolding confirm_client_secret ask_for confirmed with_client_secret pure
  kept r1 r2 found = rw not_needed (
      rw id_test
        (bind_ok _ _ (ok metadata) r1 r2 (attempt_run _ (ok metadata) r1 r2 found) ∙ rw valid refl))

  goes_on :
      (r2 : Run)
      → (if not (needs_rotation_at_first auth)
            then pure (with_client_secret auth metadata)
            else rotate_client_secret platform c config (with_client_secret auth metadata))
          r2
        ≡ (ok (with_client_secret auth metadata), r2)
  unfolding pure
  goes_on r2 = rw not_needed refl

passes :
    {E : Type 0} (b : Bool) (e : E) (r : Run)
    → b ≡ false
    → check (if b then some e else none) r ≡ (ok tt, r)
unfolding check
passes b e r h = rw h refl

-- A client secret is kept where the status names it with the rotation nonce of the specification, its
-- Secret is there, and Infisical says that it is not revoked: it is read, and nothing else is done.
pub ensure_universal_auth_client_secret-kept :
    (platform : Platform) (c : Client) (auth : InfisicalUniversalAuth)
    (config : UniversalAuthConfig) (published : Secret) (metadata : UniversalAuthClientSecret)
    (r r1 r2 : Run)
    → is_blank (secret_name auth) ≡ false
    → auth.status.client_secret.client_secret_id ≢ ""
    → auth.status.client_secret.last_rotation_nonce ≡ auth.spec.client_secret.rotation_nonce
    → read_secret platform (record { namespace = auth.meta.namespace; name = secret_name auth }) r
      ≡ (ok published, r1)
    → get_universal_auth_client_secret platform c config.identity_id
        auth.status.client_secret.client_secret_id r1
      ≡ (ok metadata, r2)
    → metadata.is_client_secret_revoked ≡ false
    → ensure_universal_auth_client_secret platform c auth config r
      ≡ (ok (with_client_secret auth metadata), r2)
unfolding ensure_universal_auth_client_secret
ensure_universal_auth_client_secret-kept platform c auth config published metadata r r1 r2 named
      has_id nonce found read valid =
    bind_ok _ _ tt r r (passes _ _ r named)
    ∙ bind_ok _ _ (ok published) r r1 (attempt_run _ (ok published) r r1 found)
    ∙ bind_ok _ _ _ r1 r1
        (inspected platform c auth config metadata has_id nonce valid published r1)
    ∙ bind_ok _ _ _ r1 r2 (kept platform c auth config metadata has_id nonce valid r1 r2 read)
    ∙ goes_on platform c auth config metadata has_id nonce valid r2
