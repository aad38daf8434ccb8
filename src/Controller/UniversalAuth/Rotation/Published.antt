-- ===== src/Controller/UniversalAuth/Rotation/Published.antt =====
-- What holds after the client secret was ensured, and after a rotation that failed.
use mathlib.Core.Path.{subst}
use infisical_entity_operato.Base.{
  String, true, false, not, ◌&&◌, ◌⊎◌, ◌≡◌, ◌≢◌, refl, sym, ap, ◌∙◌, inl, inr, arith, eq_iff, ◌==◌,
}
use infisical_entity_operato.Result.{Result, ok, err}
use infisical_entity_operato.Failure.{Error, is_not_found}
use infisical_entity_operato.Api.{InfisicalUniversalAuth}
use infisical_entity_operato.Platform.{Run, Platform}
use infisical_entity_operato.Exec.{pure}
use infisical_entity_operato.Exec.Outcome.{
  bind-ok, bind_ok, bind_err, if-ok, pure-ok, or_wrap-ok, or_wrap_ok, or_wrap_err, attempt-ok,
}
use infisical_entity_operato.Client.{
  Client, create_universal_auth_client_secret, get_universal_auth_client_secret,
}
use infisical_entity_operato.Client.Validated.{
  get_universal_auth_client_secret-id, create_universal_auth_client_secret-id,
}
use infisical_entity_operato.Client.Wire.UniversalAuth.{
  UniversalAuthConfig, UniversalAuthClientSecret, CreateUniversalAuthClientSecretResponse,
}
use infisical_entity_operato.Controller.UniversalAuth.Publish.{publish_universal_auth_secret}
use infisical_entity_operato.Controller.UniversalAuth.Recovery.{
  Rotation, secret_name, with_client_secret,
}
use infisical_entity_operato.Controller.UniversalAuth.Rotation.{
  ask_for, confirmed, confirm_client_secret, rotated, client_secret_request, rotate_client_secret,
  revoke_previous, ensure_universal_auth_client_secret,
}
use infisical_entity_operato.Controller.UniversalAuth.Recovery.Consistent.{
  IsConsistent, raise-not_ok, inspect-IsConsistent,
}

-- The specification stays; the status names a client secret, the Secret of the specification, and the nonce
-- that was asked for.
pub record NamesSecret (wanted auth : InfisicalUniversalAuth) : Type 0 where
  pub same_spec : auth.spec ≡ wanted.spec
  pub has_id : auth.status.client_secret.client_secret_id ≢ ""
  pub named : auth.status.client_secret.secret_name ≡ secret_name wanted
  pub nonce :
      auth.status.client_secret.last_rotation_nonce ≡ wanted.spec.client_secret.rotation_nonce

-- The last thing done was to read the client secret, and Infisical has it and does not call it revoked.
pub record Confirmed (platform : Platform) (c : Client) (config : UniversalAuthConfig) (id : String)
    (r' : Run) : Type 0 where
  pub asked : String
  pub metadata : UniversalAuthClientSecret
  pub before : Run
  pub answered :
      get_universal_auth_client_secret platform c config.identity_id asked before
      ≡ (ok metadata, r')
  pub valid : metadata.is_client_secret_revoked ≡ false
  pub same_id : metadata.id ≡ id

-- The client secret was created, then published in the Secret of the specification, and at last the one
-- that the status named before was revoked or found gone, if there was another.
pub record Rotated (platform : Platform) (c : Client) (config : UniversalAuthConfig)
    (wanted : InfisicalUniversalAuth) (id : String) (r' : Run) : Type 0 where
  pub current : InfisicalUniversalAuth
  pub created : CreateUniversalAuthClientSecretResponse
  pub before : Run
  pub made : Run
  pub stored : Run
  pub same_meta : current.meta ≡ wanted.meta
  pub same_spec : current.spec ≡ wanted.spec
  pub creates :
      create_universal_auth_client_secret platform c config.identity_id
        (client_secret_request current)
        before
      ≡ (ok created, made)
  pub publishes :
      publish_universal_auth_secret platform current created.client_secret config.client_id
        created.client_secret_data.id made
      ≡ (ok tt, stored)
  pub revokes :
      revoke_previous platform c config current.status.client_secret.client_secret_id
        created.client_secret_data.id stored
      ≡ (ok tt, r')
  pub same_id : created.client_secret_data.id ≡ id

pure_ends :
    {E A : Type 0} (P : A → Run → Type 0) (b a : A) (r r' : Run)
    → pure {E = E} b r ≡ (ok a, r')
    → P b r
    → P a r'
pure_ends P b a r r' h x =
    let (same, run) = pure-ok b r r' a h in subst (P a) run (subst (λ y. P y r) same x)

module _ (platform : Platform) (c : Client) (config : UniversalAuthConfig)
    (wanted : InfisicalUniversalAuth) where
  -- The specification stays, and what is not to be rotated is named in the status and confirmed.
  record IsConfirmed (rotation : Rotation) (r' : Run) : Type 0 where
    meta : rotation.auth.meta ≡ wanted.meta
    spec : rotation.auth.spec ≡ wanted.spec
    published :
        rotation.needs_rotation ≡ false
        → NamesSecret wanted rotation.auth
          × Confirmed platform c config rotation.auth.status.client_secret.client_secret_id r'

  module _ (rotation : Rotation) (consistent : IsConsistent wanted rotation) where
    needed-IsConfirmed : (r' : Run) → IsConfirmed (record rotation { needs_rotation = true }) r'
    needed-IsConfirmed r' = record {
      meta = consistent.meta;
      spec = consistent.spec;
      published = λ h. absurd (ground arith);
    }

    found-IsConfirmed :
        (metadata : UniversalAuthClientSecret) (r r' : Run)
        → rotation.needs_rotation ≡ false
        → metadata.id ≢ ""
        → metadata.is_client_secret_revoked ≡ false
        → get_universal_auth_client_secret platform c config.identity_id rotation.client_secret_id r
          ≡ (ok metadata, r')
        → IsConfirmed (record rotation { auth = with_client_secret rotation.auth metadata }) r'
    unfolding with_client_secret
    found-IsConfirmed metadata r r' keeps has valid is = record {
      meta = consistent.meta;
      spec = consistent.spec;
      published = λ h. (
        record {
          same_spec = consistent.spec;
          has_id = has;
          named = ap (λ spec. spec.client_secret.secret_ref.name) consistent.spec;
          nonce = consistent.nonce keeps;
        },
        record {
          asked = rotation.client_secret_id;
          metadata = metadata;
          before = r;
          answered = is;
          valid = valid;
          same_id = refl;
        },
      );
    }

    module _ (rotation' : Rotation) where
      confirmed-IsConfirmed :
          (r r1 r' : Run) (found : Result Error UniversalAuthClientSecret)
          → rotation.needs_rotation ≡ false
          → get_universal_auth_client_secret platform c config.identity_id rotation.client_secret_id
              r
            ≡ (found, r1)
          → confirmed platform c rotation found r1 ≡ (ok rotation', r')
          → IsConfirmed rotation' r'
      unfolding confirmed
      confirmed-IsConfirmed r r1 r' (err e) keeps is h =
          elim (if-ok (not (is_not_found e)) _ _ r1 r' rotation' h) [
            | inl (other, last) ↦ absurd (raise-not_ok _ r1 r' rotation' last)
            | inr (gone, last) ↦
                pure_ends IsConfirmed _ rotation' r1 r' last (needed-IsConfirmed r1)
          ]
      confirmed-IsConfirmed r r1 r' (ok metadata) keeps is h =
          elim (if-ok (not metadata.is_client_secret_revoked) _ _ r1 r' rotation' h) [
            | inl (valid, last) ↦ pure_ends IsConfirmed _ rotation' r1 r' last (
                found-IsConfirmed metadata r r1 keeps
                  (get_universal_auth_client_secret-id platform c r r1 config.identity_id
                    rotation.client_secret_id metadata is)
                  (ground arith) is)
            | inr (revoked, last) ↦
                pure_ends IsConfirmed _ rotation' r1 r' last (needed-IsConfirmed r1)
          ]

      ask_for-IsConfirmed :
          (r r' : Run)
          → rotation.needs_rotation ≡ false
          → ask_for platform c config rotation r ≡ (ok rotation', r')
          → IsConfirmed rotation' r'
      unfolding ask_for
      ask_for-IsConfirmed r r' keeps h =
          let (x, r1, asked, last) = bind-ok _ _ r r' rotation' h in
          confirmed-IsConfirmed r r1 r' x keeps (attempt-ok _ r r1 x asked) last

      confirm-IsConfirmed :
          (r r' : Run)
          → confirm_client_secret platform c config rotation r ≡ (ok rotation', r')
          → IsConfirmed rotation' r'
      unfolding confirm_client_secret
      confirm-IsConfirmed r r' h =
          elim (if-ok (not rotation.needs_rotation && not (rotation.client_secret_id == ""))
            (ask_for platform c config rotation) (pure rotation) r r' rotation' h) [
              | inl (test, last) ↦ ask_for-IsConfirmed r r' (ground arith) last
              | inr (test, last) ↦ pure_ends IsConfirmed _ rotation' r r' last (record {
                meta = consistent.meta;
                spec = consistent.spec;
                published = λ keeps.
                    absurd
                      (consistent.id keeps (ground (arith, eq_iff rotation.client_secret_id "")));
              })
            ]

  module _ (auth auth' : InfisicalUniversalAuth) (meta : auth.meta ≡ wanted.meta)
      (same : auth.spec ≡ wanted.spec) where
    rotated-NamesSecret :
        (created : CreateUniversalAuthClientSecretResponse) (r r' : Run)
        → created.client_secret_data.id ≢ ""
        → rotated platform c auth created r ≡ (ok auth', r')
        → NamesSecret wanted auth'
          × (created.client_secret_data.id ≡ auth'.status.client_secret.client_secret_id)
          × (r ≡ r')
    unfolding rotated
    rotated-NamesSecret created r r' has h =
        pure_ends
          (λ x q.
            NamesSecret wanted x
            × (created.client_secret_data.id ≡ x.status.client_secret.client_secret_id)
            × (r ≡ q))
          _ auth' r r' h
          (
            record {
              same_spec = same;
              has_id = has;
              named = ap (λ spec. spec.client_secret.secret_ref.name) same;
              nonce = ap (λ spec. spec.client_secret.rotation_nonce) same;
            },
            refl,
            refl,
          )

    rotate-NamesSecret :
        (r r' : Run)
        → rotate_client_secret platform c config auth r ≡ (ok auth', r')
        → NamesSecret wanted auth'
          × Rotated platform c config wanted auth'.status.client_secret.client_secret_id r'
    unfolding rotate_client_secret
    rotate-NamesSecret r r' h =
        let (created, r1, made, publish) = bind-ok _ _ r r' auth' h in
        let (u, r2, stored, revoke) = bind-ok _ _ r1 r' auth' publish in
        let (v, r3, revoked, last) = bind-ok _ _ r2 r' auth' revoke in
        let creates = or_wrap-ok _ _ r r1 created made in
        let (named, same_id, run) =
          rotated-NamesSecret created r3 r'
            (create_universal_auth_client_secret-id platform c r r1 config.identity_id _ created
              creates)
            last in
        (
          named,
          record {
            current = auth;
            created = created;
            before = r;
            made = r1;
            stored = r2;
            same_meta = meta;
            same_spec = same;
            creates = creates;
            publishes = or_wrap-ok _ _ r1 r2 tt stored;
            revokes = or_wrap-ok _ _ r2 r3 tt revoked ∙ ap (λ q. (ok tt, q)) run;
            same_id = same_id;
          },
        )

pub NamesSecret-self :
    (wanted auth : InfisicalUniversalAuth) → NamesSecret wanted auth → NamesSecret auth auth
NamesSecret-self wanted auth is = record {
  same_spec = refl;
  has_id = is.has_id;
  named = is.named ∙ ap (λ spec. spec.client_secret.secret_ref.name) (sym is.same_spec);
  nonce = is.nonce ∙ ap (λ spec. spec.client_secret.rotation_nonce) (sym is.same_spec);
}

pub ensure_universal_auth_client_secret-NamesSecret :
    (platform : Platform) (c : Client) (auth auth' : InfisicalUniversalAuth)
    (config : UniversalAuthConfig) (r r' : Run)
    → ensure_universal_auth_client_secret platform c auth config r ≡ (ok auth', r')
    → let id = auth'.status.client_secret.client_secret_id in
      NamesSecret auth auth'
      × (Confirmed platform c config id r' ⊎ Rotated platform c config auth id r')
unfolding ensure_universal_auth_client_secret
ensure_universal_auth_client_secret-NamesSecret platform c auth auth' config r r' h =
    let (_, r1, _, read) = bind-ok _ _ r r' auth' h in
    let (found, r2, _, inspect) = bind-ok _ _ r1 r' auth' read in
    let (inspected, r3, is_inspected, confirm) = bind-ok _ _ r2 r' auth' inspect in
    let (rotation, r4, is_confirmed, last) = bind-ok _ _ r3 r' auth' confirm in
    let consistent =
      inspect-IsConsistent platform c auth config inspected r2 r3 found is_inspected in
    let now =
      confirm-IsConfirmed platform c config auth inspected consistent rotation r3 r4 is_confirmed in
    elim (if-ok (not rotation.needs_rotation) (pure rotation.auth)
      (rotate_client_secret platform c config rotation.auth) r4 r' auth' last) [
        | inl (kept, is) ↦
            let (named, valid) =
              pure_ends
                (λ x q.
                  NamesSecret auth x
                  × Confirmed platform c config x.status.client_secret.client_secret_id q)
                _ auth' r4 r' is (now.published (ground arith)) in
            (named, inl valid)
        | inr (needed, is) ↦
            let (named, done) =
              rotate-NamesSecret platform c config auth rotation.auth auth' now.meta now.spec r4 r'
                is in
            (named, inr done)
      ]

-- Where a new client secret was created, and its publication fails, the rotation ends there: the error
-- goes with the object as it was, which names the previous client secret, and nothing is revoked, be it the
-- previous client secret or the new one.
pub rotate_client_secret-unpublished :
    (platform : Platform) (c : Client) (auth : InfisicalUniversalAuth)
    (config : UniversalAuthConfig) (created : CreateUniversalAuthClientSecretResponse) (e : Error)
    (r r1 r2 : Run)
    → create_universal_auth_client_secret platform c config.identity_id
        (client_secret_request auth)
        r
      ≡ (ok created, r1)
    → publish_universal_auth_secret platform auth created.client_secret config.client_id
        created.client_secret_data.id r1
      ≡ (err e, r2)
    → rotate_client_secret platform c config auth r ≡ (err (auth, e), r2)
unfolding rotate_client_secret
rotate_client_secret-unpublished platform c auth config created e r r1 r2 made failed =
    bind_ok _ _ created r r1 (or_wrap_ok _ (λ e. (auth, e)) created r r1 made)
    ∙ bind_err _ _ (auth, e) r1 r2 (or_wrap_err _ (λ e. (auth, e)) e r1 r2 failed)
