-- ===== src/Controller/UniversalAuth/Recovery/Consistent.antt =====
-- What holds after the published Secret was looked at, and the client secret that it names.
use mathlib.Core.Path.{subst}
use infisical_entity_operato.Base.{
  String, Bool, true, false, not, ◌&&◌, ◌≡◌, ◌≢◌, refl, inl, inr, arith, eq_iff, ◌==◌,
}
use infisical_entity_operato.Result.{Result, ok, err}
use infisical_entity_operato.Failure.{Error, is_kube_not_found}
use infisical_entity_operato.Api.{Secret, InfisicalUniversalAuth}
use infisical_entity_operato.Platform.{Run, Platform}
use infisical_entity_operato.Exec.{pure, raise}
use infisical_entity_operato.Exec.Outcome.{bind-ok, if-ok, pure-ok}
use infisical_entity_operato.Client.{Client}
use infisical_entity_operato.Client.Wire.UniversalAuth.{
  UniversalAuthConfig, UniversalAuthClientSecret,
}
use infisical_entity_operato.Controller.UniversalAuth.Recovery.{
  Rotation, with_client_secret, needs_rotation_at_first, at_first, recovered, recover_by_id,
  recover_client_secret, inspect_published,
}

-- The metadata and the specification stay; and where no rotation is needed, the nonce is the one that was asked for, and
-- there is a client secret to confirm.
pub record IsConsistent (wanted : InfisicalUniversalAuth) (rotation : Rotation) : Type 0 where
  pub meta : rotation.auth.meta ≡ wanted.meta
  pub spec : rotation.auth.spec ≡ wanted.spec
  pub id : rotation.needs_rotation ≡ false → rotation.client_secret_id ≢ ""
  pub nonce :
      rotation.needs_rotation ≡ false
      → rotation.auth.status.client_secret.last_rotation_nonce
        ≡ wanted.spec.client_secret.rotation_nonce

pub raise-not_ok : {E A : Type 0} (e : E) (r r' : Run) (a : A) → raise e r ≡ (ok a, r') → ⊥
unfolding raise
raise-not_ok e r r' a h = ground arith

tested : (id : String) (b c : Bool) → (not (id == "") && b && c) ≡ true → id ≢ ""
tested id b c h e = ground (arith, eq_iff id "")

module _ (auth : InfisicalUniversalAuth) where
  at_first-id :
      needs_rotation_at_first auth ≡ false → auth.status.client_secret.client_secret_id ≢ ""
  unfolding needs_rotation_at_first
  at_first-id h e = ground (arith, eq_iff auth.status.client_secret.client_secret_id "")

  at_first-nonce :
      needs_rotation_at_first auth ≡ false
      → auth.status.client_secret.last_rotation_nonce ≡ auth.spec.client_secret.rotation_nonce
  unfolding needs_rotation_at_first
  at_first-nonce h = ground (
    arith,
    eq_iff auth.status.client_secret.last_rotation_nonce auth.spec.client_secret.rotation_nonce,
  )

  needed_without_id :
      auth.status.client_secret.client_secret_id ≡ "" → needs_rotation_at_first auth ≡ true
  unfolding needs_rotation_at_first
  needed_without_id h = ground (arith, eq_iff auth.status.client_secret.client_secret_id "")

  needs_IsConsistent :
      (id : String)
      → IsConsistent auth (record { client_secret_id = id; needs_rotation = true; auth = auth })
  needs_IsConsistent id = record {
    meta = refl;
    spec = refl;
    id = λ h. absurd (ground arith);
    nonce = λ h. ground arith;
  }

  first_IsConsistent :
      (id : String)
      → (needs_rotation_at_first auth ≡ false → id ≢ "")
      → IsConsistent auth (at_first auth id)
  first_IsConsistent id h = record { meta = refl; spec = refl; id = h; nonce = at_first-nonce }

  without_id :
      (id : String)
      → auth.status.client_secret.client_secret_id ≡ ""
      → IsConsistent auth (at_first auth id)
  without_id id lacks = first_IsConsistent id (λ h e. cc (h, needed_without_id lacks))

module _ (platform : Platform) (c : Client) (auth : InfisicalUniversalAuth) where
  recovered-IsConsistent :
      (id : String) (found : Result Error UniversalAuthClientSecret)
      → id ≢ ""
      → IsConsistent auth (recovered platform c auth id found)
  unfolding recovered with_client_secret
  recovered-IsConsistent id (err e) has = first_IsConsistent auth id (λ h. has)
  recovered-IsConsistent id (ok metadata) has =
      elim metadata.is_client_secret_revoked
        as (λ b.
          IsConsistent auth (
            recovered platform c auth id (ok (record metadata { is_client_secret_revoked = b })))) [
              | true ↦ first_IsConsistent auth id (λ h. has)
              | false ↦ record { meta = refl; spec = refl; id = λ h. has; nonce = λ h. refl }
            ]

  module _ (config : UniversalAuthConfig) (rotation : Rotation) (r r' : Run) where
    recover_by_id-IsConsistent :
        (id : String)
        → id ≢ ""
        → recover_by_id platform c auth config id r ≡ (ok rotation, r')
        → IsConsistent auth rotation
    unfolding recover_by_id
    recover_by_id-IsConsistent id has h =
        let (x, r1, _, last) = bind-ok _ _ r r' rotation h in
        subst (IsConsistent auth) (pure-ok _ r1 r' rotation last).0
          (recovered-IsConsistent id x has)

    recover-IsConsistent :
        (published : Secret)
        → auth.status.client_secret.client_secret_id ≡ ""
        → recover_client_secret platform c auth config published r ≡ (ok rotation, r')
        → IsConsistent auth rotation
    unfolding recover_client_secret
    recover-IsConsistent published lacks h =
        elim (if-ok _ (recover_by_id platform c auth config _) (pure (at_first auth _)) r r'
          rotation h) [
            | inl (test, found) ↦ recover_by_id-IsConsistent _ (tested _ _ _ test) found
            | inr (test, last) ↦
                subst (IsConsistent auth) (pure-ok _ r r' rotation last).0 (without_id auth _ lacks)
          ]

    pub inspect-IsConsistent :
        (found : Result Error Secret)
        → inspect_published platform c auth config found r ≡ (ok rotation, r')
        → IsConsistent auth rotation
    unfolding inspect_published
    inspect-IsConsistent (err e) h = elim (if-ok (is_kube_not_found e) _ _ r r' rotation h) [
      | inl (gone, last) ↦
          subst (IsConsistent auth) (pure-ok _ r r' rotation last).0 (needs_IsConsistent auth _)
      | inr (other, last) ↦ absurd (raise-not_ok _ r r' rotation last)
    ]
    inspect-IsConsistent (ok published) h =
        elim (if-ok (auth.status.client_secret.client_secret_id == "")
          (recover_client_secret platform c auth config published)
          (pure (at_first auth auth.status.client_secret.client_secret_id)) r r' rotation h) [
            | inl (lacks, last) ↦ recover-IsConsistent published ((eq_iff _ "").0 lacks) last
            | inr (has, last) ↦
                subst (IsConsistent auth) (pure-ok _ r r' rotation last).0
                  (first_IsConsistent auth _ (at_first-id auth))
          ]
