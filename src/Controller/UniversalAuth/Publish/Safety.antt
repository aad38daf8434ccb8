-- ===== src/Controller/UniversalAuth/Publish/Safety.antt =====
-- What is stored where a client secret is published, and what is left alone.
use mathlib.Core.Path.{subst, ◌∙◌}
use infisical_entity_operato.Base.{
  String, Bool, true, false, ◌≡◌, refl, ap, ◌==◌, eq_refl, arith, some, List, All, ◌∷◌, [], lookup,
  lookup-insert, concat, ◌⊎◌, ◌↔◌, inl, inr, Bool-cases, eq_iff, if◌then◌else◌,
}
use infisical_entity_operato.Result.{Result, ok, err}
use infisical_entity_operato.Failure.{Error, dependency}
use infisical_entity_operato.Api.{Secret, OwnerReference, InfisicalUniversalAuth}
use infisical_entity_operato.Platform.{Object, Call, create, update, Run, Platform}
use infisical_entity_operato.Exec.{lift, attempt, read_secret}
use infisical_entity_operato.Exec.Outcome.{bind_ok, bind_err, attempt_run}
use infisical_entity_operato.Controller.UniversalAuth.Publish.{
  universal_auth_client_secret_id_annotation, universal_auth_secret_key, owner_reference_matches,
  group_version, filled, owned_by, set_universal_auth_secret_owner, unless_controlled,
  secret_to_fill, publish_universal_auth_secret,
}
use infisical_entity_operato.Controller.UniversalAuth.Publish.Calls.{
  Emits-publish_universal_auth_secret,
}

module _ (auth : InfisicalUniversalAuth) (client_secret client_id client_secret_id : String) where
  abbrev id_key : String
  id_key = universal_auth_secret_key auth.spec.client_secret.secret_ref false

  abbrev secret_key : String
  secret_key = universal_auth_secret_key auth.spec.client_secret.secret_ref true

  -- The Secret is opaque, has the client secret and the client identifier under their keys (the client
  -- secret, where the two keys are one), and is marked with the identifier of the client secret.
  pub record Holds (secret : Secret) : Type 0 where
    pub opaque : secret.type ≡ "Opaque"
    pub holds_client_secret : lookup secret_key secret.values ≡ some client_secret
    pub holds_client_id :
        lookup id_key secret.values
        ≡ some (if secret_key == id_key then client_secret else client_id)
    pub marked :
        lookup universal_auth_client_secret_id_annotation secret.annotations ≡ some client_secret_id

  abbrev pub StoresOnlyHolding : Call → Type 0
  StoresOnlyHolding (create (Object.secret secret)) = Holds secret
  StoresOnlyHolding (update (Object.secret secret)) = Holds secret
  StoresOnlyHolding _ = Unit

  Holds-filled :
      (secret : Secret) → Holds (filled auth client_secret client_id client_secret_id secret)
  unfolding filled
  Holds-filled secret = record {
    opaque = refl;
    holds_client_secret = rw lookup-insert (rw eq_refl refl);
    holds_client_id =
        rw lookup-insert (rw lookup-insert (rw (eq_refl id_key) (if-some (secret_key == id_key))));
    marked = rw lookup-insert refl;
  }
    where
      if-some :
          (b : Bool)
          → (if b then some client_secret else some client_id)
            ≡ some (if b then client_secret else client_id)
      if-some true = refl
      if-some false = refl

  Holds-with_owners :
      (secret : Secret) (owners : List OwnerReference)
      → Holds secret
      → Holds (record secret { owner_references = owners })
  Holds-with_owners secret owners h = record {
    opaque = h.opaque;
    holds_client_secret = h.holds_client_secret;
    holds_client_id = h.holds_client_id;
    marked = h.marked;
  }

  ok-Holds :
      (secret owned : Secret)
      → Holds secret
      → ◌≡◌ {A = Result Error Secret} (ok secret) (ok owned)
      → Holds owned
  ok-Holds secret owned h is = let same : secret ≡ owned = ground arith in subst Holds same h

  module _ (platform : Platform) where
    owned_by-Holds :
        (secret owned : Secret) (owners : Result Error (List OwnerReference))
        → Holds secret
        → owned_by platform secret owners ≡ ok owned
        → Holds owned
    unfolding owned_by
    owned_by-Holds secret owned (ok owners) h is =
        ok-Holds _ owned (Holds-with_owners secret owners h) is
    owned_by-Holds secret owned (err e) h is = absurd (ground arith)

    owner-Holds :
        (scheme : Bool) (secret owned : Secret)
        → platform.has_scheme ≡ scheme
        → Holds secret
        → set_universal_auth_secret_owner platform secret auth ≡ ok owned
        → Holds owned
    unfolding set_universal_auth_secret_owner
    owner-Holds true secret owned e h is = owned_by-Holds secret owned _ h (rw e at is)
    owner-Holds false secret owned e h is =
        ok-Holds _ owned (Holds-with_owners secret _ h) (rw e at is)

    -- Where a client secret is published, each Secret that is stored holds it, with its identifier and
    -- that of the client, if that holds of the calls made before.
    pub publish_universal_auth_secret-StoresOnlyHolding :
        (r : Run)
        → All StoresOnlyHolding r.calls
        → All StoresOnlyHolding
            (publish_universal_auth_secret platform auth client_secret client_id client_secret_id
              r).1.calls
    publish_universal_auth_secret-StoresOnlyHolding r h =
        (Emits-publish_universal_auth_secret platform (record { at = λ kind k. tt }) auth
            client_secret client_id client_secret_id
            (λ secret owned is.
              let holds = owner-Holds platform.has_scheme _ owned refl (Holds-filled secret) is in
              (holds, holds))).at
          r h

-- The reference names this Universal Auth, by its version, kind and name, and by its identifier where both
-- sides have one.
pub record Names (owner : OwnerReference) (auth : InfisicalUniversalAuth) : Type 0 where
  pub api_version : owner.api_version ≡ "infisical.infisical-operator.io/v1alpha1"
  pub kind : owner.kind ≡ "InfisicalUniversalAuth"
  pub name : owner.name ≡ auth.meta.name
  pub uid : (owner.uid ≡ "") ⊎ (auth.meta.uid ≡ "") ⊎ (owner.uid ≡ auth.meta.uid)

matches_iff :
    (owner : OwnerReference) (auth : InfisicalUniversalAuth)
    → (owner_reference_matches owner auth ≡ true) ↔ Names owner auth
unfolding owner_reference_matches
matches_iff owner auth = ground (
  arith,
  eq_iff owner.api_version group_version,
  eq_iff owner.kind "InfisicalUniversalAuth",
  eq_iff owner.name auth.meta.name,
  eq_iff owner.uid "",
  eq_iff auth.meta.uid "",
  eq_iff owner.uid auth.meta.uid,
)

module _ (auth : InfisicalUniversalAuth) (client_secret client_id client_secret_id : String)
    (platform : Platform) (secret : Secret) (owner : OwnerReference) (r r1 : Run)
    (found : read_secret platform
        (record { namespace = auth.meta.namespace; name = auth.spec.client_secret.secret_ref.name })
        r
      ≡ (ok secret, r1))
    (controlled : platform.controller_of secret.owner_references ≡ some owner) where
  refused :
      owner_reference_matches owner auth ≡ false
      → (e : Error) × (secret_to_fill platform auth (ok secret) ≡ err e)
  unfolding secret_to_fill unless_controlled
  refused other = (
    dependency (
        concat (
          "Secret " ∷ secret.meta.namespace ∷ "/" ∷ secret.meta.name
          ∷ " is controlled by another resource" ∷ [])),
    rw controlled (rw other refl),
  )

  -- Where the Secret has a controller, either that is this Universal Auth, by version, kind, name and
  -- identifier, and the Secret is the one to fill; or the publication ends in an error, and nothing is
  -- done after the Secret was read.
  pub publish_universal_auth_secret-controlled :
      (Names owner auth × (secret_to_fill platform auth (ok secret) ≡ ok secret))
      ⊎ ((Names owner auth → ⊥)
          × (e : Error) × (publish_universal_auth_secret platform auth client_secret client_id
                client_secret_id r
              ≡ (err e, r1)))
  unfolding publish_universal_auth_secret lift
  publish_universal_auth_secret-controlled =
      elim (Bool-cases (owner_reference_matches owner auth)) [
        | inl same ↦ inl (
          (matches_iff owner auth).0 same,
          unfold secret_to_fill unless_controlled in rw controlled (rw same refl),
        )
        | inr other ↦
            let (e, is) = refused other in
            inr (
              (λ names. let same = (matches_iff owner auth).1 names in ground (arith, same, other)),
              e,
              bind_ok (attempt (read_secret platform _)) _ (ok secret) r r1
                    (attempt_run (read_secret platform _) (ok secret) r r1 found)
                  ∙ bind_err (lift (secret_to_fill platform auth (ok secret))) _ _ r1 r1
                      (ap (λ x. (x, r1)) is),
            )
      ]
