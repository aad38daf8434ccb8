-- ===== src/Controller/UniversalAuth/Acquire.antt =====
-- The configuration that a reconciliation of Universal Auth goes on with, and its identifier.
use infisical_entity_operato.Base.{String, ◌≡◌, ap, arith, eq_iff, none, sym, ◌∙◌}
use infisical_entity_operato.Result.{ok}
use infisical_entity_operato.Api.{InfisicalUniversalAuth}
use infisical_entity_operato.Platform.{Run, Platform}
use infisical_entity_operato.Exec.Outcome.{bind-ok, pure-ok, or_return-ok, check-ok}
use infisical_entity_operato.Client.{Client}
use infisical_entity_operato.Client.Wire.UniversalAuth.{UniversalAuthConfig}
use infisical_entity_operato.Controller.UniversalAuth.{read_step}
use infisical_entity_operato.Controller.UniversalAuth.State.{validate_universal_auth_ownership}

owned :
    (config : UniversalAuthConfig) (identity_id : String)
    → validate_universal_auth_ownership config identity_id ≡ none
    → config.identity_id ≡ identity_id
unfolding validate_universal_auth_ownership
owned config identity_id h = ground (arith, eq_iff config.identity_id identity_id)

-- A configuration that the reconciliation goes on with, having read it, belongs to the identity that is
-- referred to.
pub read_step-Owned :
    (platform : Platform) (c : Client) (identity_id : String) (auth : InfisicalUniversalAuth)
    (current : UniversalAuthConfig) (r r' : Run)
    → read_step platform c identity_id auth r ≡ (ok current, r')
    → current.identity_id ≡ identity_id
unfolding read_step
read_step-Owned platform c identity_id auth current r r' h =
    let (config, r1, _, rest) = bind-ok _ _ r r' current h in
    let (u, r2, validated, last) = bind-ok _ _ r1 r' current rest in
    let (is, _) = pure-ok config r2 r' current last in
    let valid =
      (check-ok (validate_universal_auth_ownership config identity_id) r1 r2
        (or_return-ok _ _ r1 r2 u validated)).0 in
    ap (λ x. x.identity_id) (sym is) ∙ owned config identity_id valid
