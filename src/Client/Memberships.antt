-- ===== src/Client/Memberships.antt =====
-- internal/infisicalclient/identities.go: the project memberships of identities.
pub mod Calls
use infisical_entity_operato.Base.{
  String, Bool, true, false, not, ◌&&◌, ◌||◌, Option, none, some, List, [], ◌∷◌, map, ◌==◌, length,
  nat_eq, path_escape, concat, any, all, find_first, is_empty, decimal, if◌then◌else◌,
}
use infisical_entity_operato.Result.{Result, ok, err}
use infisical_entity_operato.Failure.{Error, is_not_found, is_unauthorized}
use infisical_entity_operato.Json.{Json, null, of_nil, object_of, items_of, member, Fields}
use infisical_entity_operato.Platform.{Method, Platform}
use infisical_entity_operato.Exec.{Exec, pure, raise, lift, check, attempt, or_wrap, ◌>>=◌, ◌>>◌}
use infisical_entity_operato.Client.Http.{Client, Target, no_target, inside}
use infisical_entity_operato.Client.Token.{exchange_with}
use infisical_entity_operato.Client.Wire.Memberships.{
  IdentityMembership, IdentityMembershipRole, no_membership, decode_membership, slug,
  validate_identity_membership, identity_membership_request, encode_membership_request,
}

abbrev membership_path : String → String → String
membership_path project_id identity_id = concat (
    "/v1/projects/"
    ∷ path_escape project_id
    ∷ "/memberships/identities/"
    ∷ path_escape identity_id
    ∷ [])

abbrev membership_target : Target IdentityMembership
membership_target = inside no_membership "identityMembership" decode_membership

unfoldable pub identity_membership_roles_equal : List IdentityMembershipRole → List String → Bool
identity_membership_roles_equal observed desired =
    nat_eq (length observed) (length desired)
    && all (λ d. any (λ o. slug o == d && not o.is_temporary) observed) desired

module _ (platform : Platform) (c : Client) (project_id identity_id : String) where
  unfoldable pub get_identity_membership : Exec Error IdentityMembership
  get_identity_membership = do
    membership ←
        exchange_with platform c Method.get (membership_path project_id identity_id) [] none
          membership_target
    lift (validate_identity_membership membership)

  unfoldable pub create_identity_membership :
      (role_slugs : List String) → Exec Error IdentityMembership
  create_identity_membership role_slugs = do
    membership ←
        exchange_with platform c Method.post (membership_path project_id identity_id) []
          (some (encode_membership_request (identity_membership_request role_slugs)))
          membership_target
    lift (validate_identity_membership membership)

  unfoldable pub update_identity_membership :
      (role_slugs : List String) → Exec Error IdentityMembership
  update_identity_membership role_slugs = do
    membership ←
        exchange_with platform c Method.patch (membership_path project_id identity_id) []
          (some (encode_membership_request (identity_membership_request role_slugs)))
          membership_target
    lift (validate_identity_membership membership)

  after_read : List String → Result Error IdentityMembership → Exec Error (Unit {0})
  after_read role_slugs (ok membership) =
      if identity_membership_roles_equal membership.roles role_slugs
      then pure tt
      else (do update_identity_membership role_slugs; pure tt)
  after_read role_slugs (err e) =
      if not (is_not_found e) then raise e else (do create_identity_membership role_slugs; pure tt)

  unfoldable pub ensure_identity_project_membership :
      (role_slugs : List String) → Exec Error (Unit {0})
  unfolding after_read
  ensure_identity_project_membership role_slugs = do
    membership ← attempt get_identity_membership
    after_read role_slugs membership
