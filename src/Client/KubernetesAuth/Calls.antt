-- ===== src/Client/KubernetesAuth/Calls.antt =====
-- The requests of the functions of KubernetesAuth.
use infisical_entity_operato.Base.{String}
use infisical_entity_operato.Platform.{Method, Call, Platform}
use infisical_entity_operato.Exec.Emits.{Permits, Emits, emits_rules}
use infisical_entity_operato.Client.Http.{Client}
use infisical_entity_operato.Client.Token.Calls.{Emits-exchange_with}
use infisical_entity_operato.Client.Wire.KubernetesAuth.{
  CreateKubernetesAuthRequest, KubernetesAuthPatch,
}
use infisical_entity_operato.Client.KubernetesAuth.{
  get_kubernetes_auth, attach_kubernetes_auth, update_kubernetes_auth, delete_kubernetes_auth,
}

module _ (platform : Platform) {Q : Call → Type 0} (login : Permits Q Method.post) (c : Client)
    (identity_id : String) where
  pub Emits-get_kubernetes_auth :
      Permits Q Method.get → Emits Q (get_kubernetes_auth platform c identity_id)
  unfolding get_kubernetes_auth
  Emits-get_kubernetes_auth p = search (emits_rules, Emits-exchange_with)

  pub Emits-attach_kubernetes_auth :
      (request : CreateKubernetesAuthRequest)
      → Emits Q (attach_kubernetes_auth platform c identity_id request)
  unfolding attach_kubernetes_auth
  Emits-attach_kubernetes_auth request = search (emits_rules, Emits-exchange_with)

  pub Emits-update_kubernetes_auth :
      (request : KubernetesAuthPatch)
      → Permits Q Method.patch
      → Emits Q (update_kubernetes_auth platform c identity_id request)
  unfolding update_kubernetes_auth
  Emits-update_kubernetes_auth request p = search (emits_rules, Emits-exchange_with)

  pub Emits-delete_kubernetes_auth :
      Permits Q Method.delete → Emits Q (delete_kubernetes_auth platform c identity_id)
  unfolding delete_kubernetes_auth
  Emits-delete_kubernetes_auth p = search (emits_rules, Emits-exchange_with)
