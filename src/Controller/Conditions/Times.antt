-- ===== src/Controller/Conditions/Times.antt =====
-- The times of last transition.
use infisical_entity_operato.Base.{ℕ, String, ◌≡◌, ◌≢◌, sym, ap, ◌∙◌, some, List, eq_iff, arith}
use infisical_entity_operato.Api.{Condition}
use infisical_entity_operato.Controller.Conditions.{
  ready_condition, reconciling_condition, stalled_condition, set_condition, renew,
}
use infisical_entity_operato.Controller.Conditions.Laws.{
  get, renewed, time-renew, renew-Agrees, type-get,
}
use infisical_entity_operato.Controller.Conditions.Table.{
  row_ready, row_reconciling, row_stalled, get-set_condition, type-row_reconciling,
  type-row_stalled,
}

renewed_time :
    (now : ℕ) (w c : Condition)
    → (renew now w c).status ≡ c.status
    → c.type ≡ w.type
    → c.last_transition_time ≢ 0
    → (renew now w c).last_transition_time ≡ c.last_transition_time
renewed_time now w c same of_type h =
    ground (arith, time-renew now w c h, renew-Agrees now w c of_type, eq_iff c.status w.status)

keeps_time :
    (now : ℕ) (w : Condition) (t : String) (cs : List Condition) (c c' : Condition)
    → get t cs ≡ some c
    → c.last_transition_time ≢ 0
    → c'.status ≡ c.status
    → w.type ≡ t
    → renewed now w (get w.type cs) ≡ c'
    → c'.last_transition_time ≡ c.last_transition_time
keeps_time now w t cs c c' e h same of_type is =
    let at_type : get w.type cs ≡ some c = rw of_type e in
    let renewed_is : renew now w c ≡ c' = rw at_type at is in
    let kept =
      renewed_time now w c (ap (λ d. d.status) renewed_is ∙ same) (type-get t cs c e ∙ sym of_type)
        h in
    sym (ap (λ d. d.last_transition_time) renewed_is) ∙ kept

-- A condition whose status stays keeps the time of its last transition, if that is set.
pub time-set_condition :
    (now : ℕ → ℕ) (cs : List Condition) (g : ℕ) (status reason message t : String)
    (c c' : Condition)
    → get t cs ≡ some c
    → get t (set_condition now cs g status reason message) ≡ some c'
    → c'.status ≡ c.status
    → c.last_transition_time ≢ 0
    → c'.last_transition_time ≡ c.last_transition_time
time-set_condition now cs g status reason message t c c' e e' same h =
    let at = get-set_condition g status reason message now cs t in
    ground (
      arith,
      at,
      eq_iff stalled_condition t,
      eq_iff reconciling_condition t,
      eq_iff ready_condition t,
      keeps_time (now 2) (row_stalled g status reason message) t cs c c',
      keeps_time (now 1) (row_reconciling g status reason message) t cs c c',
      keeps_time (now 0) (row_ready g status reason message) t cs c c',
      type-row_stalled g status reason message,
      type-row_reconciling g status reason message,
    )
