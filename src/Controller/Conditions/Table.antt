-- ===== src/Controller/Conditions/Table.antt =====
-- What setCondition leaves: one of the three conditions is true, the others are false.
use infisical_entity_operato.Base.{
  ℕ, String, ◌≡◌, ◌≢◌, ◌∙◌, Bool, true, false, ◌&&◌, not, some, List, ◌==◌, eq_iff, arith,
  if◌then◌else◌,
}
use infisical_entity_operato.Api.{Condition, condition_true, condition_false}
use infisical_entity_operato.Controller.Conditions.{
  ready_condition, reconciling_condition, stalled_condition, set_from, set_single_condition,
  is_stalled_reason, set_condition, condition_ready,
}
use infisical_entity_operato.Controller.Conditions.Laws.{
  get, Agrees, renewed, get-set_from, renewed-Agrees, set_from_present, condition_ready_of_get,
}

abbrev pub wanted : (type : String) (generation : ℕ) (status reason message : String) → Condition
wanted type generation status reason message = record {
  type = type;
  status = status;
  observed_generation = generation;
  last_transition_time = 0;
  reason = reason;
  message = message;
}

-- The rows of Reconciling and Stalled, for the status and the reason of Ready
abbrev reconciling_row : (generation : ℕ) (ready stalled : Bool) → Condition
reconciling_row g true b =
    wanted reconciling_condition g condition_false "ReconciliationSucceeded"
      "reconciliation completed"
reconciling_row g false true =
    wanted reconciling_condition g condition_false "Stalled"
      "reconciliation is blocked until the resource is corrected"
reconciling_row g false false =
    wanted reconciling_condition g condition_true "Progressing"
      "reconciliation is waiting for a dependency or retrying after an external error"

abbrev stalled_row : (generation : ℕ) (ready stalled : Bool) (reason message : String) → Condition
stalled_row g false true reason message = wanted stalled_condition g condition_true reason message
stalled_row g _ _ reason message =
    wanted stalled_condition g condition_false "NotStalled" "reconciliation can continue"

module _ (g : ℕ) (status reason message : String) where
  abbrev pub row_ready : Condition
  row_ready = wanted ready_condition g status reason message

  abbrev pub row_reconciling : Condition
  row_reconciling = reconciling_row g (status == condition_true) (is_stalled_reason reason)

  abbrev pub row_stalled : Condition
  row_stalled = stalled_row g (status == condition_true) (is_stalled_reason reason) reason message

  set_condition_lem :
      (now : ℕ → ℕ) (cs : List Condition)
      → set_condition now cs g status reason message
        ≡ set_from
            (now 2)
            row_stalled
            (set_from (now 1) row_reconciling (set_from (now 0) row_ready cs))
  unfolding set_condition set_single_condition
  set_condition_lem now cs = ground arith

  pub type-row_reconciling : row_reconciling.type ≡ reconciling_condition
  type-row_reconciling = ground arith

  pub type-row_stalled : row_stalled.type ≡ stalled_condition
  type-row_stalled = ground arith

  -- The conditions after setCondition, type by type.
  pub get-set_condition :
      (now : ℕ → ℕ) (cs : List Condition) (t : String)
      → get t (set_condition now cs g status reason message) ≡ (
          if stalled_condition == t
          then some (renewed (now 2) row_stalled (get stalled_condition cs))
          else if reconciling_condition == t
          then some (renewed (now 1) row_reconciling (get reconciling_condition cs))
          else if ready_condition == t
          then some (renewed (now 0) row_ready (get ready_condition cs))
          else get t cs)
  get-set_condition now cs t =
      simp (set_condition_lem, get-set_from, type-row_reconciling, type-row_stalled)

  -- The row of a type agrees with the condition of that type.
  says_ready :
      (now : ℕ → ℕ) (cs : List Condition)
      → Agrees (renewed (now 0) row_ready (get ready_condition cs)) row_ready
  says_ready now cs = renewed-Agrees (now 0) row_ready cs

  says_reconciling :
      (now : ℕ → ℕ) (cs : List Condition)
      → Agrees (renewed (now 1) row_reconciling (get reconciling_condition cs)) row_reconciling
  says_reconciling now cs = rw (← type-row_reconciling) (renewed-Agrees (now 1) row_reconciling cs)

  says_stalled :
      (now : ℕ → ℕ) (cs : List Condition)
      → Agrees (renewed (now 2) row_stalled (get stalled_condition cs)) row_stalled
  says_stalled now cs = rw (← type-row_stalled) (renewed-Agrees (now 2) row_stalled cs)

  -- Setting the same condition a second time changes nothing, whatever the clock says.
  pub set_condition_idem :
      (now later : ℕ → ℕ) (cs : List Condition)
      → set_condition later (set_condition now cs g status reason message) g status reason message
        ≡ set_condition now cs g status reason message
  set_condition_idem now later cs =
      let set = set_condition now cs g status reason message in
      let same_ready =
        set_from_present (later 0) row_ready _ set (get-set_condition now cs ready_condition)
          (says_ready now cs) in
      let same_reconciling =
        set_from_present (later 1) row_reconciling _ set
          (rw type-row_reconciling (get-set_condition now cs reconciling_condition))
          (says_reconciling now cs) in
      let same_stalled =
        set_from_present (later 2) row_stalled _ set
          (rw type-row_stalled (get-set_condition now cs stalled_condition))
          (says_stalled now cs) in
      cc (set_condition_lem later set, same_ready, same_reconciling, same_stalled)

  -- What the status shows after setCondition: Ready says what was given; Reconciling and Stalled
  -- follow from it, and every other condition is as it was.
  pub record Reports (before after : List Condition) : Type 0 where
    pub ready : Condition
    pub reconciling : Condition
    pub stalled : Condition
    pub at_ready : get ready_condition after ≡ some ready
    pub at_reconciling : get reconciling_condition after ≡ some reconciling
    pub at_stalled : get stalled_condition after ≡ some stalled
    pub says : Agrees ready row_ready
    pub stalled_status : stalled.status ≡ (
        if not (status == condition_true) && is_stalled_reason reason
        then condition_true
        else condition_false)
    pub reconciling_status : reconciling.status ≡ (
        if not (status == condition_true) && not (is_stalled_reason reason)
        then condition_true
        else condition_false)
    pub generations : (reconciling.observed_generation ≡ g) × (stalled.observed_generation ≡ g)
    pub others :
        (t : String)
        → t ≢ ready_condition
        → t ≢ reconciling_condition
        → t ≢ stalled_condition
        → get t after ≡ get t before

  row_statuses :
      (row_stalled.status ≡ (
        if not (status == condition_true) && is_stalled_reason reason
        then condition_true
        else condition_false))
      × (row_reconciling.status ≡ (
          if not (status == condition_true) && not (is_stalled_reason reason)
          then condition_true
          else condition_false))
      × (row_reconciling.observed_generation ≡ g)
      × (row_stalled.observed_generation ≡ g)
  row_statuses = ground arith

  -- After setCondition the list holds Ready with the status, reason, message and generation given,
  -- Reconciling and Stalled as they follow from them, and every other condition as it was.
  pub set_condition-Reports :
      (now : ℕ → ℕ) (cs : List Condition)
      → Reports cs (set_condition now cs g status reason message)
  set_condition-Reports now cs =
      let (stalled_is, reconciling_is, reconciling_at, stalled_at) = row_statuses in
      let reconciling_says = says_reconciling now cs in
      let stalled_says = says_stalled now cs in
      record {
        ready = renewed (now 0) row_ready (get ready_condition cs);
        reconciling = renewed (now 1) row_reconciling (get reconciling_condition cs);
        stalled = renewed (now 2) row_stalled (get stalled_condition cs);
        at_ready = get-set_condition now cs ready_condition;
        at_reconciling = get-set_condition now cs reconciling_condition;
        at_stalled = get-set_condition now cs stalled_condition;
        says = says_ready now cs;
        stalled_status = stalled_says.status ∙ stalled_is;
        reconciling_status = reconciling_says.status ∙ reconciling_is;
        generations =
            (reconciling_says.generation ∙ reconciling_at, stalled_says.generation ∙ stalled_at);
        others = λ t a b c. rw (get-set_condition now cs t) (
            ground (
              arith,
              eq_iff stalled_condition t,
              eq_iff reconciling_condition t,
              eq_iff ready_condition t,
            ));
      }

-- With the status "True" the object counts as ready.
pub condition_ready-set_condition :
    (now : ℕ → ℕ) (cs : List Condition) (g : ℕ) (reason message : String)
    → condition_ready (set_condition now cs g condition_true reason message) ≡ true
condition_ready-set_condition now cs g reason message =
    let shown = set_condition-Reports g condition_true reason message now cs in
    condition_ready_of_get _ shown.ready shown.at_ready shown.says.status
