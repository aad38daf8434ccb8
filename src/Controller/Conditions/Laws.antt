-- ===== src/Controller/Conditions/Laws.antt =====
-- A list of conditions seen as a map from types to conditions, and setSingleCondition in it.
use infisical_entity_operato.Base.{
  ℕ, String, ◌≡◌, ◌≢◌, refl, true, Option, none, some, List, [], ◌∷◌, ◌==◌, any, eq_iff, arith,
  if◌then◌else◌,
}
use infisical_entity_operato.Api.{Condition, condition_true}
use infisical_entity_operato.Controller.Conditions.{
  renew, set_from, ready_condition, condition_ready,
}

-- The first condition of a type
abbrev pub get : String → List Condition → Option Condition
get t [] = none
get t (c ∷ cs) = if c.type == t then some c else get t cs

-- What a condition says, its time apart
pub record Agrees (c w : Condition) : Type 0 where
  pub type : c.type ≡ w.type
  pub status : c.status ≡ w.status
  pub reason : c.reason ≡ w.reason
  pub message : c.message ≡ w.message
  pub generation : c.observed_generation ≡ w.observed_generation

-- The condition that takes the place of the one of its type, or the new one
abbrev pub renewed : ℕ → Condition → Option Condition → Condition
renewed now w none = record w { last_transition_time = now }
renewed now w (some c) = renew now w c

pub type-renew : (now : ℕ) (w c : Condition) → c.type ≡ w.type → (renew now w c).type ≡ w.type
unfolding renew
type-renew now w c e = ground arith

pub get-set_from :
    (now : ℕ) (w : Condition) (t : String) (cs : List Condition)
    → get t (set_from now w cs)
      ≡ (if w.type == t then some (renewed now w (get w.type cs)) else get t cs)
unfolding set_from
get-set_from now w t [] = refl
get-set_from now w t (c ∷ cs) = ground (
  arith,
  get-set_from now w t cs,
  eq_iff c.type w.type,
  eq_iff w.type t,
  eq_iff c.type t,
  type-renew now w c,
)

pub renew-Agrees : (now : ℕ) (w c : Condition) → c.type ≡ w.type → Agrees (renew now w c) w
unfolding renew
renew-Agrees now w c e =
    ground (arith, eq_iff c.status w.status, eq_iff c.reason w.reason, eq_iff c.message w.message)

pub type-get : (t : String) (cs : List Condition) (c : Condition) → get t cs ≡ some c → c.type ≡ t
type-get t (d ∷ ds) c e = ground (arith, type-get t ds c, eq_iff d.type t)
type-get t [] c e = cc

pub renewed-Agrees :
    (now : ℕ) (w : Condition) (cs : List Condition) → Agrees (renewed now w (get w.type cs)) w
renewed-Agrees now w cs = from (get w.type cs) (type-get w.type cs)
  where
    from :
        (o : Option Condition)
        → ((c : Condition) → o ≡ some c → c.type ≡ w.type)
        → Agrees (renewed now w o) w
    from none h = record {
      type = refl;
      status = refl;
      reason = refl;
      message = refl;
      generation = refl;
    }
    from (some c) h = renew-Agrees now w c (h c refl)

-- A condition that is there already is left as it is, its time too.
pub set_from_present :
    (now : ℕ) (w c : Condition) (cs : List Condition)
    → get w.type cs ≡ some c
    → Agrees c w
    → set_from now w cs ≡ cs
unfolding set_from renew
set_from_present now w c (d ∷ ds) e a = ground (
  arith,
  set_from_present now w c ds,
  eq_iff d.type w.type,
  eq_iff d.status w.status,
  eq_iff d.reason w.reason,
  eq_iff d.message w.message,
)
set_from_present now w c [] e a = cc

-- The time of a condition is kept where its status is kept, and is the present one otherwise.
pub time-renew :
    (now : ℕ) (w c : Condition)
    → c.last_transition_time ≢ 0
    → (renew now w c).last_transition_time
      ≡ (if c.status == w.status then c.last_transition_time else now)
unfolding renew
time-renew now w c h = ground arith

pub condition_ready_of_get :
    (cs : List Condition) (c : Condition)
    → get ready_condition cs ≡ some c
    → c.status ≡ condition_true
    → condition_ready cs ≡ true
unfolding condition_ready any
condition_ready_of_get (d ∷ ds) c e s = ground (
  arith,
  condition_ready_of_get ds c,
  eq_iff d.type ready_condition,
  eq_iff d.status condition_true,
)
condition_ready_of_get [] c e s = cc
