-- ===== src/Controller/Optional.antt =====
-- Comparisons of settings that a specification may leave out: optionalInt64Diff and optionalBoolDiff of
-- infisicaluniversalauth_controller.go, and reflect.DeepEqual on lists of addresses.
use infisical_entity_operato.Base.{
  ℤ, ◌≡◌, ◌↔◌, arith, String, Bool, true, false, not, Option, none, some, List, int_eq, int_eq_iff,
  bool_eq,
}
use infisical_entity_operato.Controller.Roles.{equal_texts}
use infisical_entity_operato.Controller.Roles.Agreement.{equal_texts_iff}

unfoldable pub optional_int64_diff : Option ℤ → ℤ → Bool
optional_int64_diff none current = false
optional_int64_diff (some desired) current = not (int_eq desired current)

unfoldable pub optional_bool_diff : Option Bool → Bool → Bool
optional_bool_diff none current = false
optional_bool_diff (some desired) current = not (bool_eq desired current)

-- `desired != nil && !reflect.DeepEqual(desired, current)`: a nil list is not an empty one.
unfoldable pub optional_list_diff : Option (List String) → Option (List String) → Bool
unfolding equal_texts
optional_list_diff none current = false
optional_list_diff (some desired) none = true
optional_list_diff (some desired) (some current) = not (equal_texts desired current)

-- A setting that is left out is met by every value.
abbrev pub Met {ℓ} : {A : Type ℓ} → Option A → A → Type ℓ
Met none current = Unit
Met (some desired) current = current ≡ desired

pub optional_int64_diff_iff :
    (desired : Option ℤ) (current : ℤ)
    → (optional_int64_diff desired current ≡ false) ↔ Met desired current
unfolding optional_int64_diff
optional_int64_diff_iff none current = ground arith
optional_int64_diff_iff (some desired) current = ground (arith, int_eq_iff desired current)

pub optional_bool_diff_iff :
    (desired : Option Bool) (current : Bool)
    → (optional_bool_diff desired current ≡ false) ↔ Met desired current
unfolding optional_bool_diff
optional_bool_diff_iff none current = ground arith
optional_bool_diff_iff (some desired) current = ground arith

-- A list that is asked for is there.
abbrev pub MetList : Option (List String) → Option (List String) → Type 0
MetList none current = Unit
MetList (some desired) current = current ≡ some desired

pub optional_list_diff_iff :
    (desired current : Option (List String))
    → (optional_list_diff desired current ≡ false) ↔ MetList desired current
unfolding optional_list_diff
optional_list_diff_iff none current = ground arith
optional_list_diff_iff (some desired) none = ground arith
optional_list_diff_iff (some desired) (some current) =
    ground (arith, equal_texts_iff desired current)
