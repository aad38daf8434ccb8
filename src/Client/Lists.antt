-- ===== src/Client/Lists.antt =====
-- Responses that hold a list, and the checks of their items.
use infisical_entity_operato.Base.{String, true, List, [], ◌∷◌}
use infisical_entity_operato.Result.{Result, ok, err}
use infisical_entity_operato.Failure.{Error}
use infisical_entity_operato.Json.{Json, of_nil, items_of, member}
use infisical_entity_operato.Client.Http.{Target}

-- A target that takes its value from a list field of the response object
unfoldable pub inside_list : {A : Type 0} → String → (Json → Result Error A) → Target (List A)
inside_list name decode = record {
  wanted = true;
  zero = [];
  decode = λ fs. elim (items_of decode (member name fs)) [
    | ok items ↦ ok (of_nil items)
    | err e ↦ err e
  ];
}

-- The loop that validates each item of a list
unfoldable pub validate_each : {A : Type 0} → (A → Result Error A) → List A → Result Error (List A)
validate_each validate [] = ok []
validate_each validate (x ∷ xs) =
    let rest = validate_each validate xs in
    elim (validate x) [ ok y ↦ elim rest [ ok ys ↦ ok (y ∷ ys) | err e ↦ err e ] | err e ↦ err e ]

-- A raw JSON value of a list
abbrev pub raw : Json → Result Error Json
raw v = ok v
