-- ===== src/Json/Encode.antt =====
-- json.Marshal of a struct: its fields in order; with `omitempty` a zero value is left out.
use infisical_entity_operato.Base.{String, Option, none, some, List, [], ◌∷◌, ◌==◌, if◌then◌else◌}
use infisical_entity_operato.Json.Value.{Json, str, arr, Items, nil, cons, Fields, field}

unfoldable pub items {ℓ} : {A : Type ℓ} → (A → Json) → List A → Items
items encode [] = nil
items encode (x ∷ xs) = cons (encode x) (items encode xs)

-- A string field with `omitempty`
unfoldable pub omit_empty : String → String → Fields → Fields
omit_empty name s rest = if s == "" then rest else field name (str s) rest

-- A pointer field with `omitempty`
unfoldable pub omit_nil {ℓ} : {A : Type ℓ} → String → (A → Json) → Option A → Fields → Fields
omit_nil name encode none rest = rest
omit_nil name encode (some a) rest = field name (encode a) rest

-- A slice field with `omitempty`: a nil slice and an empty one are left out.
unfoldable pub omit_no_items {ℓ} :
    {A : Type ℓ} → String → (A → Json) → Option (List A) → Fields → Fields
unfolding items
omit_no_items name encode none rest = rest
omit_no_items name encode (some []) rest = rest
omit_no_items name encode (some (x ∷ xs)) rest = field name (arr (items encode (x ∷ xs))) rest
