-- ===== src/Json/Decode.antt =====
-- json.Decoder.Decode into a struct: a missing field and `null` leave the zero value, a value of
-- another kind is an error. Keys are matched exactly.
use infisical_entity_operato.Base.{
  ℕ, ◌^◌, ℤ, pos, negsuc, String, Bool, false, Option, none, some, List, [], ◌∷◌, ◌==◌, ltb,
  if◌then◌else◌,
}
use infisical_entity_operato.Result.{Result, ok, err, ◌>>=◌}
use infisical_entity_operato.Failure.{Error, plain}
use infisical_entity_operato.Json.Value.{
  Json, null, bool, num, str, arr, obj, Items, nil, cons, Fields, end, field,
}

abbrev pub wrong_kind : Error
wrong_kind = plain "json: cannot unmarshal value into Go struct field"

-- Of two fields with one name the later one counts.
unfoldable pub member : String → Fields → Option Json
member name end = none
member name (field key v rest) = elim (member name rest) [
  | some w ↦ some w
  | none ↦ if key == name then some v else none
]

unfoldable pub string_of : Option Json → Result Error String
string_of none = ok ""
string_of (some null) = ok ""
string_of (some (str s)) = ok s
string_of (some _) = err wrong_kind

unfoldable pub bool_of : Option Json → Result Error Bool
bool_of none = ok false
bool_of (some null) = ok false
bool_of (some (bool b)) = ok b
bool_of (some _) = err wrong_kind

-- An integer field of a width of `w + 1` bits
unfoldable pub int_of : ℕ → Option Json → Result Error ℤ
int_of w none = ok (pos 0)
int_of w (some null) = ok (pos 0)
int_of w (some (num (pos n))) = if ltb n (2 ^ w) then ok (pos n) else err wrong_kind
int_of w (some (num (negsuc n))) = if ltb n (2 ^ w) then ok (negsuc n) else err wrong_kind
int_of w (some _) = err wrong_kind

-- A *time.Time field, kept as its text; `valid` says what time.Time accepts.
unfoldable pub time_of : (String → Bool) → Option Json → Result Error (Option String)
time_of valid none = ok none
time_of valid (some null) = ok none
time_of valid (some (str s)) = if valid s then ok (some s) else err wrong_kind
time_of valid (some _) = err wrong_kind

module _ {A : Type 0} where
  unfoldable pub object_of : (Fields → Result Error A) → Option Json → Result Error A
  object_of decode none = decode end
  object_of decode (some null) = decode end
  object_of decode (some (obj fs)) = decode fs
  object_of decode (some _) = err wrong_kind

  decode_items : (Json → Result Error A) → Items → Result Error (List A)
  decode_items decode nil = ok []
  decode_items decode (cons v vs) = do x ← decode v; xs ← decode_items decode vs; ok (x ∷ xs)

  -- A slice field: `none` is the nil slice.
  unfoldable pub items_of : (Json → Result Error A) → Option Json → Result Error (Option (List A))
  unfolding decode_items
  items_of decode none = ok none
  items_of decode (some null) = ok none
  items_of decode (some (arr vs)) = do xs ← decode_items decode vs; ok (some xs)
  items_of decode (some _) = err wrong_kind

  abbrev pub of_nil : Option (List A) → List A
  of_nil none = []
  of_nil (some xs) = xs
