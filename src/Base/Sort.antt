-- ===== src/Base/Sort.antt =====
-- sort.Strings and sort.Slice by a text key, as insertion sort. Equal texts cannot be told apart, so
-- every sort of texts has the same result.
pub mod Order
use Prim.Native.Char.{code}
use Prim.Native.String.{String}
use mathlib.Core.Bool.{Bool, true, false}
use mathlib.Core.List.{List, [], ◌∷◌}
use infisical_entity_operato.Base.Tests.{ltb, nat_eq, if◌then◌else◌}

-- The order of texts by code point, which is that of their UTF-8 bytes.
unfoldable pub str_le : String → String → Bool
str_le String.[] t = true
str_le (String.◌∷◌ c s) String.[] = false
str_le (String.◌∷◌ c s) (String.◌∷◌ d t) =
    let later = str_le s t in
    if ltb (code c) (code d) then true else if nat_eq (code c) (code d) then later else false

module _ {ℓ} {A : Type ℓ} (key : A → String) where
  unfoldable pub insert_by : A → List A → List A
  insert_by x [] = x ∷ []
  insert_by x (y ∷ ys) =
      let later = y ∷ insert_by x ys in if str_le (key x) (key y) then x ∷ y ∷ ys else later

  unfoldable pub sort_by : List A → List A
  unfolding insert_by
  sort_by [] = []
  sort_by (x ∷ xs) = insert_by x (sort_by xs)

unfoldable pub sort_strings : List String → List String
unfolding sort_by
sort_strings = sort_by (λ s. s)
