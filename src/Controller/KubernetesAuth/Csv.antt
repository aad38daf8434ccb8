-- ===== src/Controller/KubernetesAuth/Csv.antt =====
-- infisicalkubernetesauth_controller.go: lists of names as one text with commas.
pub mod RoundTrip
use infisical_entity_operato.Base.{
  String, List, [], ◌∷◌, is_blank, trim_space, split, join, sort_strings, ◌==◌, if◌then◌else◌,
}

-- The loop of splitCSV: parts without the space around them, and no empty ones
unfoldable pub kept_parts : List String → List String
kept_parts [] = []
kept_parts (part ∷ parts) =
    let part' = trim_space part in
    let rest = kept_parts parts in if part' == "" then rest else part' ∷ rest

unfoldable pub split_csv : String → List String
unfolding kept_parts
split_csv value = if is_blank value then [] else kept_parts (split b',' value)

unfoldable pub sorted_strings : List String → List String
sorted_strings values = sort_strings values

unfoldable pub join_csv : List String → String
unfolding sorted_strings
join_csv values = join "," (sorted_strings values)
