-- ===== src/Controller/KubernetesAuth/Csv/RoundTrip.antt =====
-- What is read back of a list of names is the sorted list.
use infisical_entity_operato.Base.{
  String, true, false, ◌≡◌, ◌≢◌, refl, ap, ◌∙◌, eq_iff, arith, List, [], ◌∷◌, All, Bool-cases, inl,
  inr, trim_space, is_blank, join, str_le, insert_by, sort_strings,
}
use infisical_entity_operato.Base.Strings.Trim.{
  has_text, lacks, trim_space-ne, has_text_of_trimmed, split-join, has_text-join,
}
use infisical_entity_operato.Controller.KubernetesAuth.Csv.{kept_parts, split_csv, join_csv}

-- A name that is not empty, has no space around it, and no comma
abbrev pub IsName : String → Type 0
IsName s = (trim_space s ≡ s) × (s ≢ "") × (lacks b',' s ≡ true)

module _ {ℓ} (P : String → Type ℓ) where
  All-insert : (x : String) (ys : List String) → P x → All P ys → All P (insert_by (λ s. s) x ys)
  unfolding insert_by
  All-insert x [] p h = (p, tt)
  All-insert x (y ∷ ys) p h = elim (Bool-cases (str_le x y)) [
    | inl le ↦ rw le (p, h)
    | inr gt ↦ rw gt (h.0, All-insert x ys p h.1)
  ]

  All-sort : (xs : List String) → All P xs → All P (sort_strings xs)
  unfolding sort_strings
  All-sort [] h = h
  All-sort (x ∷ xs) h = All-insert x (sort_strings xs) h.0 (All-sort xs h.1)

insert-ne : (x : String) (ys : List String) → insert_by (λ s. s) x ys ≢ []
unfolding insert_by
insert-ne x [] e = cc
insert-ne x (y ∷ ys) e = ground (arith, str_le x y)

kept_parts-names : (xs : List String) → All IsName xs → kept_parts xs ≡ xs
unfolding kept_parts
kept_parts-names [] h = refl
kept_parts-names (x ∷ xs) ((trimmed, ne, _), h) =
    ground (arith, eq_iff x "", kept_parts-names xs h, trimmed)

names-lacks : (xs : List String) → All IsName xs → All (λ t. lacks b',' t ≡ true) xs
names-lacks [] h = tt
names-lacks (x ∷ xs) (p, h) = (p.2, names-lacks xs h)

not_blank : (s : String) → has_text s ≡ true → is_blank s ≡ false
not_blank s h = ground (arith, eq_iff (trim_space s) "", trim_space-ne s h)

split-names : (xs : List String) → xs ≢ [] → All IsName xs → split_csv (join "," xs) ≡ xs
unfolding split_csv
split-names [] ne h = absurd (ne refl)
split-names (x ∷ xs) ne h =
    let text = has_text-join x xs (has_text_of_trimmed x h.0.0 h.0.1) in
    rw (not_blank (join "," (x ∷ xs)) text)
      (ap kept_parts (split-join x xs (names-lacks (x ∷ xs) h)) ∙ kept_parts-names (x ∷ xs) h)

-- The names of a list that is not empty are read back from the text that is sent, sorted, if each is not
-- empty, has no space around it and no comma.
pub split_csv-join_csv :
    (values : List String)
    → values ≢ []
    → All IsName values
    → split_csv (join_csv values) ≡ sort_strings values
unfolding join_csv
split_csv-join_csv [] ne h = absurd (ne refl)
split_csv-join_csv (x ∷ xs) ne h =
    split-names (sort_strings (x ∷ xs)) (sorted-ne x xs) (All-sort IsName (x ∷ xs) h)
  where
    sorted-ne : (x : String) (xs : List String) → sort_strings (x ∷ xs) ≢ []
    sorted-ne x xs = unfold sort_strings in insert-ne x (sort_strings xs)
