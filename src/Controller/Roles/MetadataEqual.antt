-- ===== src/Controller/Roles/MetadataEqual.antt =====
-- When the metadata of an identity is the one that the specification asks for.
use infisical_entity_operato.Base.{
  suc, ◌+◌, ◌≤◌, String, ◌≡◌, ◌↔◌, refl, sym, ap, ◌∙◌, inl, inr, Bool, true, false, ◌&&◌, Option,
  none, some, Option-cases, List, [], ◌∷◌, ◌++◌, map, length, nat_eq, All, all, lookup, insert,
  lookup-insert, contains, ◌==◌, arith, eq_iff,
}
use infisical_entity_operato.Api.{IdentityMetadata}
use infisical_entity_operato.Client.Wire.Identities.{Metadata}
use infisical_entity_operato.Controller.Roles.{
  wanted_map, observed_map, value_at, identity_metadata_equal,
}
use infisical_entity_operato.Controller.Roles.Slugs.{Fresh}

module _ (k v : String) where
  insert-absent :
      (m : List (String × String)) → lookup k m ≡ none → insert k v m ≡ m ++ ((k, v) ∷ [])
  unfolding insert lookup
  insert-absent [] h = refl
  insert-absent (entry ∷ m) h = let rest = insert-absent m in ground (arith, rest, eq_iff entry.0 k)

  length-insert_absent :
      (m : List (String × String)) → lookup k m ≡ none → length (insert k v m) ≡ suc (length m)
  unfolding insert lookup
  length-insert_absent [] h = refl
  length-insert_absent (entry ∷ m) h =
      let rest = length-insert_absent m in ground (arith, rest, eq_iff entry.0 k)

  length-insert_present :
      (w : String) (m : List (String × String))
      → lookup k m ≡ some w
      → length (insert k v m) ≡ length m
  unfolding insert lookup
  length-insert_present w [] h = ground arith
  length-insert_present w (entry ∷ m) h =
      let rest = length-insert_present w m in ground (arith, rest, eq_iff entry.0 k)

snoc : {A : Type 0} (m : List A) (x : A) (xs : List A) → (m ++ (x ∷ [])) ++ xs ≡ m ++ (x ∷ xs)
snoc [] x xs = refl
snoc (y ∷ m) x xs = ap (λ l. y ∷ l) (snoc m x xs)

-- The map that a loop over items builds
module _ {A : Type 0} (key value : A → String) where
  abbrev map_of : List A → List (String × String) → List (String × String)
  map_of [] m = m
  map_of (item ∷ items) m = map_of items (insert (key item) (value item) m)

  abbrev entry_of : A → String × String
  entry_of item = (key item, value item)

  -- The keys of the map are the ones that were seen.
  abbrev Keys : List String → List (String × String) → Type 0
  Keys seen m = (k : String) → (lookup k m ≡ none) ↔ (contains k seen ≡ false)

  Keys-insert :
      (k v : String) (seen : List String) (m : List (String × String))
      → Keys seen m
      → Keys (k ∷ seen) (insert k v m)
  unfolding contains
  Keys-insert k v seen m h j =
      let at = lookup-insert k j v m in ground (arith, at, h j, eq_iff k j, eq_iff j k)

  length-map_of :
      (items : List A) (m : List (String × String))
      → length (map_of items m) ≤ length m + length items
  length-map_of [] m = ground arith
  length-map_of (item ∷ items) m =
      let rest = length-map_of items (insert (key item) (value item) m) in
      elim (Option-cases (lookup (key item) m)) [
        | inl absent ↦
            let is = length-insert_absent (key item) (value item) m absent in ground arith
        | inr (w, found) ↦
            let is = length-insert_present (key item) (value item) w m found in ground arith
      ]

  -- The map has an entry for each item exactly when no key is there twice.
  length-map_of_iff :
      (items : List A) (seen : List String) (m : List (String × String))
      → Keys seen m
      → (length (map_of items m) ≡ length m + length items) ↔ Fresh seen (map key items)
  length-map_of_iff [] seen m h = ground arith
  length-map_of_iff (item ∷ items) seen m h =
      let k = key item in
      let v = value item in
      elim (Option-cases (lookup k m)) [
        | inl absent ↦
            let is = length-insert_absent k v m absent in
            let rest =
              length-map_of_iff items (k ∷ seen) (insert k v m) (Keys-insert k v seen m h) in
            let new = (h k).0 absent in ground (arith, is, rest, new)
        | inr (w, found) ↦
            let is = length-insert_present k v w m found in
            let most = length-map_of items (insert k v m) in
            (
              λ same. absurd (ground (arith, is, most, same)),
              λ (new, _). let absent = (h k).1 new in absurd (ground (arith, absent, found)),
            )
      ]

  -- Then it has the entries of the items, in their order.
  map_of-Fresh :
      (items : List A) (seen : List String) (m : List (String × String))
      → Keys seen m
      → Fresh seen (map key items)
      → map_of items m ≡ m ++ map entry_of items
  map_of-Fresh [] seen m h fresh = sym (empty m)
    where
      empty : (m : List (String × String)) → m ++ [] ≡ m
      empty [] = refl
      empty (x ∷ m) = ap (λ l. x ∷ l) (empty m)
  map_of-Fresh (item ∷ items) seen m h (new, fresh) =
      let k = key item in
      let v = value item in
      map_of-Fresh items (k ∷ seen) (insert k v m) (Keys-insert k v seen m h) fresh
      ∙ ap (λ x. x ++ map entry_of items) (insert-absent k v m ((h k).1 new))
      ∙ snoc m (k, v) (map entry_of items)

  Keys-nil : Keys [] []
  unfolding lookup contains
  Keys-nil k = ground arith

  is_distinct_iff :
      (items : List A)
      → (nat_eq (length (map_of items [])) (length items) ≡ true) ↔ Fresh [] (map key items)
  is_distinct_iff items =
      let distinct = length-map_of_iff items [] [] Keys-nil in ground (arith, distinct)

  entries : (items : List A) → Fresh [] (map key items) → map_of items [] ≡ map entry_of items
  entries items = map_of-Fresh items [] [] Keys-nil

-- Of the items of a specification, where there are any: as many are there, no key is there twice on
-- either side, and each item is there with its value, where a missing key reads as the empty text.
abbrev pub MetadataAgrees : Option (List IdentityMetadata) → List Metadata → Type 0
MetadataAgrees none present = Unit
MetadataAgrees (some want) present =
    (length want ≡ length present)
    × Fresh [] (map (λ item. item.key) want)
    × Fresh [] (map (λ item. item.key) present)
    × All (λ item. value_at item.key (map (λ other. (other.key, other.value)) present) ≡ item.value)
        want

wanted_map-of :
    (items : List IdentityMetadata) (m : List (String × String))
    → wanted_map items m ≡ map_of (λ item. item.key) (λ item. item.value) items m
unfolding wanted_map
wanted_map-of [] m = refl
wanted_map-of (item ∷ items) m = wanted_map-of items (insert item.key item.value m)

observed_map-of :
    (items : List Metadata) (m : List (String × String))
    → observed_map items m ≡ map_of (λ item. item.key) (λ item. item.value) items m
unfolding observed_map
observed_map-of [] m = refl
observed_map-of (item ∷ items) m = observed_map-of items (insert item.key item.value m)

all-values :
    (observed : List (String × String)) (want : List IdentityMetadata)
    → (all
          (λ entry. value_at entry.0 observed == entry.1)
          (map (entry_of (λ item. item.key) (λ item. item.value)) want)
        ≡ true)
      ↔ All (λ item. value_at item.key observed ≡ item.value) want
unfolding all
all-values observed [] = ground arith
all-values observed (item ∷ want) =
    ground (arith, eq_iff (value_at item.key observed) item.value, all-values observed want)

all_four :
    (a b c d : Bool)
    → ((a && b && c && d) ≡ true) ↔ ((a ≡ true) × (b ≡ true) × (c ≡ true) × (d ≡ true))
all_four a b c d = ground arith

module _ (want : List IdentityMetadata) (present : List Metadata) where
  -- The maps that the loops of identityMetadataEqual leave
  abbrev wanted : List (String × String)
  wanted = map_of (λ item. item.key) (λ item. item.value) want []

  abbrev observed : List (String × String)
  observed = map_of (λ item. item.key) (λ item. item.value) present []

  values_iff :
      Fresh [] (map (λ item. item.key) want)
      → Fresh [] (map (λ item. item.key) present)
      → (all (λ entry. value_at entry.0 observed == entry.1) wanted ≡ true)
        ↔ All
            (λ item.
              value_at item.key (map (λ other. (other.key, other.value)) present) ≡ item.value)
            want
  values_iff fresh fresh' =
      rw (entries (λ item. item.key) (λ item. item.value) want fresh)
        (rw (entries (λ item. item.key) (λ item. item.value) present fresh') (all-values _ want))

  some_equal_iff :
      (identity_metadata_equal (some want) (some present) ≡ true)
      ↔ MetadataAgrees (some want) present
  unfolding identity_metadata_equal
  some_equal_iff =
      let distinct = is_distinct_iff (λ item. item.key) (λ item. item.value) want in
      let distinct' = is_distinct_iff (λ item. item.key) (λ item. item.value) present in
      let (split, join) =
        all_four (nat_eq (length want) (length present)) (nat_eq (length wanted) (length want))
          (nat_eq (length observed) (length present))
          (all (λ entry. value_at entry.0 observed == entry.1) wanted) in
      rw (wanted_map-of want []) (
        rw (observed_map-of present []) (
          (λ h.
              let (same, d, d', values) = split h in
              let fresh = distinct.0 d in
              let fresh' = distinct'.0 d' in
              (ground (arith, same), fresh, fresh', (values_iff fresh fresh').0 values)),
          (λ (same, fresh, fresh', values). join (
            ground (arith, same),
            distinct.1 fresh,
            distinct'.1 fresh',
            (values_iff fresh fresh').1 values,
          )),
        ))

abbrev pub items_there : Option (List Metadata) → List Metadata
items_there none = []
items_there (some items) = items

pub identity_metadata_equal_iff :
    (want : Option (List IdentityMetadata)) (current : Option (List Metadata))
    → (identity_metadata_equal want current ≡ true) ↔ MetadataAgrees want (items_there current)
unfolding identity_metadata_equal
identity_metadata_equal_iff none current = ground arith
identity_metadata_equal_iff (some want) none = some_equal_iff want []
identity_metadata_equal_iff (some want) (some present) = some_equal_iff want present
