-- ===== src/Base/Strings/Trim.antt =====
-- strings.TrimSpace, strings.Split and strings.Join: what they keep, and that splitting undoes joining.
use Prim.Native.Nat.{ℕ}
use Prim.Native.Char.{Char, code}
use Prim.Native.String
use Prim.Native.String.{String}
use mathlib.Core.Path.{◌≡◌, refl, ap, ◌∙◌}
use mathlib.Core.Logic.{◌≢◌, ◌⊎◌, inl, inr}
use mathlib.Core.Bool.{Bool, true, false, not, ◌||◌}
use mathlib.Core.List.{List, [], ◌∷◌}
use text.Mathlib.TextLemmas.{nil-append, cons-append}
use infisical_entity_operato.Base.Tests.{nat_eq, if◌then◌else◌, Bool-cases}
use infisical_entity_operato.Base.Lists.{All}
use infisical_entity_operato.Base.Strings.{
  is_space, trim_left_space, trim_right_space, trim_space, keep_last, split, join, onto_first,
}

-- Some character is no space.
unfoldable pub has_text : String → Bool
has_text String.[] = false
has_text (String.◌∷◌ c s) = not (is_space (code c)) || has_text s

-- No character is the one given.
unfoldable pub lacks : ℕ → String → Bool
lacks sep String.[] = true
lacks sep (String.◌∷◌ c s) = let rest = lacks sep s in if nat_eq (code c) sep then false else rest

has_text-trim_left : (s : String) → has_text s ≡ true → has_text (trim_left_space s) ≡ true
unfolding has_text trim_left_space
has_text-trim_left String.[] h = h
has_text-trim_left (String.◌∷◌ c s) h = elim (Bool-cases (is_space (code c))) [
  | inl space ↦ rw space (has_text-trim_left s (rw space at h))
  | inr text ↦ rw text (rw text refl)
]

keep_last-ne : (b : Bool) (c : Char) (s : String) → (b ≡ false) ⊎ (s ≢ "") → keep_last b c s ≢ ""
keep_last-ne true c String.[] (inl h) e = cc
keep_last-ne true c String.[] (inr h) e = h refl
keep_last-ne true c (String.◌∷◌ d s) h e = cc
keep_last-ne false c s h e = cc

trim_right-ne : (s : String) → has_text s ≡ true → trim_right_space s ≢ ""
unfolding has_text trim_right_space
trim_right-ne String.[] h = absurd (cc)
trim_right-ne (String.◌∷◌ c s) h = elim (Bool-cases (is_space (code c))) [
  | inl space ↦ keep_last-ne _ c _ (inr (trim_right-ne s (rw space at h)))
  | inr text ↦ keep_last-ne _ c _ (inl text)
]

-- A text with some character that is no space is not blank.
pub trim_space-ne : (s : String) → has_text s ≡ true → trim_space s ≢ ""
unfolding trim_space
trim_space-ne s h = trim_right-ne (trim_left_space s) (has_text-trim_left s h)

trim_left-blank : (s : String) → has_text s ≡ false → trim_left_space s ≡ ""
unfolding has_text trim_left_space
trim_left-blank String.[] h = refl
trim_left-blank (String.◌∷◌ c s) h = elim (Bool-cases (is_space (code c))) [
  | inl space ↦ rw space (trim_left-blank s (rw space at h))
  | inr text ↦ absurd (let h' = rw text at h in cc)
]

-- A text that is not empty and has no space around it has some character that is no space.
pub has_text_of_trimmed : (s : String) → trim_space s ≡ s → s ≢ "" → has_text s ≡ true
unfolding trim_space trim_right_space
has_text_of_trimmed s trimmed ne = elim (Bool-cases (has_text s)) [
  | inl h ↦ h
  | inr h ↦ absurd (ne (let blank = trim_left-blank s h in cc))
]

pub has_text-append : (s t : String) → has_text s ≡ true → has_text (String.◌++◌ s t) ≡ true
unfolding has_text
has_text-append String.[] t h = absurd (cc)
has_text-append (String.◌∷◌ c s) t h =
    rw (cons-append c s t) (elim (Bool-cases (is_space (code c))) [
      | inl space ↦ rw space (has_text-append s t (rw space at h))
      | inr text ↦ rw text refl
    ])

split-lacks : (sep : ℕ) (s : String) → lacks sep s ≡ true → split sep s ≡ s ∷ []
unfolding lacks split
split-lacks sep String.[] h = refl
split-lacks sep (String.◌∷◌ c s) h = elim (Bool-cases (nat_eq (code c) sep)) [
  | inl same ↦ absurd (let h' = rw same at h in cc)
  | inr other ↦ rw other (ap (onto_first c) (split-lacks sep s (rw other at h)))
]

split-append :
    (sep : ℕ) (d : Char) (s t : String)
    → nat_eq (code d) sep ≡ true
    → lacks sep s ≡ true
    → split sep (String.◌++◌ s (String.◌∷◌ d t)) ≡ s ∷ split sep t
unfolding lacks split
split-append sep d String.[] t is h = rw (nil-append (String.◌∷◌ d t)) (rw is refl)
split-append sep d (String.◌∷◌ c s) t is h =
    rw (cons-append c s (String.◌∷◌ d t)) (elim (Bool-cases (nat_eq (code c) sep)) [
      | inl same ↦ absurd (let h' = rw same at h in cc)
      | inr other ↦ rw other (ap (onto_first c) (split-append sep d s t is (rw other at h)))
    ])

comma-append : (t : String) → String.◌++◌ "," t ≡ String.◌∷◌ "," t
comma-append t = cons-append "," "" t ∙ ap (λ u. String.◌∷◌ "," u) (nil-append t)

-- Splitting at commas undoes joining with commas, for one text or more, none of them with a comma.
pub split-join :
    (s : String) (rest : List String)
    → All (λ t. lacks b',' t ≡ true) (s ∷ rest)
    → split b',' (join "," (s ∷ rest)) ≡ s ∷ rest
unfolding join
split-join s [] h = split-lacks b',' s h.0
split-join s (t ∷ rest) h =
    ap (λ u. split b',' (String.◌++◌ s u)) (comma-append (join "," (t ∷ rest)))
    ∙ split-append b',' "," s (join "," (t ∷ rest)) refl h.0
    ∙ ap (λ parts. s ∷ parts) (split-join t rest h.1)

pub has_text-join :
    (s : String) (rest : List String) → has_text s ≡ true → has_text (join "," (s ∷ rest)) ≡ true
unfolding join
has_text-join s [] h = h
has_text-join s (t ∷ rest) h = has_text-append s _ h
