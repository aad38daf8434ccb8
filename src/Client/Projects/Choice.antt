-- ===== src/Client/Projects/Choice.antt =====
-- Which project of a list FindProject takes.
use infisical_entity_operato.Base.{
  String, ◌≡◌, ◌≢◌, ◌↔◌, ◌⊎◌, Bool, true, false, not, ◌&&◌, none, some, List, [], ◌∷◌, ◌==◌,
  find_first, All, arith, eq_iff,
}
use infisical_entity_operato.Platform.{Platform}
use infisical_entity_operato.Client.Http.{Client}
use infisical_entity_operato.Client.Wire.{Project}
use infisical_entity_operato.Client.Projects.{pick_project}

module _ {A : Type 0} (p : A → Bool) where
  find_first-passes : (xs : List A) (x : A) → find_first p xs ≡ some x → p x ≡ true
  unfolding find_first
  find_first-passes [] x h = ground arith
  find_first-passes (y ∷ ys) x h = ground (arith, find_first-passes ys x)

  find_first-none : (xs : List A) → (find_first p xs ≡ none) ↔ All (λ x. p x ≡ false) xs
  unfolding find_first
  find_first-none [] = ground arith
  find_first-none (y ∷ ys) = ground (arith, find_first-none ys)

-- The project has the slug that is asked for.
abbrev pub has_slug : (slug : String) → Project → Bool
has_slug slug p = not (slug == "") && p.slug == slug

has_slug_lem :
    (slug : String) (p : Project) → (has_slug slug p ≡ true) → (slug ≢ "") × (p.slug ≡ slug)
has_slug_lem slug p = ground (arith, eq_iff slug "", eq_iff p.slug slug)

-- The project that is taken from a list has the slug that is asked for; or it has the name, and
-- no project of the list has the slug.
pub pick_project-matches :
    (platform : Platform) (c : Client) (name slug : String) (projects : List Project) (p : Project)
    → pick_project platform c name slug projects ≡ some p
    → ((slug ≢ "") × (p.slug ≡ slug))
      ⊎ ((p.name ≡ name) × All (λ q. has_slug slug q ≡ false) projects)
unfolding pick_project
pick_project-matches platform c name slug projects p h = ground (
  arith,
  has_slug_lem slug p,
  eq_iff p.name name,
  find_first-passes (has_slug slug) projects p,
  find_first-none (has_slug slug) projects,
  find_first-passes (λ q. q.name == name) projects p,
)

-- No project is taken exactly when none has the name and none has the slug.
pub pick_project-none :
    (platform : Platform) (c : Client) (name slug : String) (projects : List Project)
    → (pick_project platform c name slug projects ≡ none)
      ↔ (All (λ q. has_slug slug q ≡ false) projects × All (λ q. (q.name == name) ≡ false) projects)
unfolding pick_project
pick_project-none platform c name slug projects = ground (
  arith,
  find_first-none (has_slug slug) projects,
  find_first-none (λ q. q.name == name) projects,
)
