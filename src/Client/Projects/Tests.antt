-- ===== src/Client/Projects/Tests.antt =====
-- Instances of the theorems on the choice of a project.
use infisical_entity_operato.Base.{String, ◌≡◌, ◌≢◌, refl, ◌⊎◌, false, [], ◌∷◌, All, find_first}
use infisical_entity_operato.Client.Wire.{Project, no_project}
use infisical_entity_operato.Client.Projects.{pick_project}
use infisical_entity_operato.Client.Projects.Choice.{has_slug, pick_project-matches}
use infisical_entity_operato.Demo.{demo_platform, demo_client}

abbrev shop : String
shop = "shop"

abbrev named : Project
named = record no_project { id = "p-1"; name = "shop"; slug = "old" }

abbrev slugged : Project
slugged = record no_project { id = "p-2"; name = "other"; slug = "shop" }

pick_project-matches_example :
    ((shop ≢ "") × (slugged.slug ≡ "shop"))
    ⊎ ((slugged.name ≡ "shop") × All (λ q. has_slug "shop" q ≡ false) (named ∷ slugged ∷ []))
unfolding pick_project find_first
pick_project-matches_example =
    pick_project-matches demo_platform demo_client "shop" "shop" (named ∷ slugged ∷ []) slugged refl
