-- ===== src/Base/Decide.antt =====
-- Decidable equality of texts, for the comparisons of whole objects.
use Prim.Native.String.{String}
use mathlib.Core.Path.{◌≡◌, refl}
use mathlib.Core.Bool.{Bool, true, false}
use text.Mathlib.Text.{◌==◌}
use text.Mathlib.TextEquality.{eq_iff}

decide_by_test : (s t : String) (b : Bool) → (s == t) ≡ b → Dec (s ≡ t)
decide_by_test s t true e = yes ((eq_iff s t).0 e)
decide_by_test s t false e = no (λ p. cc (e, (eq_iff s t).1 p))

unfoldable pub string_discrete : Discrete String
unfolding decide_by_test
string_discrete s t = decide_by_test s t (s == t) refl
