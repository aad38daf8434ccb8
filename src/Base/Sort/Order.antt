-- ===== src/Base/Sort/Order.antt =====
-- The order of texts is total, and sorting depends only on which texts there are.
use Prim.Native.Char.{code}
use Prim.Native.String.{String}
use mathlib.Core.Path.{◌≡◌, refl, ◌∙◌}
use mathlib.Core.Bool.{Bool, true, false}
use mathlib.Core.List.{List, [], ◌∷◌, Permᴰ}
use text.Mathlib.TextEquality.{Char-path}
use mathlib.Core.List.Permᴰ
use native.Mathlib.Omega.{arith}
use infisical_entity_operato.Base.Tests.{if◌then◌else◌}
use infisical_entity_operato.Base.Sort.{str_le, insert_by, sort_strings}

str_le-total : (s t : String) → str_le s t ≡ false → str_le t s ≡ true
unfolding str_le
str_le-total String.[] t h = ground arith
str_le-total (String.◌∷◌ c s) String.[] h = refl
str_le-total (String.◌∷◌ c s) (String.◌∷◌ d t) h = ground (arith, str_le-total s t)

str_le_trans : (s t u : String) → str_le s t ≡ true → str_le t u ≡ true → str_le s u ≡ true
unfolding str_le
str_le_trans String.[] t u h k = refl
str_le_trans (String.◌∷◌ c s) String.[] u h k = ground arith
str_le_trans (String.◌∷◌ c s) (String.◌∷◌ d t) String.[] h k = ground arith
str_le_trans (String.◌∷◌ c s) (String.◌∷◌ d t) (String.◌∷◌ e u) h k =
    ground (arith, str_le_trans s t u)

str_le-antisym : (s t : String) → str_le s t ≡ true → str_le t s ≡ true → s ≡ t
unfolding str_le
str_le-antisym String.[] String.[] h k = refl
str_le-antisym String.[] (String.◌∷◌ d t) h k = ground arith
str_le-antisym (String.◌∷◌ c s) String.[] h k = ground arith
str_le-antisym (String.◌∷◌ c s) (String.◌∷◌ d t) h k =
    let codes : code c ≡ code d = ground arith in
    let rest : s ≡ t = ground (arith, str_le-antisym s t) in cc (Char-path c d codes, rest)

insert_comm :
    (a b : String) (l : List String)
    → insert_by (λ s. s) a (insert_by (λ s. s) b l) ≡ insert_by (λ s. s) b (insert_by (λ s. s) a l)
unfolding insert_by
insert_comm a b [] = ground (arith, str_le-total a b, str_le-antisym a b)
insert_comm a b (y ∷ ys) = ground (
  arith,
  str_le-total a b,
  str_le-antisym a b,
  str_le_trans a b y,
  str_le_trans b a y,
  insert_comm a b ys,
)

if-Permᴰ :
    {xs ys zs : List String} (b : Bool)
    → Permᴰ xs zs
    → Permᴰ ys zs
    → Permᴰ (if b then xs else ys) zs
if-Permᴰ true p q = p
if-Permᴰ false p q = q

insert-Permᴰ : (a : String) (l : List String) → Permᴰ (insert_by (λ s. s) a l) (a ∷ l)
unfolding insert_by
insert-Permᴰ a [] = Permᴰ.refl (a ∷ [])
insert-Permᴰ a (y ∷ ys) =
    let later = Permᴰ.trans (Permᴰ.cons refl (insert-Permᴰ a ys)) (Permᴰ.swap refl refl) in
    if-Permᴰ (str_le a y) (Permᴰ.refl (a ∷ y ∷ ys)) later

-- The sorted list holds the same texts.
pub sort_strings-Permᴰ : (xs : List String) → Permᴰ (sort_strings xs) xs
unfolding sort_strings
sort_strings-Permᴰ [] = Permᴰ.nil
sort_strings-Permᴰ (x ∷ xs) =
    Permᴰ.trans (insert-Permᴰ x (sort_strings xs)) (Permᴰ.cons refl (sort_strings-Permᴰ xs))

-- Lists of the same texts are sorted to the same list.
pub sort_strings_Permᴰ : (xs ys : List String) → Permᴰ xs ys → sort_strings xs ≡ sort_strings ys
unfolding sort_strings
sort_strings_Permᴰ xs ys Permᴰ.nil = refl
sort_strings_Permᴰ xs ys (Permᴰ.cons {a} {b} {l₁} {l₂} e p) = cc (e, sort_strings_Permᴰ l₁ l₂ p)
sort_strings_Permᴰ xs ys (Permᴰ.swap {a} {b} {a'} {b'} {l} e f) =
    cc (e, f, insert_comm a b (sort_strings l))
sort_strings_Permᴰ xs ys (Permᴰ.trans {l₁} {l₂} {l₃} p q) =
    sort_strings_Permᴰ l₁ l₂ p ∙ sort_strings_Permᴰ l₂ l₃ q
