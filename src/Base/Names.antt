-- ===== src/Base/Names.antt =====
-- Sets of texts: the keys of a Go `map[string]struct{}`, or a slice searched by `slices.Contains`.
use Prim.Native.String.{String}
use mathlib.Core.Path.{◌≡◌, refl}
use mathlib.Core.Bool.{Bool, true, false, not, ◌&&◌, ◌||◌}
use mathlib.Core.List.{List, [], ◌∷◌}
use native.Mathlib.Omega.{arith}
use text.Mathlib.Text.{◌==◌ as str_eq}
use text.Mathlib.TextEquality.{eq_iff}
pub use text.Mathlib.Text.{◌==◌ as str_eq}
pub use text.Mathlib.TextEquality.{eq_iff}

unfoldable pub contains : List String → String → Bool
contains [] k = false
contains (x ∷ xs) k = str_eq x k || contains xs k

-- No text stands twice in the list.
unfoldable pub distinct : List String → Bool
unfolding contains
distinct [] = true
distinct (x ∷ xs) = not (contains xs x) && distinct xs

-- No text of the second list stands in the first.
unfoldable pub disjoint : List String → List String → Bool
unfolding contains
disjoint seen [] = true
disjoint seen (x ∷ xs) = not (contains seen x) && disjoint seen xs

pub disjoint-cons :
    (k : String) (seen xs : List String)
    → disjoint (k ∷ seen) xs ≡ (not (contains xs k) && disjoint seen xs)
unfolding disjoint contains
disjoint-cons k seen [] = refl
disjoint-cons k seen (x ∷ xs) = ground (arith, disjoint-cons k seen xs, eq_iff k x, eq_iff x k)

pub disjoint-nil : (xs : List String) → disjoint [] xs ≡ true
unfolding disjoint contains
disjoint-nil [] = refl
disjoint-nil (x ∷ xs) = disjoint-nil xs
