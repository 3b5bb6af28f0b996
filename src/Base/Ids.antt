-- ===== src/Base/Ids.antt =====
-- Lists of numbers that name things, as the sets they stand for.
use go_toolbelt.Base.{
  ℕ, ◌+◌, ◌≡◌, refl, Bool, true, false, not, ◌&&◌, ◌||◌, ◌==◌, List, [], ◌∷◌, if◌then◌else◌, arith,
  Bool-cases, inl, inr, length, eq_of_test,
}

unfoldable pub has : List ℕ → ℕ → Bool
has [] i = false
has (j ∷ is) i = j == i || has is i

unfoldable pub without : List ℕ → ℕ → List ℕ
without [] i = []
without (j ∷ is) i = let rest = without is i in if j == i then rest else j ∷ rest

abbrev pub are_distinct : List ℕ → Bool
are_distinct [] = true
are_distinct (i ∷ is) = not (has is i) && are_distinct is

pub has-without : (is : List ℕ) (i k : ℕ) → has (without is i) k ≡ (has is k && not (i == k))
unfolding has without
has-without [] i k = refl
has-without (j ∷ is) i k = ground (arith, has-without is i k)

pub distinct-without :
    (is : List ℕ) (i : ℕ) → are_distinct is ≡ true → are_distinct (without is i) ≡ true
unfolding without
distinct-without [] i h = refl
distinct-without (j ∷ is) i h = ground (arith, distinct-without is i, has-without is i j)

pub without-absent : (is : List ℕ) (i : ℕ) → has is i ≡ false → without is i ≡ is
unfolding has without
without-absent [] i h = refl
without-absent (j ∷ is) i h = ground (arith, without-absent is i)

pub length-without :
    (is : List ℕ) (i : ℕ)
    → are_distinct is ≡ true
    → has is i ≡ true
    → length (without is i) + 1 ≡ length is
unfolding has without
length-without [] i d h = absurd cc
length-without (j ∷ is) i d h = elim (Bool-cases (j == i)) [
  | inl e ↦
      let same = eq_of_test j i e in
      let gone : without is i ≡ is = without-absent is i (ground (arith, same)) in
      ground (arith, gone)
  | inr e ↦ ground (arith, length-without is i)
]

pub none_left : (is : List ℕ) (i : ℕ) → length is ≡ 0 → has is i ≡ false
unfolding has
none_left [] i e = refl
none_left (j ∷ is) i e = absurd (omega arith)
