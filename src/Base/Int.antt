-- ===== src/Base/Int.antt =====
-- Signed numbers of the program: Go's `int`, `int32` and `time.Duration`, as far as the code tests
-- them. `negsuc n` is -(n + 1).
use Prim.Native.Nat.{ℕ, compare, Ordering}
use mathlib.Core.Bool.{Bool, true, false}

pub data ℤ : Type 0 where
  pos : ℕ → ℤ
  negsuc : ℕ → ℤ

-- `x <= 0`
abbrev pub is_nonpositive : ℤ → Bool
is_nonpositive (pos n) = elim (compare n 0) [ Ordering.eq ↦ true | _ ↦ false ]
is_nonpositive (negsuc n) = true

-- `x < 0`
abbrev pub is_negative : ℤ → Bool
is_negative (pos n) = false
is_negative (negsuc n) = true

-- `x == 0`
abbrev pub is_zero : ℤ → Bool
is_zero (pos n) = elim (compare n 0) [ Ordering.eq ↦ true | _ ↦ false ]
is_zero (negsuc n) = false

-- `x > n`
abbrev pub exceeds : ℤ → ℕ → Bool
exceeds (pos m) n = elim (compare m n) [ Ordering.gt ↦ true | _ ↦ false ]
exceeds (negsuc m) n = false
