-- ===== src/Prelude/Integers.antt =====
-- Signed numbers over the native ones, for the signed fields of the structs of the C library.
use Prim.Native.Nat.{ℕ, suc, ◌+◌, ◌-◌}
use mathlib.Core.Path.{◌≡◌, ap}
use mathlib.Core.Bool.{Bool}
use native.Mathlib.Omega.{arith}
use yammer.Prelude.Tests.{ltb, leb, if◌then◌else◌}

pub data ℤ : Type 0 where
  pos negsuc : ℕ → ℤ

-- A number is the difference of its credit and its debt, of which one is 0.
abbrev pub credit : ℤ → ℕ
credit (pos n) = n
credit (negsuc n) = 0

abbrev pub debt : ℤ → ℕ
debt (pos n) = 0
debt (negsuc n) = suc n

abbrev pub difference : ℕ → ℕ → ℤ
difference m n = if leb n m then pos (m - n) else negsuc (n - m - 1)

infixl 65 ◌+ℤ◌ ◌-ℤ◌
unfoldable pub ◌+ℤ◌ : ℤ → ℤ → ℤ
x +ℤ y = difference (credit x + credit y) (debt x + debt y)

unfoldable pub ◌-ℤ◌ : ℤ → ℤ → ℤ
x -ℤ y = difference (credit x + debt y) (debt x + credit y)

-- x < y
abbrev pub less : ℤ → ℤ → Bool
less x y = ltb (credit x + debt y) (credit y + debt x)

pub +ℤ_credit :
    (x y : ℤ) → credit (x +ℤ y) + (debt x + debt y) ≡ debt (x +ℤ y) + (credit x + credit y)
unfolding ◌+ℤ◌
+ℤ_credit x y = ground arith

pub -ℤ_credit :
    (x y : ℤ) → credit (x -ℤ y) + (debt x + credit y) ≡ debt (x -ℤ y) + (credit x + debt y)
unfolding ◌-ℤ◌
-ℤ_credit x y = ground arith

pub ℤ-ext : (x y : ℤ) → credit x + debt y ≡ credit y + debt x → x ≡ y
ℤ-ext (pos m) (pos n) h = ap pos (omega arith)
ℤ-ext (pos m) (negsuc n) h = absurd (omega arith)
ℤ-ext (negsuc m) (pos n) h = absurd (omega arith)
ℤ-ext (negsuc m) (negsuc n) h = ap negsuc (omega arith)
