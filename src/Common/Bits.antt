-- ===== src/Common/Bits.antt =====
-- The bit operations at variables: when a join is zero, and when a difference is. Both go by the
-- recursion on the binary digits that the operations stand for; its first argument is a count of
-- digits that are enough for the first number.
use Prim.Native.Nat.{
  ℕ, zero, suc, ◌/◌, ◌%◌, ◌≤◌, max, bit_or, bit_xor, bit_or-bitwise, bit_xor-bitwise, digits,
  differ,
}
use mathlib.Core.Path.{◌≡◌}
use mathlib.Core.Logic.{◌↔◌}
use native.Mathlib.Omega.{arith}
use native.Mathlib.Nat.{le_refl}

join-eq-zero : (n a b : ℕ) → a ≤ n → (digits (λ y. y) max n a b ≡ 0) ↔ ((a ≡ 0) × (b ≡ 0))
join-eq-zero zero zero b h = ground arith
join-eq-zero zero (suc a) b h = absurd (omega arith)
join-eq-zero (suc n) zero b h = ground arith
join-eq-zero (suc n) (suc a) b h = ground (arith, join-eq-zero n (suc a / 2) (b / 2) (omega arith))

differ-eq-zero : (x y : ℕ) → (differ x y ≡ 0) ↔ (x ≡ y)
differ-eq-zero zero y = ground arith
differ-eq-zero (suc x) zero = ground arith
differ-eq-zero (suc x) (suc y) = ground (arith, differ-eq-zero x y)

xor-eq-zero : (n a b : ℕ) → a ≤ n → (digits (λ y. y) differ n a b ≡ 0) ↔ (a ≡ b)
xor-eq-zero zero zero b h = ground arith
xor-eq-zero zero (suc a) b h = absurd (omega arith)
xor-eq-zero (suc n) zero b h = ground arith
xor-eq-zero (suc n) (suc a) b h =
    ground
      (arith, xor-eq-zero n (suc a / 2) (b / 2) (omega arith), differ-eq-zero (suc a % 2) (b % 2))

-- A join is zero exactly when both numbers are.
pub bit_or-eq-zero : (a b : ℕ) → (bit_or a b ≡ 0) ↔ ((a ≡ 0) × (b ≡ 0))
bit_or-eq-zero a b = rw bit_or-bitwise (join-eq-zero a a b (le_refl a))

-- An exclusive or is zero exactly when the numbers are equal.
pub bit_xor-eq-zero : (a b : ℕ) → (bit_xor a b ≡ 0) ↔ (a ≡ b)
bit_xor-eq-zero a b = rw bit_xor-bitwise (xor-eq-zero a a b (le_refl a))
