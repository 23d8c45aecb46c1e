-- ===== src/Prelude/Masks.antt =====
-- What a bit mask bounds: `x & m ≤ m`, from the digit recursion that `bit_and` stands for.
use Prim.Native.Nat.{ℕ, zero, suc, ◌/◌, ◌≤◌, min, bit_and, digits, bit_and-bitwise}
use native.Mathlib.Omega.{arith}

-- The recursion on digits, with its fuel.
abbrev mask_digits : ℕ → ℕ → ℕ → ℕ
mask_digits n a b = digits (λ b. zero) min n a b

mask_digits-le : (n a b : ℕ) → mask_digits n a b ≤ b
mask_digits-le zero a b = omega arith
mask_digits-le (suc n) zero b = omega arith
mask_digits-le (suc n) (suc a) b = omega (arith, mask_digits-le n (suc a / 2) (b / 2))

pub bit_and-le : (a b : ℕ) → bit_and a b ≤ b
bit_and-le a b = omega (arith, bit_and-bitwise a b, mask_digits-le a a b)
