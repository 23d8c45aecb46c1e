-- ===== src/Prelude/Bytes.antt =====
-- Facts about all bytes, by evaluation.
use Prim.Native.Nat.{ℕ, zero, suc, ◌+◌, ◌*◌, ◌/◌, ◌%◌, ◌<◌, bit_xor}
use mathlib.Core.Path.{◌≡◌, refl}
use mathlib.Core.Bool.{Bool, true, ◌&&◌}
use native.Mathlib.Omega.{arith}
use limit_plane.Prelude.Tests.{◌==◌, ==→eq}

-- The test passes for every number below `n`.
unfoldable pub passes_below : ℕ → (ℕ → Bool) → Bool
passes_below zero p = true
passes_below (suc n) p = p n && passes_below n p

pub passes_at : (n : ℕ) (p : ℕ → Bool) (x : ℕ) → passes_below n p ≡ true → x < n → p x ≡ true
unfolding passes_below
passes_at zero p x h lt = absurd (omega arith)
passes_at (suc n) p x h lt = ground (arith, passes_at n p x)

xor_twice : ℕ → Bool
xor_twice x = bit_xor (bit_xor (x / 256) (x % 256)) (x % 256) == x / 256

xor_table : passes_below 65536 xor_twice ≡ true
unfolding passes_below xor_twice
xor_table = refl

pub xor_cancel : (a b : ℕ) → a < 256 → b < 256 → bit_xor (bit_xor a b) b ≡ a
xor_cancel a b ha hb =
    let x = a * 256 + b in
    let p = passes_at 65536 xor_twice x xor_table (omega arith) in
    let high : x / 256 ≡ a = omega arith in
    let low : x % 256 ≡ b = omega arith in
    rw (high, low) at
      (==→eq (bit_xor (bit_xor (x / 256) (x % 256)) (x % 256)) (x / 256) (unfold xor_twice in p))
