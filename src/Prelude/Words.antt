-- ===== src/Prelude/Words.antt =====
-- The 32-bit words of the target, `uint32_t`, `size_t` and pointers: numbers below 2 ^ 32.
use Prim.Native.Nat.{ℕ, ◌+◌, ◌-◌, ◌%◌, ◌^◌, ◌<◌, ◌≤◌}
use mathlib.Core.Path.{◌≡◌}
use native.Mathlib.Omega.{arith}

abbrev pub u32 : ℕ
u32 = 2 ^ 32

-- `a + b` and `a - b` on `uint32_t`.
abbrev pub add32 : ℕ → ℕ → ℕ
add32 a b = (a + b) % u32

abbrev pub sub32 : ℕ → ℕ → ℕ
sub32 a b = (a + u32 - b) % u32

pub add32-eq-add : (a b : ℕ) → a + b < u32 → add32 a b ≡ a + b
add32-eq-add a b h = omega arith

pub sub32-eq-sub : (a b : ℕ) → b ≤ a → a < u32 → sub32 a b ≡ a - b
sub32-eq-sub a b h k = omega arith
