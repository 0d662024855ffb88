-- ===== src/Base/Words.antt =====
-- `size_t`: 64-bit unsigned arithmetic with its wrap-around.
use Prim.Native.Nat.{ℕ, ◌+◌, ◌-◌, ◌*◌, ◌%◌, ◌^◌, ◌≤◌, ◌<◌}
use mathlib.Core.Path.{◌≡◌}
use native.Mathlib.Omega.{arith}

abbrev pub size_mod : ℕ
size_mod = 2 ^ 64

unfoldable pub add_size : ℕ → ℕ → ℕ
add_size a b = (a + b) % size_mod

-- `-` on ℕ stops at 0, so the modulus comes first.
unfoldable pub sub_size : ℕ → ℕ → ℕ
sub_size a b = (a + size_mod - b) % size_mod

unfoldable pub mul_size : ℕ → ℕ → ℕ
mul_size a b = (a * b) % size_mod

pub add_size_exact : (a b : ℕ) → a + b < size_mod → add_size a b ≡ a + b
unfolding add_size
add_size_exact a b h = omega arith

pub sub_size_exact : (a b : ℕ) → b ≤ a → a < size_mod → sub_size a b ≡ a - b
unfolding sub_size
sub_size_exact a b h k = omega arith

pub sub_size_wraps : (a b : ℕ) → a < b → b < size_mod → sub_size a b ≡ size_mod - (b - a)
unfolding sub_size
sub_size_wraps a b h k = omega arith

pub mul_size_exact : (a b : ℕ) → a * b < size_mod → mul_size a b ≡ a * b
unfolding mul_size
mul_size_exact a b h = omega arith
