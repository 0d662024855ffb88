-- ===== src/Base/Maps.antt =====
-- Memory and arrays as functions of the address or index.
use Prim.Native.Nat.{ℕ}
use mathlib.Core.Path.{◌≡◌}
use mathlib.Core.Logic.{◌≢◌}
use native.Mathlib.Omega.{arith}
use cpp_toy.Base.Tests.{◌==◌, if◌then◌else◌}

abbrev pub put {ℓ} : {A : Type ℓ} → (ℕ → A) → ℕ → A → ℕ → A
put f i a j = if j == i then a else f j

module _ {ℓ} {A : Type ℓ} (f : ℕ → A) (a : A) where
  pub put_same : (i : ℕ) → put f i a i ≡ a
  put_same i = ground arith

  pub put_other : (i j : ℕ) → j ≢ i → put f i a j ≡ f j
  put_other i j ne = ground arith
