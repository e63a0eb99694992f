-- ===== src/Prelude/Arrays.antt =====
-- Arrays of a fixed length behind a raw pointer, as functions of the index.
use Prim.Native.Nat.{ℕ}
use mathlib.Core.Path.{◌≡◌}
use native.Mathlib.Omega.{arith}
use tele_path.Prelude.Tests.{◌==◌, if◌then◌else◌}

-- The array after the write `a[i] = v`.
abbrev pub store {ℓ} : {A : Type ℓ} → (ℕ → A) → ℕ → A → ℕ → A
store a i v j = if j == i then v else a j

pub store_self {ℓ} : {A : Type ℓ} (a : ℕ → A) (i : ℕ) (v : A) → store a i v i ≡ v
store_self a i v = ground arith
