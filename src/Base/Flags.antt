-- ===== src/Base/Flags.antt =====
-- Flags of header bytes: `b ? v : 0` in an `|` with operands that share no bit.
use Prim.Native.Nat.{ℕ, ◌*◌, ◌≤◌}
use mathlib.Core.Path.{◌≡◌, refl}
use mathlib.Core.Logic.{inl, inr}
use mathlib.Core.Bool.{Bool, not}
use native.Mathlib.Omega.{arith}
use cmidid_kerneldriver.Base.Tests.{◌==◌, if◌then◌else◌, Bool-cases}

-- `b ? v : 0`.
abbrev pub flag : ℕ → ℕ → ℕ
flag b v = if b == 0 then 0 else v

abbrev pub is_set : ℕ → Bool
is_set b = not (b == 0)

-- A flag is its weight times a bit.
pub flag-bit : (b v : ℕ) → (x : ℕ) × (x ≤ 1) × (flag b v ≡ v * x) × ((x == 1) ≡ is_set b)
flag-bit b v = elim (Bool-cases (b == 0)) [
  | inl e ↦ (0, omega arith, rw e (omega arith), rw e refl)
  | inr e ↦ (1, omega arith, rw e (omega arith), rw e refl)
]
