-- ===== src/Base/Bits.antt =====
-- Bit operations on bytes as arithmetic: each law is a table of at most 256 entries, checked by
-- evaluation.
use Prim.Native.Nat.{ℕ, zero, suc, ◌+◌, ◌*◌, ◌/◌, ◌%◌, ◌<◌, bit_and, bit_or}
use mathlib.Core.Path.{◌≡◌, refl}
use mathlib.Core.Bool.{Bool, true, false}
use mathlib.Core.Logic.{ite}
use native.Mathlib.Decide.{ℕ_discrete}
use native.Mathlib.Omega.{arith}

module _ (f g : ℕ → ℕ) where
  agree_below : ℕ → Bool
  unfolding ℕ_discrete
  agree_below zero = true
  agree_below (suc n) = ite (ℕ_discrete (f n) (g n)) (agree_below n) false

  agree_below→eq : (n : ℕ) → agree_below n ≡ true → (i : ℕ) → i < n → f i ≡ g i
  unfolding agree_below
  agree_below→eq zero e i h = absurd (omega arith)
  agree_below→eq (suc n) e i h = ground (arith, agree_below→eq n (ground arith) i)

-- The mask of the high nibble.
pub bit_and_high : (b : ℕ) → b < 256 → bit_and b 0xf0 ≡ b / 16 * 16
unfolding agree_below
bit_and_high = agree_below→eq (λ b. bit_and b 0xf0) (λ b. b / 16 * 16) 256 refl

or_nibbles : (b : ℕ) → b < 256 → bit_or (b / 16 * 16) (b % 16) ≡ b
unfolding agree_below
or_nibbles = agree_below→eq (λ b. bit_or (b / 16 * 16) (b % 16)) (λ b. b) 256 refl

-- A high and a low nibble.
pub bit_or_nibbles : (h l : ℕ) → h < 16 → l < 16 → bit_or (h * 16) l ≡ h * 16 + l
bit_or_nibbles h l hh hl =
    let e : (h * 16 + l) / 16 ≡ h = omega arith in
    let f : (h * 16 + l) % 16 ≡ l = omega arith in
    rw e at (rw f at (or_nibbles (h * 16 + l) (omega arith)))

-- The continuation bit over seven bits.
pub bit_or_top : (b : ℕ) → b < 128 → bit_or 0x80 b ≡ 128 + b
unfolding agree_below
bit_or_top = agree_below→eq (λ b. bit_or 0x80 b) (λ b. 128 + b) 128 refl

pub bit_or_zero : (b : ℕ) → b < 256 → bit_or 0 b ≡ b
unfolding agree_below
bit_or_zero = agree_below→eq (λ b. bit_or 0 b) (λ b. b) 256 refl

-- The masks of the low bits, as tests.
pub and_low_nibble : (b : ℕ) → b < 256 → bit_and b 0x0f ≡ b % 16
unfolding agree_below
and_low_nibble = agree_below→eq (λ b. bit_and b 0x0f) (λ b. b % 16) 256 refl

pub and_low_seven : (b : ℕ) → b < 256 → bit_and b 0x7f ≡ b % 128
unfolding agree_below
and_low_seven = agree_below→eq (λ b. bit_and b 0x7f) (λ b. b % 128) 256 refl
