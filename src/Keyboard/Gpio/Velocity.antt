-- ===== src/Keyboard/Gpio/Velocity.antt =====
-- Stroke time to velocity, `stime64_to_utime32` and `time_to_velocity` of module/cmidid_gpio.c, in
-- arithmetic modulo 2 ^ 32.
pub mod Curves
use cmidid_kerneldriver.Base.{
  ℕ, zero, suc, Option, none, some, ◌+◌, ◌-◌, ◌*◌, ◌/◌, ◌%◌, ◌^◌, leb, ltb, if◌then◌else◌, ◌==◌,
}
use cmidid_kerneldriver.Keyboard.Gpio.State.{
  GpioState, VelCurve, linear, concave, convex, saturated,
}

abbrev pub add32 : ℕ → ℕ → ℕ
add32 a b = (a + b) % 2 ^ 32

abbrev pub sub32 : ℕ → ℕ → ℕ
sub32 a b = (a + 2 ^ 32 - b) % 2 ^ 32

abbrev pub mul32 : ℕ → ℕ → ℕ
mul32 a b = a * b % 2 ^ 32

-- `none` is a division by zero.
abbrev pub div32 : ℕ → ℕ → Option ℕ
div32 a zero = none
div32 a (suc d) = some (a / suc d)

-- `ktime_sub(later, earlier).tv64`, as a 64-bit pattern.
abbrev pub ktime_sub : ℕ → ℕ → ℕ
ktime_sub later earlier = (later + 2 ^ 64 - earlier) % 2 ^ 64

-- `(uint32_t)(stime64 >> 10)` keeps bits 10 to 41 of the pattern, so the sign does not show.
unfoldable pub stime64_to_utime32 : ℕ → ℕ
stime64_to_utime32 stime64 = stime64 / 2 ^ 10 % 2 ^ 32

-- The returned `uint32_t` becomes an `unsigned char`.
abbrev pub to_uchar : Option ℕ → Option ℕ
to_uchar none = none
to_uchar (some v) = some (v % 2 ^ 8)

-- `a / (t - b) + c` of the three curves that are not linear, on the interval from `t₀` to `t₁`, with
-- `a = k * (t₁ - t₀) / 127` and `b = c * t₁ + 127 * t₀ - c * t₀`.
unfoldable pub hyperbola : ℕ → ℕ → ℕ → ℕ → Option ℕ
hyperbola c t₀ t₁ t =
    let k = add32 (sub32 0 (mul32 127 c)) (mul32 c c) in
    let a = mul32 k (sub32 t₁ t₀) / 127 in
    let b = sub32 (add32 (mul32 c t₁) (mul32 127 t₀)) (mul32 c t₀) in
    elim (div32 a (sub32 t b)) [ none ↦ none | some q ↦ some (add32 q c) ]

-- The `switch` on the curve. `c = -40` is stored in a `uint32_t`.
unfoldable pub curve : VelCurve → ℕ → ℕ → ℕ → Option ℕ
unfolding hyperbola
curve linear lo hi t = div32 (mul32 127 (sub32 hi t)) (sub32 hi lo)
curve concave lo hi t = hyperbola 255 lo hi t
curve convex lo hi t = if ltb t lo then some 127 else hyperbola (2 ^ 32 - 40) lo hi t
curve saturated lo hi t = hyperbola 140 (add32 lo (sub32 hi lo / 2)) hi t

-- `time_to_velocity`.
unfoldable pub time_to_velocity : GpioState → ℕ → Option ℕ
time_to_velocity s t =
    if leb t s.stroke_time_min
    then some 127
    else if leb s.stroke_time_max t
    then some 0
    else to_uchar (curve s.vel_curve s.stroke_time_min s.stroke_time_max t)
