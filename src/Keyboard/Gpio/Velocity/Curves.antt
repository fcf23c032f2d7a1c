-- ===== src/Keyboard/Gpio/Velocity/Curves.antt =====
-- The linear curve falls from 127 to 0; the other three do not interpolate.
use native.Mathlib.Nat.{div-eq_of_lt, div-lt_iff_lt-mul}
use cmidid_kerneldriver.Base.{
  ℕ, zero, suc, ◌-◌, ◌*◌, ◌/◌, ◌%◌, ◌^◌, ◌≤◌, ◌<◌, ◌≡◌, refl, arith, Option, none, some, ◌≢◌, ◌⊎◌,
  inl, inr, ltb, false, leb, if◌then◌else◌,
}
use cmidid_kerneldriver.Keyboard.Gpio.State.{
  GpioState, VelCurve, linear, concave, convex, saturated,
}
use cmidid_kerneldriver.Keyboard.Gpio.Velocity.{
  curve, time_to_velocity, to_uchar, div32, add32, sub32, mul32,
}

-- The longest interval on which `127 * (stroke_time_max - t)` stays below 2 ^ 32.
abbrev pub linear_limit : ℕ
linear_limit = 33818640

-- The intended value of the linear curve.
abbrev pub interpolate : ℕ → ℕ → ℕ → ℕ
interpolate lo hi t = if leb t lo then 127 else if leb hi t then 0 else 127 * (hi - t) / (hi - lo)

div32_pos : (a d : ℕ) → 0 < d → div32 a d ≡ some (a / d)
div32_pos a (suc d) h = refl
div32_pos a zero h = elim h [ ]

interpolate_bound : (m d : ℕ) → 0 < d → m ≤ d → 127 * m / d ≤ 127
interpolate_bound m d h k = grind arith

interpolate_mono : (m n d : ℕ) → 0 < d → m ≤ n → 127 * m / d ≤ 127 * n / d
interpolate_mono m n d h k = grind arith

interpolate-le : (lo hi t : ℕ) → interpolate lo hi t ≤ 127
interpolate-le lo hi t = ground (arith, interpolate_bound (hi - t) (hi - lo))

module _ (lo hi t : ℕ) (above : lo < t) (below : t < hi) where
  curve_linear : hi ≤ linear_limit → curve linear lo hi t ≡ some (127 * (hi - t) / (hi - lo))
  unfolding curve
  curve_linear small =
      let wide : sub32 hi lo ≡ hi - lo = omega arith in
      let rest : mul32 127 (sub32 hi t) ≡ 127 * (hi - t) = omega arith in
      rw (wide, rest) (div32_pos (127 * (hi - t)) (hi - lo) (omega arith))

-- The last step of a hyperbola.
abbrev plus : ℕ → Option ℕ → Option ℕ
plus c o = elim o [ none ↦ none | some q ↦ some (add32 q c) ]

-- A quotient whose divisor has wrapped round.
div32_wrapped : (a d c : ℕ) → a < d → plus c (div32 a d) ≡ some (add32 0 c)
div32_wrapped a d c h = rw (div32_pos a d (omega arith), div-eq_of_lt h)

-- At most two divisors fit.
div32_two :
    (a d c : ℕ)
    → 0 < d
    → a < 3 * d
    → (plus c (div32 a d) ≡ some (add32 0 c))
      ⊎ ((plus c (div32 a d) ≡ some (add32 1 c)) ⊎ (plus c (div32 a d) ≡ some (add32 2 c)))
div32_two a d c p h =
    rw (div32_pos a d p) (let e : a / d < 3 = (div-lt_iff_lt-mul p).1 h in ground arith)

module _ (lo hi t : ℕ) (above : lo < t) (below : t < hi) (small : hi ≤ 16000000) where
  curve_concave : curve concave lo hi t ≡ some 255
  unfolding curve
  curve_concave = div32_wrapped _ _ 255 (omega arith)

  curve_saturated : curve saturated lo hi t ≡ some 140
  unfolding curve
  curve_saturated = div32_wrapped _ _ 140 (omega arith)

  curve_convex : 10 * lo ≤ hi → (v : ℕ) × (curve convex lo hi t ≡ some v) × (216 ≤ v % 256)
  unfolding curve
  curve_convex h =
      rw (let e : ltb t lo ≡ false = ground arith in e)
        (elim (div32_two (mul32 6680 (sub32 hi lo) / 127)
          (sub32 t (sub32 (add32 (mul32 (2 ^ 32 - 40) hi) (mul32 127 lo)) (mul32 (2 ^ 32 - 40) lo)))
          (2 ^ 32 - 40) (omega arith) (omega arith)) [
            | inl e ↦ (2 ^ 32 - 40, e, omega arith)
            | inr (inl e) ↦ (2 ^ 32 - 39, e, omega arith)
            | inr (inr e) ↦ (2 ^ 32 - 38, e, omega arith)
          ])

curve_flat :
    (c : VelCurve) (lo hi t : ℕ)
    → c ≢ linear
    → lo < t
    → t < hi
    → 10 * lo ≤ hi
    → hi ≤ 16000000
    → (v : ℕ) × (to_uchar (curve c lo hi t) ≡ some v) × (127 ≤ v) × (v < 256)
curve_flat linear lo hi t n above below wide small = absurd (n refl)
curve_flat concave lo hi t n above below wide small =
    rw (curve_concave lo hi t above below small) (255, refl, omega arith, omega arith)
curve_flat convex lo hi t n above below wide small =
    let (v, e, big) = curve_convex lo hi t above below small wide in
    rw e (v % 256, refl, omega arith, omega arith)
curve_flat saturated lo hi t n above below wide small =
    rw (curve_saturated lo hi t above below small) (140, refl, omega arith, omega arith)

interpolate_antitone : (lo hi t u : ℕ) → t ≤ u → interpolate lo hi u ≤ interpolate lo hi t
interpolate_antitone lo hi t u h =
    ground
      (arith, interpolate_mono (hi - u) (hi - t) (hi - lo), interpolate_bound (hi - u) (hi - lo))

-- On the linear curve, with a maximal stroke time of at most `linear_limit`, the velocity of a
-- stroke is the interpolated one.
pub time_to_velocity-interpolate :
    (s : GpioState) (t : ℕ)
    → s.vel_curve ≡ linear
    → s.stroke_time_max ≤ linear_limit
    → time_to_velocity s t ≡ some (interpolate s.stroke_time_min s.stroke_time_max t)
unfolding time_to_velocity
time_to_velocity-interpolate s t e h =
    let lo = s.stroke_time_min in
    let hi = s.stroke_time_max in
    rw e (ground (arith, curve_linear lo hi t, interpolate_bound (hi - t) (hi - lo)))

-- On each of the other curves, every stroke strictly between the minimal and the maximal time has a
-- velocity of 127 or more, however long it took, if ten times the minimal time fits the maximal one
-- and that is at most 16000000.
pub time_to_velocity_flat :
    (s : GpioState) (t : ℕ)
    → s.vel_curve ≢ linear
    → s.stroke_time_min < t
    → t < s.stroke_time_max
    → 10 * s.stroke_time_min ≤ s.stroke_time_max
    → s.stroke_time_max ≤ 16000000
    → (v : ℕ) × (time_to_velocity s t ≡ some v) × (127 ≤ v) × (v < 256)
unfolding time_to_velocity
time_to_velocity_flat s t other above below wide small =
    let lo = s.stroke_time_min in
    let hi = s.stroke_time_max in
    let low : leb t lo ≡ false = ground arith in
    let high : leb hi t ≡ false = ground arith in
    rw (low, high) (curve_flat s.vel_curve lo hi t other above below wide small)

-- On the linear curve, with a maximal stroke time of at most `linear_limit`, of two strokes the
-- longer one is no louder, and no velocity is above 127.
pub time_to_velocity_falls :
    (s : GpioState) (t u : ℕ)
    → s.vel_curve ≡ linear
    → s.stroke_time_max ≤ linear_limit
    → t ≤ u
    → (v w : ℕ) × (time_to_velocity s t ≡ some v)
      × (time_to_velocity s u ≡ some w)
      × (w ≤ v)
      × (v ≤ 127)
time_to_velocity_falls s t u e small h =
    let lo = s.stroke_time_min in
    let hi = s.stroke_time_max in
    (
      interpolate lo hi t,
      interpolate lo hi u,
      time_to_velocity-interpolate s t e small,
      time_to_velocity-interpolate s u e small,
      interpolate_antitone lo hi t u h,
      interpolate-le lo hi t,
    )
