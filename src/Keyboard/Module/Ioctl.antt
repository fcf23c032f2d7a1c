-- ===== src/Keyboard/Module/Ioctl.antt =====
-- The ioctl interface of module/cmidid_main.c, over any sequence of commands.
use cmidid_kerneldriver.Base.{ℕ, List, [], ◌∷◌, pos, ◌+◌, ◌%◌, ◌≡◌, ◌<◌, refl, arith, ◌∙◌, ap}
use cmidid_kerneldriver.Base.Int.{◌+ℤ◌, signed8}
use cmidid_kerneldriver.Keyboard.Midi.{transpose_by}
use cmidid_kerneldriver.Keyboard.Gpio.State.{
  set_min_stroke_time, set_max_stroke_time, set_vel_curve,
}
use cmidid_kerneldriver.Keyboard.Module.{
  Module, Command, calibrate_min_time, calibrate_max_time, transpose, unknown, ioctl,
}

-- CMIDID_TRANSPOSE wraps the sum of the transposition and the low byte of its argument at 256, and
-- returns the new transposition, read as a signed char, plus 128: a value from 0 to 255.
pub ioctl-transpose :
    (m : Module) (arg : ℕ)
    → m.midi.transpose < 256
    → let t = (m.midi.transpose + arg) % 256 in
      ((ioctl m transpose arg).0.midi.transpose ≡ t)
      × ((ioctl m transpose arg).1 ≡ signed8 t +ℤ pos 128)
      × ((ioctl m transpose arg).1 ≡ pos ((t + 128) % 256))
unfolding ioctl transpose_by ◌+ℤ◌
ioctl-transpose m arg h = (
  omega arith,
  (let e : (m.midi.transpose + arg % 256) % 256 ≡ (m.midi.transpose + arg) % 256 = omega arith in
      ap (λ t. signed8 t +ℤ pos 128) e),
  ground arith,
)

-- The commands in a row.
pub ioctls : Module → List (Command × ℕ) → Module
ioctls m [] = m
ioctls m ((c, arg) ∷ cs) = ioctls (ioctl m c arg).0 cs

ioctl-stroke_time_min :
    (m : Module) (c : Command) (arg : ℕ)
    → (ioctl m c arg).0.gpio.stroke_time_min ≡ m.gpio.stroke_time_min
unfolding ioctl set_min_stroke_time set_max_stroke_time set_vel_curve
ioctl-stroke_time_min m unknown arg = refl
ioctl-stroke_time_min m _ arg = refl

ioctls-stroke_time_min :
    (m : Module) (cs : List (Command × ℕ))
    → (ioctls m cs).gpio.stroke_time_min ≡ m.gpio.stroke_time_min
unfolding ioctls
ioctls-stroke_time_min m [] = refl
ioctls-stroke_time_min m ((c, arg) ∷ cs) =
    ioctls-stroke_time_min (ioctl m c arg).0 cs ∙ ioctl-stroke_time_min m c arg

-- No sequence of commands changes the minimal stroke time; CMIDID_CALIBRATE_MIN_TIME does what
-- CMIDID_CALIBRATE_MAX_TIME does, which is to store the last stroke time as the maximal one.
pub calibrate_min_lem :
    (m : Module) (cs : List (Command × ℕ)) (arg : ℕ)
    → ((ioctls m cs).gpio.stroke_time_min ≡ m.gpio.stroke_time_min)
      × (ioctl m calibrate_min_time arg ≡ ioctl m calibrate_max_time arg)
      × ((ioctl m calibrate_min_time arg).0.gpio.stroke_time_max ≡ m.gpio.last_stroke_time)
unfolding ioctl set_min_stroke_time set_max_stroke_time
calibrate_min_lem m cs arg = (ioctls-stroke_time_min m cs, refl, refl)
