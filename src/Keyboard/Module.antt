-- ===== src/Keyboard/Module.antt =====
-- The module, module/cmidid_main.c: initialisation, exit and the ioctl interface.
pub mod Ioctl
pub mod Lifecycle
use cmidid_kerneldriver.Base.{
  ℕ, Bool, true, false, List, [], ◌∷◌, ◌++◌, ℤ, pos, negsuc, ◌+◌, ◌-◌, ◌%◌, ◌^◌, ltb, if◌then◌else◌,
  not,
}
use cmidid_kerneldriver.Base.Int.{is_negative, ◌+ℤ◌}
use cmidid_kerneldriver.Keyboard.Kernel.{
  Call, alloc_chrdev_region, cdev_alloc, cdev_add, class_create, device_create, device_destroy,
  class_destroy, cdev_del, kobject_put, unregister_chrdev_region, eio,
}
use cmidid_kerneldriver.Keyboard.Midi.{
  MidiState, AlsaAnswers, midi_init, midi_exit, transpose_by, initial_state,
}
use cmidid_kerneldriver.Keyboard.Gpio.State.{
  GpioState, set_min_stroke_time, set_max_stroke_time, set_vel_curve, linear, concave, convex,
  saturated,
}
use cmidid_kerneldriver.Keyboard.Gpio.Setup.{Platform, Params, gpio_init, gpio_exit}

-- The two global states.
pub record Module : Type 0 where
  pub midi : MidiState
  pub gpio : GpioState

-- The commands of module/cmidid_ioctl.h, and any other number.
pub data Command : Type 0 where
  calibrate_min_time calibrate_max_time : Command
  vel_curve_linear vel_curve_concave vel_curve_convex vel_curve_saturated : Command
  transpose : Command
  unknown : Command

-- A `uint32_t` returned as a `long` of 32 bits.
abbrev pub to_long : ℕ → ℤ
to_long w = if ltb w (2 ^ 31) then pos w else negsuc (2 ^ 32 - 1 - w)

-- `cmidid_ioctl`: the new state and the value returned.
unfoldable pub ioctl : Module → Command → ℕ → Module × ℤ
ioctl m calibrate_min_time arg =
    let (g, t) = set_min_stroke_time m.gpio in (record m { gpio = g }, to_long t)
ioctl m calibrate_max_time arg =
    let (g, t) = set_max_stroke_time m.gpio in (record m { gpio = g }, to_long t)
ioctl m vel_curve_linear arg = (record m { gpio = set_vel_curve linear m.gpio }, pos 0)
ioctl m vel_curve_concave arg = (record m { gpio = set_vel_curve concave m.gpio }, pos 0)
ioctl m vel_curve_convex arg = (record m { gpio = set_vel_curve convex m.gpio }, pos 0)
ioctl m vel_curve_saturated arg = (record m { gpio = set_vel_curve saturated m.gpio }, pos 0)
ioctl m transpose arg =
    let (s, t) = transpose_by m.midi (arg % 2 ^ 8) in (record m { midi = s }, t +ℤ pos 128)
ioctl m unknown arg = (m, pos 0)

-- What the kernel answers while the module is loaded.
pub record Answers : Type 0 where
  pub chrdev_region : ℤ
  pub cdev : Bool
  pub cdev_add_error : Bool
  pub alsa : AlsaAnswers
  pub platform : Platform

-- The module parameters.
pub record Parameters : Type 0 where
  pub midi_channel : ℕ
  pub gpio : Params

pub record Loaded : Type 0 where
  pub code : ℤ
  pub state : Module
  pub calls : List Call

-- From the label `err_midi_init` on.
abbrev pub destroy_calls : List Call
destroy_calls =
    device_destroy ∷ class_destroy ∷ cdev_del ∷ kobject_put ∷ unregister_chrdev_region ∷ []

-- The part of `cmidid_init` from `cmidid_midi_init` on.
unfoldable pub init_components : Answers → Parameters → Module → List Call → Loaded
init_components a q m made =
    let midi = midi_init a.alsa q.midi_channel m.midi in
    let m₁ = record m { midi = midi.state } in
    let gpio = gpio_init a.platform q.gpio m.gpio in
    let m₂ = record m₁ { gpio = gpio.gpio } in
    if is_negative midi.code
    then record { code = midi.code; state = m₁; calls = made ++ (midi.calls ++ destroy_calls) }
    else if is_negative gpio.code
    then record {
      code = gpio.code;
      state = m₂;
      calls = made ++ (midi.calls ++ (gpio.calls ++ (midi_exit midi.state ++ destroy_calls)));
    }
    else record { code = pos 0; state = m₂; calls = made ++ (midi.calls ++ gpio.calls) }

-- `cmidid_init`.
unfoldable pub cmidid_init : Answers → Parameters → Module → Loaded
cmidid_init a q m =
    let region = alloc_chrdev_region a.chrdev_region ∷ [] in
    let device = region ++ cdev_alloc a.cdev ∷ [] in
    let added = device ++ cdev_add a.cdev_add_error ∷ [] in
    if is_negative a.chrdev_region
    then record { code = eio; state = m; calls = region }
    else if not a.cdev
    then record { code = eio; state = m; calls = device ++ unregister_chrdev_region ∷ [] }
    else if a.cdev_add_error
    then record {
      code = eio;
      state = m;
      calls = added ++ kobject_put ∷ unregister_chrdev_region ∷ [];
    }
    else init_components a q m (added ++ class_create ∷ device_create ∷ [])

-- `cmidid_exit`.
unfoldable pub cmidid_exit : Module → List Call
cmidid_exit m =
    gpio_exit m.gpio
    ++ (midi_exit m.midi
        ++ device_destroy ∷ class_destroy ∷ cdev_del ∷ unregister_chrdev_region ∷ [])
