-- ===== src/Keyboard/Gpio/State.antt =====
-- The state of the GPIO component, module/cmidid_gpio.c: `struct key`, `struct cmidid_gpio_state`
-- and the calibration calls that write it.
use cmidid_kerneldriver.Base.{ℕ, Bool, List}
use cmidid_kerneldriver.Keyboard.Kernel.{Button, start_button, end_button}

-- KEY_STATE. The `default` branch of `handle_button_event` is for no value of the type.
pub data KeyState : Type 0 where
  inactive touched pressed : KeyState

pub data VelCurve : Type 0 where
  linear concave convex saturated : VelCurve

-- A C array that START_BUTTON and END_BUTTON index.
pub record PerButton (A : Type 0) : Type 0 where
  pub start : A
  pub last : A

abbrev pub at : {A : Type 0} → PerButton A → Button → A
at p start_button = p.start
at p end_button = p.last

abbrev pub put : {A : Type 0} → PerButton A → Button → A → PerButton A
put p start_button v = record p { start = v }
put p end_button v = record p { last = v }

-- `gpios` holds the GPIO numbers; `hit_time` is the 64-bit pattern of a `ktime_t`.
pub record Key : Type 0 where
  pub state : KeyState
  pub gpios : PerButton ℕ
  pub irqs : PerButton ℕ
  pub hit_time : ℕ
  pub timer_started : PerButton Bool
  pub note : ℕ
  pub last_velocity : ℕ

-- `num_keys` is the length of `keys`.
pub record GpioState : Type 0 where
  pub keys : List Key
  pub button_active_high : PerButton Bool
  pub last_stroke_time : ℕ
  pub stroke_time_min : ℕ
  pub stroke_time_max : ℕ
  pub vel_curve : VelCurve

-- `cmidid_set_min_stroke_time`: like its twin it stores into `stroke_time_max`.
unfoldable pub set_min_stroke_time : GpioState → GpioState × ℕ
set_min_stroke_time s = (record s { stroke_time_max = s.last_stroke_time }, s.last_stroke_time)

-- `cmidid_set_max_stroke_time`.
unfoldable pub set_max_stroke_time : GpioState → GpioState × ℕ
set_max_stroke_time s = (record s { stroke_time_max = s.last_stroke_time }, s.last_stroke_time)

-- `cmidid_set_vel_curve_linear` and the three like it.
unfoldable pub set_vel_curve : VelCurve → GpioState → GpioState
set_vel_curve c s = record s { vel_curve = c }
