-- ===== src/Tests/Setup.antt =====
-- Setting up and tearing down two keys, the sound card and the module, module/.
use cmidid_kerneldriver.Base.{
  ℕ, true, false, [], ◌∷◌, ◌++◌, some, pos, negsuc, ◌≡◌, ◌≢◌, refl, sym, ◌∙◌, ◌+◌,
}
use cmidid_kerneldriver.Keyboard.Kernel.{einval}
use cmidid_kerneldriver.Keyboard.Trace.{
  total, takes_card, frees_card, takes_keys, frees_keys, frees_irq, cdev,
}
use cmidid_kerneldriver.Keyboard.Midi.{initial_state, AlsaAnswers, midi_init, midi_exit}
use cmidid_kerneldriver.Keyboard.Midi.Setup.{midi_init-midi_exit}
use cmidid_kerneldriver.Keyboard.Gpio.State.{GpioState}
use cmidid_kerneldriver.Keyboard.Gpio.Setup.{
  Platform, Params, unused, is_valid, init_key, init_keys, finish, fresh_state, gpio_init,
  gpio_exit,
}
use cmidid_kerneldriver.Keyboard.Gpio.Setup.Outcome.{IsSetUp, gpio_init-IsSetUp}
use cmidid_kerneldriver.Keyboard.Gpio.Setup.Balance.{IsBalanced, gpio_init-gpio_exit}
use cmidid_kerneldriver.Keyboard.Gpio.Setup.Release.{gpio_init_failure}
use cmidid_kerneldriver.Keyboard.Module.{
  Module, Answers, Parameters, ioctl, calibrate_min_time, calibrate_max_time, vel_curve_convex,
}
use cmidid_kerneldriver.Keyboard.Module.Ioctl.{ioctls, calibrate_min_lem}

abbrev pi : Platform
pi = record {
  kzalloc = true;
  gpio_is_valid = λ g. true;
  request_array = λ a b. pos 0;
  gpio_to_irq = λ g. pos (g + 100);
  request_irq = λ q. pos 0;
}

-- The interrupts are refused.
abbrev busy : Platform
busy = record pi { request_irq = λ q. negsuc 15 }

abbrev params : Params
params = record {
  gpio_mapping = 2 ∷ 3 ∷ 60 ∷ 4 ∷ 5 ∷ 61 ∷ [];
  start_button_active_high = false;
  end_button_active_high = false;
  stroke_time_min = 1000;
  stroke_time_max = 11000;
}

abbrev before : GpioState
before = fresh_state params

gpio_init-IsSetUp_example : IsSetUp pi params (gpio_init pi params before)
unfolding gpio_init init_keys init_key is_valid unused finish
gpio_init-IsSetUp_example = gpio_init-IsSetUp pi params before refl

gpio_init-gpio_exit_example :
    IsBalanced ((gpio_init pi params before).calls ++ gpio_exit (gpio_init pi params before).gpio)
unfolding gpio_init init_keys init_key is_valid unused finish
gpio_init-gpio_exit_example = gpio_init-gpio_exit pi params before refl

busy_code : (gpio_init busy params before).code ≡ einval
unfolding gpio_init init_keys init_key is_valid unused finish
busy_code = refl

einval_fails : einval ≢ pos 0
einval_fails e = absurd (cc)

busy_fails : (gpio_init busy params before).code ≢ pos 0
busy_fails e = einval_fails (sym busy_code ∙ e)

gpio_init_failure_example :
    (total takes_keys (gpio_init busy params before).calls
      ≡ total frees_keys (gpio_init busy params before).calls)
    × ((i : ℕ) → total (frees_irq i) (gpio_init busy params before).calls ≡ 0)
gpio_init_failure_example = gpio_init_failure busy params before busy_fails

abbrev alsa : AlsaAnswers
alsa = record { card_create = pos 0; card = some 1; create_client = pos 128; client_ctl = pos 0 }

abbrev no_client : AlsaAnswers
no_client = record alsa { create_client = negsuc 15 }

midi_init-midi_exit_example :
    total frees_card (
      (midi_init no_client 3 initial_state).calls
      ++ midi_exit (midi_init no_client 3 initial_state).state)
    ≡ total takes_card (
        (midi_init no_client 3 initial_state).calls
        ++ midi_exit (midi_init no_client 3 initial_state).state)
      + 1
unfolding midi_init
midi_init-midi_exit_example = midi_init-midi_exit no_client 3 initial_state refl

abbrev loaded : Module
loaded = record { midi = initial_state; gpio = before }

calibrate_min_example :
    ((ioctls loaded ((calibrate_min_time, 0) ∷ (vel_curve_convex, 0) ∷ [])).gpio.stroke_time_min
      ≡ before.stroke_time_min)
    × (ioctl loaded calibrate_min_time 0 ≡ ioctl loaded calibrate_max_time 0)
    × ((ioctl loaded calibrate_min_time 0).0.gpio.stroke_time_max ≡ before.last_stroke_time)
calibrate_min_example =
    calibrate_min_lem loaded ((calibrate_min_time, 0) ∷ (vel_curve_convex, 0) ∷ []) 0

abbrev answers : Answers
answers = record {
  chrdev_region = pos 0;
  cdev = true;
  cdev_add_error = false;
  alsa = alsa;
  platform = pi;
}

abbrev parameters : Parameters
parameters = record { midi_channel = 3; gpio = params }

-- The channel is refused.
abbrev channel_16 : Parameters
channel_16 = record parameters { midi_channel = 16 }
