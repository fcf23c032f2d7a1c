-- ===== src/Keyboard/Gpio/Buttons.antt =====
-- `handle_button_event` of module/cmidid_gpio.c. `now` is what `ktime_get` returns; `none` is the
-- fault of a division by zero in `time_to_velocity`.
pub mod Alternation
use cmidid_kerneldriver.Base.{
  ℕ, Bool, true, false, List, [], ◌∷◌, ◌++◌, Option, none, some, ◌%◌, ◌^◌,
}
use cmidid_kerneldriver.Keyboard.Kernel.{Button, start_button, end_button, NoteEvent}
use cmidid_kerneldriver.Keyboard.Midi.{MidiState, send_note_on, send_note_off}
use cmidid_kerneldriver.Keyboard.Gpio.State.{Key, inactive, touched, pressed, KeyState, GpioState}
use cmidid_kerneldriver.Keyboard.Gpio.Velocity.{ktime_sub, stime64_to_utime32, time_to_velocity}

-- The component's state, the key and the note events sent.
pub record Handled : Type 0 where
  pub gpio : GpioState
  pub key : Key
  pub events : List NoteEvent

-- The END_BUTTON branch of KEY_TOUCHED. The velocity is computed after `last_stroke_time` is set,
-- which it does not read.
unfoldable pub strike : MidiState → ℕ → GpioState → Key → Option Handled
strike midi now g k =
    let timediff = stime64_to_utime32 (ktime_sub now k.hit_time) in
    let g' = record g { last_stroke_time = timediff } in
    elim (time_to_velocity g' timediff) [
      | none ↦ none
      | some velocity ↦ some (record {
        gpio = g';
        key = record k { last_velocity = velocity; state = pressed };
        events = send_note_on midi k.note velocity;
      })
    ]

-- The `switch` on the state of the key.
unfoldable pub button_event :
    KeyState → MidiState → ℕ → GpioState → Key → Button → Bool → Option Handled
button_event inactive midi now g k start_button true =
    some (record { gpio = g; key = record k { hit_time = now; state = touched }; events = [] })
button_event inactive midi now g k start_button false =
    some (record { gpio = g; key = k; events = send_note_off midi k.note })
button_event inactive midi now g k end_button active =
    some (record { gpio = g; key = k; events = [] })
button_event touched midi now g k start_button true =
    some (record { gpio = g; key = k; events = [] })
button_event touched midi now g k start_button false =
    some
      (record { gpio = g; key = record k { state = inactive }; events = send_note_off midi k.note })
button_event touched midi now g k end_button true = strike midi now g k
button_event touched midi now g k end_button false =
    some (record { gpio = g; key = k; events = [] })
button_event pressed midi now g k start_button true =
    some (record { gpio = g; key = k; events = [] })
button_event pressed midi now g k start_button false =
    some
      (record { gpio = g; key = record k { state = inactive }; events = send_note_off midi k.note })
button_event pressed midi now g k end_button true = some (record {
  gpio = g;
  key = k;
  events = send_note_off midi k.note ++ send_note_on midi k.note (k.last_velocity % 2 ^ 8);
})
button_event pressed midi now g k end_button false =
    some (record { gpio = g; key = k; events = [] })

unfoldable pub handle_button_event :
    MidiState → ℕ → GpioState → Key → Button → Bool → Option Handled
handle_button_event midi now g k button active = button_event k.state midi now g k button active
