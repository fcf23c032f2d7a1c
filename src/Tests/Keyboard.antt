-- ===== src/Tests/Keyboard.antt =====
-- Note events and interrupts of a keyboard of one key, module/.
use cmidid_kerneldriver.Base.{
  ℕ, true, false, List, [], ◌∷◌, some, pos, ◌≡◌, ◌≢◌, refl, ◌<◌, ◌≤◌, arith, All, zero, suc,
}
use cmidid_kerneldriver.Base.Int.{signed8, ◌+ℤ◌}
use cmidid_kerneldriver.Keyboard.Kernel.{
  start_button, end_button, NoteEvent, NoteKind, note_on, note_off,
}
use cmidid_kerneldriver.Keyboard.Midi.{
  MidiState, initial_state, config_note_event, send_note_on, send_note_off, dispatch_event,
}
use cmidid_kerneldriver.Keyboard.Midi.Notes.{IsPlayable, send-IsPlayable, in_range, pitch-transpose}
use cmidid_kerneldriver.Keyboard.Gpio.State.{Key, GpioState, inactive, touched, linear, concave}
use cmidid_kerneldriver.Keyboard.Gpio.Velocity.{stime64_to_utime32, time_to_velocity, curve}
use cmidid_kerneldriver.Keyboard.Gpio.Velocity.Curves.{
  time_to_velocity-interpolate, time_to_velocity_falls, time_to_velocity_flat,
}
use cmidid_kerneldriver.Keyboard.Gpio.Buttons.{handle_button_event, button_event, strike}
use cmidid_kerneldriver.Keyboard.Gpio.Buttons.Alternation.{
  alternate, hear, Input, inputs_run, inputs_run-alternate, transpose_while_held,
}
use cmidid_kerneldriver.Keyboard.Gpio.Irq.{get_key_from_irq, find_irq, irq_handler}
use cmidid_kerneldriver.Keyboard.Gpio.Irq.Debounce.{
  Board, interrupt, here, next, start_timer, IsDebounced, Reach-IsDebounced,
}

abbrev player : MidiState
player = record initial_state { card = some 1; client = pos 128 }

abbrev key : Key
key = record {
  state = inactive;
  gpios = record { start = 17; last = 18 };
  irqs = record { start = 33; last = 34 };
  hit_time = 0;
  timer_started = record { start = false; last = false };
  note = 60;
  last_velocity = 0;
}

abbrev quiet : GpioState
quiet = record {
  keys = key ∷ [];
  button_active_high = record { start = false; last = false };
  last_stroke_time = 0;
  stroke_time_min = 1000;
  stroke_time_max = 11000;
  vel_curve = linear;
}

abbrev event : NoteKind → ℕ → ℕ → NoteEvent
event kind note velocity = record {
  kind = kind;
  note = note;
  channel = 0;
  velocity = velocity;
  duration = 0xffffff;
  off_velocity = velocity;
  dest_port = 0;
  source_client = pos 128;
  source_port = 0;
}

-- So slow a stroke that its velocity is 0.
abbrev slow_tap : List Input
slow_tap =
    record { now = 0; button = start_button; active = true }
    ∷ record { now = 20000000; button = end_button; active = true }
    ∷ record { now = 23000000; button = end_button; active = true }
    ∷ []

abbrev slow_events : List NoteEvent
slow_events = event note_on 60 0 ∷ event note_off 60 127 ∷ event note_on 60 0 ∷ []

inputs_run-alternate_example :
    (alternate false slow_events ≡ some true) × (hear false slow_events ≡ false)
unfolding inputs_run handle_button_event button_event strike send_note_on send_note_off
    dispatch_event config_note_event time_to_velocity curve stime64_to_utime32
inputs_run-alternate_example = inputs_run-alternate player quiet key slow_tap refl refl

abbrev held : Key
held = record key { state = touched }

transpose_while_held_example :
    All
      (λ (e : NoteEvent). All (λ (e' : NoteEvent). e.note ≢ e'.note) (event note_off 62 127 ∷ []))
      (event note_on 60 63 ∷ [])
unfolding handle_button_event button_event strike send_note_on send_note_off dispatch_event
    config_note_event time_to_velocity curve stime64_to_utime32
transpose_while_held_example =
    transpose_while_held player 2 6000000 9000000 quiet quiet held refl refl (omega arith)
      (omega arith) (omega arith) (omega arith) (omega arith) refl refl

abbrev board : Board
board = record { gpio = quiet; running = λ i b. 0 }

board-IsDebounced : IsDebounced board
board-IsDebounced zero start_button = refl
board-IsDebounced zero end_button = refl
board-IsDebounced (suc i) b = refl

abbrev waiting : GpioState
waiting = record quiet {
  keys = record key { timer_started = record { start = true; last = false } } ∷ [];
}

Reach-IsDebounced_example :
    IsDebounced
      (record { gpio = waiting; running = start_timer (λ i b. 0) (some (0, start_button)) })
unfolding irq_handler get_key_from_irq find_irq
Reach-IsDebounced_example =
    Reach-IsDebounced (λ g. 0) player {s = board} board-IsDebounced
      (next here (interrupt 33 {g = waiting} {t = some (0, start_button)} refl))

time_to_velocity-interpolate_example : time_to_velocity quiet 6000 ≡ some 63
time_to_velocity-interpolate_example = time_to_velocity-interpolate quiet 6000 refl (omega arith)

time_to_velocity_falls_example :
    (v w : ℕ) × (time_to_velocity quiet 2000 ≡ some v)
    × (time_to_velocity quiet 6000 ≡ some w)
    × (w ≤ v)
    × (v ≤ 127)
time_to_velocity_falls_example =
    time_to_velocity_falls quiet 2000 6000 refl (omega arith) (omega arith)

abbrev curved : GpioState
curved = record quiet { vel_curve = concave }

time_to_velocity_flat_example :
    (v : ℕ) × (time_to_velocity curved 6000 ≡ some v) × (127 ≤ v) × (v < 256)
time_to_velocity_flat_example =
    time_to_velocity_flat curved 6000 (λ e. absurd (cc)) (omega arith) (omega arith) (omega arith)
      (omega arith)

abbrev lowered : MidiState
lowered = record player { transpose = 0xf4 }

send-IsPlayable_example :
    All (IsPlayable lowered) (send_note_on lowered 5 200)
    × All (IsPlayable lowered) (send_note_off lowered 5)
send-IsPlayable_example = send-IsPlayable lowered 5 200

pitch-transpose_example :
    (config_note_event lowered 60 90 note_on).note ≡ in_range (pos 60 +ℤ signed8 0xf4)
pitch-transpose_example = pitch-transpose lowered 60 90 note_on (omega arith) (omega arith)
