-- ===== src/Keyboard/Gpio/Buttons/Alternation.antt =====
-- The note events of a key alternate, whatever its buttons do, and what is heard of them.
use cmidid_kerneldriver.Base.{
  ℕ, Bool, true, false, List, [], ◌∷◌, ◌++◌, ◌+◌, ◌%◌, Option, Option-cases, inl, inr, none, some,
  ◌≡◌, refl, arith, ◌^◌, ◌==◌, ◌&&◌, not, ◌<◌, ◌≢◌, All,
}
use cmidid_kerneldriver.Keyboard.Kernel.{
  Button, start_button, end_button, NoteEvent, note_on, note_off,
}
use cmidid_kerneldriver.Keyboard.Midi.{
  MidiState, send_note_on, send_note_off, config_note_event, is_positive,
}
use cmidid_kerneldriver.Keyboard.Gpio.Velocity.{
  ktime_sub, stime64_to_utime32, to_uchar, curve, time_to_velocity,
}
use cmidid_kerneldriver.Keyboard.Gpio.State.{Key, inactive, touched, pressed, KeyState, GpioState}
use cmidid_kerneldriver.Keyboard.Gpio.Buttons.{Handled, strike, button_event, handle_button_event}

-- Whether the last event is a note on, whatever its velocity: `none` if a note on follows a note on
-- without a note off between them.
abbrev pub alternate : Bool → List NoteEvent → Option Bool
alternate on [] = some on
alternate on (e ∷ es) = elim e.kind [
  | note_off ↦ alternate false es
  | note_on ↦ elim on [ true ↦ none | false ↦ alternate true es ]
]

-- Whether the note sounds after the events: for MIDI a note on of velocity 0 is a note off.
abbrev pub hear : Bool → List NoteEvent → Bool
hear sounding [] = sounding
hear sounding (e ∷ es) = elim e.kind [
  | note_off ↦ hear false es
  | note_on ↦ hear (not (e.velocity == 0)) es
]

abbrev pub is_pressed : KeyState → Bool
is_pressed pressed = true
is_pressed touched = false
is_pressed inactive = false

-- A pressed key whose last stroke had a velocity other than 0.
abbrev pub is_audible : Key → Bool
is_audible k = is_pressed k.state && not (k.last_velocity % 2 ^ 8 == 0)

alternate-append :
    (b c : Bool) (xs ys : List NoteEvent)
    → alternate b xs ≡ some c
    → alternate b (xs ++ ys) ≡ alternate c ys
alternate-append b c [] ys h = ground arith
alternate-append b c (e ∷ xs) ys h =
    ground (arith, alternate-append true c xs ys, alternate-append false c xs ys)

hear-append : (b : Bool) (xs ys : List NoteEvent) → hear b (xs ++ ys) ≡ hear (hear b xs) ys
hear-append b [] ys = refl
hear-append b (e ∷ xs) ys =
    elim e.kind
      as (λ kind.
        elim kind as (λ x. Bool) [
          | note_off ↦ hear false (xs ++ ys)
          | note_on ↦ hear (not (e.velocity == 0)) (xs ++ ys)
        ]
        ≡ hear
            (elim kind as (λ x. Bool) [
              | note_off ↦ hear false xs
              | note_on ↦ hear (not (e.velocity == 0)) xs
            ])
            ys) [
              | note_off ↦ hear-append false xs ys
              | note_on ↦ hear-append (not (e.velocity == 0)) xs ys
            ]

-- What one event of a button does to a key: the events that it sends alternate, and the last of them
-- is a note on exactly if the key is now pressed.
pub handle_button_event-alternate :
    (midi : MidiState) (now : ℕ) (g : GpioState) (k : Key) (b : Button) (active : Bool)
    {r : Handled}
    → is_positive midi.client ≡ true
    → handle_button_event midi now g k b active ≡ some r
    → alternate (is_pressed k.state) r.events ≡ some (is_pressed r.key.state)
unfolding handle_button_event button_event strike send_note_on send_note_off
handle_button_event-alternate midi now g k b active c h = ground arith

to_uchar-lt : (o : Option ℕ) (v : ℕ) → to_uchar o ≡ some v → v < 256
to_uchar-lt none v e = absurd (cc)
to_uchar-lt (some w) v e = ground arith

time_to_velocity-lt : (s : GpioState) (t v : ℕ) → time_to_velocity s t ≡ some v → v < 256
unfolding time_to_velocity
time_to_velocity-lt s t v e =
    ground (arith, to_uchar-lt (curve s.vel_curve s.stroke_time_min s.stroke_time_max t) v)

-- The key is heard exactly if it is now audible.
handle_button_event-hear :
    (midi : MidiState) (now : ℕ) (g : GpioState) (k : Key) (b : Button) (active : Bool)
    {r : Handled}
    → is_positive midi.client ≡ true
    → handle_button_event midi now g k b active ≡ some r
    → hear (is_audible k) r.events ≡ is_audible r.key
unfolding handle_button_event button_event strike send_note_on send_note_off
handle_button_event-hear midi now g k b active c h =
    let timediff = stime64_to_utime32 (ktime_sub now k.hit_time) in
    let g' : GpioState = record g { last_stroke_time = timediff } in
    elim (Option-cases (time_to_velocity g' timediff)) [
      | inl e ↦ ground arith
      | inr (v, e) ↦ ground (arith, time_to_velocity-lt g' timediff v e)
    ]

-- A call of `handle_button_event`: the time, the button and whether it is active.
pub record Input : Type 0 where
  pub now : ℕ
  pub button : Button
  pub active : Bool

-- The calls for one key in a row.
unfoldable pub inputs_run : MidiState → GpioState → Key → List Input → Option Handled
inputs_run midi g k [] = some (record { gpio = g; key = k; events = [] })
inputs_run midi g k (i ∷ is) = elim (handle_button_event midi i.now g k i.button i.active) [
  | none ↦ none
  | some r ↦ elim (inputs_run midi r.gpio r.key is) [
    | none ↦ none
    | some t ↦ some (record t { events = r.events ++ t.events })
  ]
]

run-alternate :
    (midi : MidiState) (g : GpioState) (k : Key) (is : List Input) {r : Handled}
    → is_positive midi.client ≡ true
    → inputs_run midi g k is ≡ some r
    → alternate (is_pressed k.state) r.events ≡ some (is_pressed r.key.state)
unfolding inputs_run
run-alternate midi g k [] c h = ground arith
run-alternate midi g k (i ∷ is) c h =
    elim (Option-cases (handle_button_event midi i.now g k i.button i.active)) [
      | inl e ↦ ground arith
      | inr (r, e) ↦ elim (Option-cases (inputs_run midi r.gpio r.key is)) [
        | inl f ↦ ground arith
        | inr (t, f) ↦ ground (
          arith,
          handle_button_event-alternate midi i.now g k i.button i.active c e,
          alternate-append (is_pressed k.state) (is_pressed r.key.state) r.events t.events,
          run-alternate midi r.gpio r.key is c f,
        )
      ]
    ]

run-hear :
    (midi : MidiState) (g : GpioState) (k : Key) (is : List Input) {r : Handled}
    → is_positive midi.client ≡ true
    → inputs_run midi g k is ≡ some r
    → hear (is_audible k) r.events ≡ is_audible r.key
unfolding inputs_run
run-hear midi g k [] c h = ground arith
run-hear midi g k (i ∷ is) c h =
    elim (Option-cases (handle_button_event midi i.now g k i.button i.active)) [
      | inl e ↦ ground arith
      | inr (r, e) ↦ elim (Option-cases (inputs_run midi r.gpio r.key is)) [
        | inl f ↦ ground arith
        | inr (t, f) ↦ ground (
          arith,
          handle_button_event-hear midi i.now g k i.button i.active c e,
          hear-append (is_audible k) r.events t.events,
          run-hear midi r.gpio r.key is c f,
        )
      ]
    ]

-- With a sequencer client, over any run of button events that is free of faults: if the key's last
-- event was a note on exactly if it is pressed, then each note on that follows comes after a note
-- off, whatever the velocities, and at the end the last event is a note on exactly if the key is
-- pressed. If the key sounds exactly if it is pressed and its last stroke had a velocity other than
-- 0, then it does so at the end too: a pressed key whose stroke was so slow that its velocity is 0
-- is silent.
pub inputs_run-alternate :
    (midi : MidiState) (g : GpioState) (k : Key) (is : List Input) {r : Handled}
    → is_positive midi.client ≡ true
    → inputs_run midi g k is ≡ some r
    → (alternate (is_pressed k.state) r.events ≡ some (is_pressed r.key.state))
      × (hear (is_audible k) r.events ≡ is_audible r.key)
inputs_run-alternate midi g k is c h = (run-alternate midi g k is c h, run-hear midi g k is c h)

-- The event has the pitch of the note, under the transposition at the time.
abbrev pub HasPitch : MidiState → ℕ → NoteEvent → Type 0
HasPitch midi note e = e.note ≡ (config_note_event midi note 127 note_off).note

-- Whatever a button does, all events that are sent have the pitch of the key's note under the
-- transposition at the time, and the note of the key stays.
pub handle_button_event-HasPitch :
    (midi : MidiState) (now : ℕ) (g : GpioState) (k : Key) (b : Button) (active : Bool)
    {r : Handled}
    → handle_button_event midi now g k b active ≡ some r
    → All (HasPitch midi k.note) r.events × (r.key.note ≡ k.note)
unfolding handle_button_event button_event strike send_note_on send_note_off
handle_button_event-HasPitch midi now g k b active h = ground arith

-- Releasing the start button never faults; in every state of the key it sends one note off, leaves
-- the key inactive and changes nothing else.
pub release_silences :
    (midi : MidiState) (now : ℕ) (g : GpioState) (k : Key)
    → handle_button_event midi now g k start_button false
      ≡ some (record {
        gpio = g;
        key = record k { state = inactive };
        events = send_note_off midi k.note;
      })
unfolding handle_button_event button_event
release_silences midi now g k = ground arith

-- A key held while the transposition changes: the note off is not for the note that sounds. For a
-- note that stays in range under both transpositions, the pitches of the two events differ.
pub transpose_while_held :
    (midi : MidiState) (t now now' : ℕ) (g g' : GpioState) (k : Key) {r r' : Handled}
    → is_positive midi.client ≡ true
    → k.state ≡ touched
    → (k.note + midi.transpose) % 256 < 127
    → (k.note + t) % 256 < 127
    → midi.transpose < 256
    → t < 256
    → t ≢ midi.transpose
    → handle_button_event midi now g k end_button true ≡ some r
    → handle_button_event (record midi { transpose = t }) now' g' r.key start_button false ≡ some r'
    → All (λ e. All (λ e'. e.note ≢ e'.note) r'.events) r.events
unfolding handle_button_event button_event strike send_note_on send_note_off
transpose_while_held midi t now now' g g' k c e p q p' q' ne h h' = ground arith
