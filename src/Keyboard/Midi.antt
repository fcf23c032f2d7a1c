-- ===== src/Keyboard/Midi.antt =====
-- The MIDI component, module/cmidid_midi.c: note events, transposition, set-up and clean-up.
-- A `signed char` or `char` is its bit pattern below 256.
pub mod Notes
pub mod Setup
use cmidid_kerneldriver.Base.{
  ℕ, Bool, true, false, List, [], ◌∷◌, ◌++◌, Option, none, ℤ, pos, negsuc, ◌+◌, ◌%◌, ◌^◌, ltb, leb,
  if◌then◌else◌,
}
use cmidid_kerneldriver.Base.Int.{is_negative, signed8}
use cmidid_kerneldriver.Keyboard.Kernel.{
  NoteKind, note_on, note_off, NoteEvent, Call, snd_card_create, snd_seq_create_kernel_client,
  snd_seq_kernel_client_ctl, snd_seq_delete_kernel_client, snd_card_free, einval,
}

-- `struct cmidid_midi_state`.
pub record MidiState : Type 0 where
  pub card : Option ℕ
  pub client : ℤ
  pub midi_channel : ℕ
  pub transpose : ℕ

abbrev pub initial_state : MidiState
initial_state = record { card = none; client = pos 0; midi_channel = 0; transpose = 0 }

-- `cmidid_transpose`: the new state and the value that it returns.
unfoldable pub transpose_by : MidiState → ℕ → MidiState × ℤ
transpose_by s by =
    let sum = (s.transpose + by) % 2 ^ 8 in (record s { transpose = sum }, signed8 sum)

-- `config_note_event`: the parameters are `unsigned char`, so the sum wraps.
unfoldable pub config_note_event : MidiState → ℕ → ℕ → NoteKind → NoteEvent
config_note_event s note velocity kind =
    let moved = (note + s.transpose) % 2 ^ 8 in
    let note' = if leb 127 moved then 127 else moved in
    let velocity' = if leb 127 velocity then 127 else velocity in
    record {
      kind = kind;
      note = note';
      channel = s.midi_channel;
      velocity = velocity';
      duration = 0xffffff;
      off_velocity = velocity';
      dest_port = 0;
      source_client = s.client;
      source_port = 0;
    }

abbrev pub is_positive : ℤ → Bool
is_positive (pos n) = ltb 0 n
is_positive (negsuc n) = false

-- `dispatch_event`: what is handed to the sequencer. An error of the call is only logged.
unfoldable pub dispatch_event : MidiState → NoteEvent → List NoteEvent
dispatch_event s event = if is_positive s.client then event ∷ [] else []

-- `cmidid_note_on` and `cmidid_note_off`.
unfoldable pub send_note_on : MidiState → ℕ → ℕ → List NoteEvent
unfolding dispatch_event config_note_event
send_note_on s note velocity = dispatch_event s (config_note_event s note velocity note_on)

unfoldable pub send_note_off : MidiState → ℕ → List NoteEvent
unfolding dispatch_event config_note_event
send_note_off s note = dispatch_event s (config_note_event s note 127 note_off)

-- What ALSA answers during the set-up; `card` is what is stored through the pointer argument.
pub record AlsaAnswers : Type 0 where
  pub card_create : ℤ
  pub card : Option ℕ
  pub create_client : ℤ
  pub client_ctl : ℤ

-- The result code, the new state and the calls made.
pub record SetUp : Type 0 where
  pub code : ℤ
  pub state : MidiState
  pub calls : List Call

-- `cmidid_midi_init`, `channel` being the module parameter. A `char` above 15 is refused whether or
-- not `char` is signed: its patterns from 128 on are negative or large. The error of
-- `snd_seq_create_kernel_client` is not stored in `err`, so that branch returns the code of
-- `snd_card_create`.
unfoldable pub midi_init : AlsaAnswers → ℕ → MidiState → SetUp
midi_init alsa channel s =
    if ltb 15 channel
    then record { code = einval; state = s; calls = [] }
    else (let s₁ = record s { midi_channel = channel; card = alsa.card } in
        let s₂ = record s₁ { client = alsa.create_client } in
        let made =
          snd_card_create alsa.card_create
          ∷ snd_seq_create_kernel_client alsa.card alsa.create_client
          ∷ [] in
        let asked = made ++ snd_seq_kernel_client_ctl alsa.create_client alsa.client_ctl ∷ [] in
        if is_negative alsa.card_create
        then record {
          code = alsa.card_create;
          state = s₁;
          calls = snd_card_create alsa.card_create ∷ [];
        }
        else if is_negative alsa.create_client
        then record {
          code = alsa.card_create;
          state = s₂;
          calls = made ++ snd_card_free alsa.card ∷ [];
        }
        else if is_negative alsa.client_ctl
        then record {
          code = alsa.client_ctl;
          state = s₂;
          calls = asked ++ snd_card_free alsa.card ∷ [];
        }
        else record { code = pos 0; state = s₂; calls = asked })

-- `cmidid_midi_exit`.
unfoldable pub midi_exit : MidiState → List Call
midi_exit s = snd_seq_delete_kernel_client s.client ∷ snd_card_free s.card ∷ []
