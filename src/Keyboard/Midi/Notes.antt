-- ===== src/Keyboard/Midi/Notes.antt =====
-- What the sequencer is handed, and how transpositions add up.
use cmidid_kerneldriver.Base.{
  ℕ, ℤ, pos, negsuc, ◌+◌, ◌%◌, ◌^◌, ◌≤◌, ◌<◌, ◌≡◌, arith, All, ltb, if◌then◌else◌,
}
use cmidid_kerneldriver.Base.Int.{signed8, ◌+ℤ◌}
use cmidid_kerneldriver.Keyboard.Kernel.{NoteKind, NoteEvent}
use cmidid_kerneldriver.Keyboard.Midi.{
  MidiState, transpose_by, config_note_event, send_note_on, send_note_off,
}

-- A MIDI data byte has seven bits.
pub record IsPlayable (s : MidiState) (e : NoteEvent) : Type 0 where
  pub note : e.note ≤ 127
  pub velocity : e.velocity ≤ 127
  pub off_velocity : e.off_velocity ≤ 127
  pub channel : e.channel ≡ s.midi_channel
  pub source : e.source_client ≡ s.client

pub config_note_event-IsPlayable :
    (s : MidiState) (n v : ℕ) (k : NoteKind) → IsPlayable s (config_note_event s n v k)
unfolding config_note_event
config_note_event-IsPlayable s n v k = ground arith

-- All that is handed to the sequencer, by a note on or a note off of any note and velocity, has data
-- bytes of seven bits, the configured channel and the driver as its source.
pub send-IsPlayable :
    (s : MidiState) (n v : ℕ)
    → All (IsPlayable s) (send_note_on s n v) × All (IsPlayable s) (send_note_off s n)
unfolding send_note_on send_note_off
send-IsPlayable s n v = (ground arith, ground arith)

-- The pitch that is sent for an integer: 127 for all that is not a pitch.
abbrev pub in_range : ℤ → ℕ
in_range (pos n) = if ltb n 127 then n else 127
in_range (negsuc n) = 127

-- For a note of at most 127, the pitch that is sent is the note plus the signed transposition, where
-- that sum is from 0 to 127; a sum below 0 is sent as pitch 127, and so is a sum above 127.
pub pitch-transpose :
    (s : MidiState) (n v : ℕ) (k : NoteKind)
    → n ≤ 127
    → s.transpose < 256
    → (config_note_event s n v k).note ≡ in_range (pos n +ℤ signed8 s.transpose)
unfolding config_note_event ◌+ℤ◌
pitch-transpose s n v k hn ht = ground arith

-- Two transpositions in a row leave the state, and return the value, of one by the wrapped sum.
pub transpose_twice :
    (s : MidiState) (a b : ℕ)
    → transpose_by (transpose_by s a).0 b ≡ transpose_by s ((a + b) % 2 ^ 8)
unfolding transpose_by
transpose_twice s a b =
    let e : ((s.transpose + a) % 2 ^ 8 + b) % 2 ^ 8 ≡ (s.transpose + (a + b) % 2 ^ 8) % 2 ^ 8 =
      omega arith in
    λ i. (record s { transpose = e i }, signed8 (e i))
