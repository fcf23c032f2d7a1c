-- ===== src/AppleMidi/RtpMidi/Commands.antt =====
-- The list of commands in the MIDI command section against a reader of the format that RFC 6295
-- gives.
pub mod Writes
pub mod RoundTrip
use cmidid_kerneldriver.Base.{
  ℕ, zero, suc, Bool, true, false, List, [], ◌∷◌, ◌++◌, Option, none, some, ◌+◌, ◌-◌, ◌*◌, ◌%◌, ◌^◌,
  ◌<◌, ◌≤◌, ◌≡◌, refl, sym, ap, ◌∙◌, ◌==◌, ==_iff, ltb, not, if◌then◌else◌, length, take, drop,
  drop-append, length-append, append_assoc, append-nil, arith, Bool-cases, inl, inr, ◌⊎◌,
}
use cmidid_kerneldriver.Base.Flags.{is_set}
use cmidid_kerneldriver.AppleMidi.Message.{
  Message, MessageData, RunningStatus, Encoded, Decoded, encode_three_bytes, decode_three_bytes,
  note_off_on, encode_running_status, format_encode_running_status, get_timestamp,
}
use cmidid_kerneldriver.AppleMidi.Message.Running.{IsChannel, decode_three_bytes-encode_three_bytes}
use cmidid_kerneldriver.AppleMidi.RtpMidi.{
  MidiInfo, Cursor, write_bytes, put, advance, put_var_len, put_message, time_diff, encode_rest,
  encode_first, encode_messages,
}
use cmidid_kerneldriver.AppleMidi.RtpMidi.VarLen.{
  read_var_len, var_len, length-var_len, read_var_len-var_len, write_var_len-fits,
}
use cmidid_kerneldriver.AppleMidi.RtpMidi.Commands.Writes.{
  Appends, IsHeld, Appends-refl, Appends-put, Appends-trans, IsHeld-Appends,
}

-- A message with the time since the one before it.
abbrev pub Timed : Type 0
Timed = ℕ × MessageData

abbrev pub Reading : Type 0
Reading = Option (List Timed × List ℕ)

abbrev cons_timed : Timed → Reading → Reading
cons_timed t none = none
cons_timed t (some (ts, rest)) = some (t ∷ ts, rest)

abbrev with_message :
    ℕ
    → List ℕ
    → RunningStatus
    → Option (MessageData × ℕ)
    → (RunningStatus → List ℕ → Reading)
    → Reading
with_message delta bytes status none next = none
with_message delta bytes status (some (m, read)) next =
    cons_timed (delta, m) (next status (drop read bytes))

abbrev after_message : ℕ → List ℕ → Decoded → (RunningStatus → List ℕ → Reading) → Reading
after_message delta bytes decoded next =
    if decoded.code == 0 then with_message delta bytes decoded.status decoded.message next else none

-- A message of the list, and what the reading goes on with.
read_message : RunningStatus → ℕ → List ℕ → (RunningStatus → List ℕ → Reading) → Reading
read_message status delta bytes next =
    after_message delta bytes (decode_three_bytes status (length bytes) bytes) next

abbrev with_delta : Option (ℕ × List ℕ) → (ℕ → List ℕ → Reading) → Reading
with_delta none next = none
with_delta (some (delta, bytes)) next = next delta bytes

-- `count` messages, each after a time difference.
read_rest : ℕ → RunningStatus → List ℕ → Reading
read_rest zero status bytes = some ([], bytes)
read_rest (suc count) status bytes = with_delta (read_var_len 0 bytes) (λ delta bytes'.
    read_message status delta bytes' (λ status' rest. read_rest count status' rest))

-- The reader: the flag Z tells whether the first message has a time difference.
pub read_commands : Bool → ℕ → List ℕ → Reading
read_commands has_zero zero bytes = some ([], bytes)
read_commands true (suc count) bytes = read_rest (suc count) (some 0) bytes
read_commands false (suc count) bytes =
    read_message (some 0) 0 bytes (λ status rest. read_rest count status rest)

-- The messages with their time differences.
pub timed : ℕ → List Message → List Timed
timed t [] = []
timed t (m ∷ ms) = (time_diff t m.timestamp, m.content) ∷ timed m.timestamp ms

-- Note messages, each less than 2^28 ticks after the one before it.
abbrev pub IsPaced : ℕ → List Message → Type 0
IsPaced t [] = Unit
IsPaced t (m ∷ ms) =
    IsChannel m.content
    × (m.format ≡ some note_off_on)
    × (time_diff t m.timestamp < 2 ^ 28)
    × IsPaced m.timestamp ms
