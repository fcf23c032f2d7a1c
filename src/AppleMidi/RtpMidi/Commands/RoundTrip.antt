-- ===== src/AppleMidi/RtpMidi/Commands/RoundTrip.antt =====
-- Encoding a list of messages, applemidi/rtpmidi.c, and reading it back.
use cmidid_kerneldriver.Base.{ℕ, true, false, List, ◌∷◌, some, ◌≡◌, refl, ◌==◌, take}
use cmidid_kerneldriver.AppleMidi.Message.{Message, get_timestamp}
use cmidid_kerneldriver.AppleMidi.RtpMidi.{
  MidiInfo, Cursor, put_message, time_diff, encode_rest, encode_messages,
}

-- The cursor that the encoder starts with.
abbrev pub start : ℕ → List ℕ → ℕ → Cursor
start size buffer w = record { buffer = buffer; position = 0; size = size; w = w; status = some 0 }

abbrev pub done : MidiInfo → ℕ → Cursor → MidiInfo × Cursor
done info z c = (record info { zero_delta = z; len = c.position }, c)

pub encode_messages-without :
    (info : MidiInfo) (t : ℕ) (m : Message) (ms : List Message) (size : ℕ) (buffer : List ℕ) (w : ℕ)
    → (size == 0) ≡ false
    → (time_diff t m.timestamp == 0) ≡ true
    → encode_messages info t (m ∷ ms) size buffer w
      ≡ done info 0 (encode_rest m.timestamp ms (put_message m (start size buffer w)))
unfolding encode_messages get_timestamp
encode_messages-without info t m ms size buffer w going e = rw (going, e) refl

-- The bytes that the encoder reports.
abbrev pub reported : MidiInfo × Cursor → List ℕ
reported (info, c) = take info.len c.buffer
