-- ===== src/AppleMidi/Alsa/Note.antt =====
-- A note event as the payload of a packet.
use cmidid_kerneldriver.Base.{
  ℕ, true, false, List, [], ◌∷◌, some, ◌+◌, ◌*◌, ◌/◌, ◌%◌, ◌^◌, ◌≤◌, ◌≡◌, ◌⊎◌, inl, inr, refl,
  arith, ltb, leb, ◌&&◌, length, take,
}
use cmidid_kerneldriver.Base.Bits.{bit_and_high}
use cmidid_kerneldriver.AppleMidi.Message.{
  note_off_on, test_note_off_on, detect_format, encode_running_status, format_encode_running_status,
  encode_three_bytes, check_encode_running_status, update_running_status, get_timestamp,
}
use cmidid_kerneldriver.AppleMidi.RtpMidi.{
  MidiInfo, MidiSession, write_bytes, put_message, time_diff, encode_rest, encode_header,
}
use cmidid_kerneldriver.AppleMidi.RtpMidi.Commands.Writes.{take-write_bytes}
use cmidid_kerneldriver.AppleMidi.RtpMidi.Commands.RoundTrip.{encode_messages-without}
use cmidid_kerneldriver.AppleMidi.RtpMidi.Session.{packet_info, encode}
use cmidid_kerneldriver.AppleMidi.Alsa.{SeqEvent, note_message}

-- The status of a note on or a note off, with a channel.
abbrev pub IsNoteStatus : ℕ → Type 0
IsNoteStatus status = (status ≡ 0x80) ⊎ (status ≡ 0x90)

note_format :
    (status c : ℕ) → IsNoteStatus status → detect_format (status + c % 16) ≡ some note_off_on
unfolding detect_format test_note_off_on
note_format status c (inl e) =
    let mask = bit_and_high (128 + c % 16) (omega arith) in
    let high : (128 + c % 16) / 16 * 16 ≡ 128 = omega arith in rw (e, mask, high) refl
note_format status c (inr e) =
    let mask = bit_and_high (144 + c % 16) (omega arith) in
    let high : (144 + c % 16) / 16 * 16 ≡ 144 = omega arith in rw (e, mask, high) refl

-- The bytes of the message.
abbrev pub note_bytes : ℕ → SeqEvent → List ℕ
note_bytes status ev = (status + ev.channel % 2 ^ 4) ∷ ev.note ∷ ev.velocity ∷ []

encode_note :
    (status : ℕ) (ev : SeqEvent) (size : ℕ)
    → IsNoteStatus status
    → 3 ≤ size
    → encode_running_status (note_message status ev) (some 0) size ≡ record {
      code = 0;
      status = some (status + ev.channel % 16);
      bytes = some (note_bytes status ev);
    }
unfolding encode_running_status format_encode_running_status encode_three_bytes
    check_encode_running_status update_running_status
encode_note status ev size known room =
    let first : leb 0x80 (status + ev.channel % 16) && leb (status + ev.channel % 16) 0xef ≡ true =
      elim known [ inl e ↦ ground arith | inr e ↦ ground arith ] in
    let fits : ltb size 3 ≡ false = ground arith in
    rw (note_format status ev.channel known, first, fits) refl

module _ (refs : ℕ) (info : MidiInfo) (buffer : List ℕ) (len : length buffer ≡ 512) where
  abbrev pub midi : MidiSession
  midi = record { refs = refs; midi_info = info; size = 512; buffer = buffer }

  -- The packet info: the section header is one byte, the length 3, and the list the one message.
  pub encode-note :
      (status : ℕ) (ev : SeqEvent) (w : ℕ)
      → IsNoteStatus status
      → (encode midi (note_message status ev) [] w).1
        ≡ packet_info 0 (3 ∷ []) (note_bytes status ev)
  unfolding encode encode_header put_message encode_rest get_timestamp time_diff
  encode-note status ev w known =
      let cleared : MidiInfo = record info { journal = 0; phantom = 0; zero_delta = 0 } in
      let written =
        encode_messages-without cleared 0 (note_message status ev) [] 512 buffer w refl refl in
      let bytes = encode_note status ev 512 known (omega arith) in
      let taken : take 3 (write_bytes buffer 0 (note_bytes status ev)) ≡ note_bytes status ev =
        take-write_bytes (note_bytes status ev) buffer 0 (omega (arith, len)) in
      rw (written, bytes, taken) refl
