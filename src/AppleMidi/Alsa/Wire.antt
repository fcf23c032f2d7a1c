-- ===== src/AppleMidi/Alsa/Wire.antt =====
-- A note event on its way from the sequencer to the network.
use cmidid_kerneldriver.Base.{
  ℕ, true, false, List, [], ◌∷◌, some, pos, ◌^◌, ◌<◌, ◌≤◌, ◌≡◌, ◌⊎◌, inl, inr, refl, sym, ap, ◌∙◌,
  arith, ◌==◌, if◌then◌else◌, length, All,
}
use cmidid_kerneldriver.AppleMidi.Rtp.Peer.{Peer}
use cmidid_kerneldriver.AppleMidi.Rtp.Table.{next_peer, first_peer}
use cmidid_kerneldriver.AppleMidi.Rtp.Table.Walk.{pointers, IsDistinct}
use cmidid_kerneldriver.AppleMidi.Rtp.Packet.{
  PacketInfo, Session, Answer, Datagram, prepare, datagram_to,
}
use cmidid_kerneldriver.AppleMidi.Rtp.Packet.Header.{
  Header, read_header, fields, IsInRange, read_header-encode_header,
}
use cmidid_kerneldriver.AppleMidi.Rtp.Packet.Sequence.{numbered, payload}
use cmidid_kerneldriver.AppleMidi.RtpMidi.{MidiInfo, MidiSession}
use cmidid_kerneldriver.AppleMidi.RtpMidi.Session.{packet_info, send, send_loop}
use cmidid_kerneldriver.AppleMidi.RtpMidi.Session.Visits.{
  Marking, IsSendable, IsListed, names, addresses, address_of, send_loop-visits,
}
use cmidid_kerneldriver.AppleMidi.Driver.{AppleMidiDriver}
use cmidid_kerneldriver.AppleMidi.Alsa.{
  SeqEvent, stuck, returned, note_message, finish_input, send_note, input_locked, alsa_input,
}
use cmidid_kerneldriver.AppleMidi.Alsa.Note.{IsNoteStatus, note_bytes, midi, encode-note}

-- The buffers of the packet info hold the bytes.
record Carries (bytes : List ℕ) (info : PacketInfo) : Type 0 where
  in_range : IsInRange info
  no_csrc : info.csrc_count ≡ 0
  midi_type : info.payload_type ≡ 97
  carried : payload info ≡ bytes

-- A reader of the format finds the bytes after the header, and the session's SSRC in it.
pub record IsRead (rtp : Session) (bytes : List ℕ) (d : Datagram) : Type 0 where
  pub from_session : (read_header d.bytes).ssrc ≡ rtp.self.ssrc
  pub sequenced : (read_header d.bytes).payload_type ≡ 97
  pub rest_read : (read_header d.bytes).rest ≡ bytes

module _ (rtp : Session) (bytes : List ℕ) (known : rtp.self.ssrc < 2 ^ 32)
    (room : 12 ≤ rtp.buflen) where
  numbered-IsInRange :
      (info : PacketInfo) (peer : Peer) → IsInRange info → IsInRange (numbered rtp peer info)
  numbered-IsInRange info peer r = record {
    counted = r.counted;
    held = r.held;
    typed = r.typed;
    numbered = omega arith;
    timed = r.timed;
    sourced = known;
    contributed = r.contributed;
  }

  prepared-IsRead :
      (info : PacketInfo) (peer : Peer)
      → Carries bytes info
      → let (info', sent) = prepare rtp info peer in
        Carries bytes info' × IsRead rtp bytes (datagram_to rtp peer info' sent)
  unfolding prepare datagram_to fields
  prepared-IsRead info peer c =
      let r = numbered-IsInRange info peer c.in_range in
      let (fits, ok) = read_header-encode_header (numbered rtp peer info) rtp.buflen r in
      let (header, e, len, reads) = ok (omega (arith, c.no_csrc, room)) (payload info) in
      (
        record {
          in_range = record {
            counted = r.counted;
            held = r.held;
            typed = r.typed;
            numbered = r.numbered;
            timed = r.timed;
            sourced = r.sourced;
            contributed = r.contributed;
          };
          no_csrc = c.no_csrc;
          midi_type = c.midi_type;
          carried = c.carried;
        },
        record {
          from_session = rw e (ap (λ (h : Header). h.ssrc) reads);
          sequenced = rw e (ap (λ (h : Header). h.payload_type) reads ∙ c.midi_type);
          rest_read = rw e (ap (λ (h : Header). h.rest) reads ∙ c.carried);
        },
      )

  reading : Marking rtp
  reading = record {
    Keep = Carries bytes;
    Mark = IsRead rtp bytes;
    for_peer = λ info h c. record {
      in_range = record {
        counted = c.in_range.counted;
        held = c.in_range.held;
        typed = c.in_range.typed;
        numbered = c.in_range.numbered;
        timed = c.in_range.timed;
        sourced = c.in_range.sourced;
        contributed = c.in_range.contributed;
      };
      no_csrc = c.no_csrc;
      midi_type = c.midi_type;
      carried = c.carried;
    };
    prepared = prepared-IsRead;
  }

-- The event types of ALSA, with the status that they give.
abbrev pub IsNote : ℕ → ℕ → Type 0
IsNote type status = ((type ≡ 6) × (status ≡ 0x90)) ⊎ ((type ≡ 7) × (status ≡ 0x80))

input_locked-note :
    (d : AppleMidiDriver) (s : MidiSession) (ev : SeqEvent) (status w : ℕ) (answers : ℕ → Answer)
    → IsNote ev.type status
    → input_locked d s ev w answers ≡ send_note d s (note_message status ev) w answers
input_locked-note d s ev status w answers (inl (t, is_on)) =
    let e : (ev.type == 6) ≡ true = ground arith in
    rw e (ap (λ st. send_note d s (note_message st ev) w answers) (sym is_on))
input_locked-note d s ev status w answers (inr (t, is_off)) =
    let e : (ev.type == 6) ≡ false = ground arith in
    let f : (ev.type == 7) ≡ true = ground arith in
    rw (e, f) (ap (λ st. send_note d s (note_message st ev) w answers) (sym is_off))

note_status : (type status : ℕ) → IsNote type status → IsNoteStatus status
note_status type status (inl (t, e)) = inr e
note_status type status (inr (t, e)) = inl e

note_packet-Carries :
    (status : ℕ) (ev : SeqEvent)
    → Carries (3 ∷ note_bytes status ev) (packet_info 0 (3 ∷ []) (note_bytes status ev))
note_packet-Carries status ev = record {
  in_range = record {
    counted = omega arith;
    held = omega arith;
    typed = omega arith;
    numbered = omega arith;
    timed = omega arith;
    sourced = omega arith;
    contributed = omega arith;
  };
  no_csrc = refl;
  midi_type = refl;
  carried = refl;
}

-- A note on or a note off from the sequencer, when the lock is free: the callback returns 0 and
-- gives the lock back, and every peer of the table has been sent, in the order of the slots, one
-- packet. For readers of the formats that is an RTP packet of the session with the payload type 97,
-- whose payload is a section header of length 3 and the note message. The conditions: the MIDI session
-- has its buffer of 512 bytes, the RTP session a buffer of at least 12 and an SSRC of 32 bits, the
-- table has 16 slots, no peer in two of them, and all peers are allocated.
pub alsa_input-note :
    (d : AppleMidiDriver) (refs : ℕ) (info : MidiInfo) (buffer : List ℕ) (ev : SeqEvent)
    (status w : ℕ) (answers : ℕ → Answer)
    → d.locked ≡ false
    → IsNote ev.type status
    → (len : length buffer ≡ 512) → d.rtp.self.ssrc < 2 ^ 32
    → 12 ≤ d.rtp.buflen
    → length d.rtp.peers ≡ 16
    → IsDistinct d.rtp.peers
    → All (IsListed (address_of d.heap)) (pointers d.rtp.peers)
    → (d' : AppleMidiDriver) × (s : MidiSession) × (ds : List Datagram) × (alsa_input d
          (record { refs = refs; midi_info = info; size = 512; buffer = buffer })
          ev
          w
          answers
        ≡ returned 0 d' s ds)
      × (d'.locked ≡ false)
      × (names ds ≡ addresses (address_of d.heap) (pointers d.rtp.peers))
      × All (IsRead d.rtp (3 ∷ note_bytes status ev)) ds
unfolding alsa_input send next_peer reading
alsa_input-note d refs info buffer ev status w answers free note len known room full distinct
      listed =
    let held : AppleMidiDriver = record d { locked = true } in
    let s = midi refs info buffer len in
    let m = note_message status ev in
    let packet = encode-note refs info buffer len status ev w (note_status ev.type status note) in
    let can : IsSendable (packet_info 0 (3 ∷ []) (note_bytes status ev)) = record {
      no_extension = refl;
      no_padding = refl;
      buffered = omega arith;
    } in
    let (all, sent, goes, reads) =
      send_loop-visits d.rtp (reading d.rtp (3 ∷ note_bytes status ev) known room) answers
        (address_of d.heap) [] d.rtp.peers refl distinct listed 17 (omega arith) _ can
        (note_packet-Carries status ev) (pos 0) d.heap (λ g. refl) in
    let sends : (send s d.rtp d.heap m [] w answers).1 ≡ some all =
      ap (λ p. send_loop 17 d.rtp p answers (pos 0) d.heap (first_peer d.rtp.peers)) packet
      ∙ sent in
    (
      record held { locked = false; heap = all.heap },
      (send s d.rtp d.heap m [] w answers).0,
      all.datagrams,
      ap (λ b. if b then stuck else input_locked held s ev w answers) free
          ∙ input_locked-note held s ev status w answers note
          ∙ ap (finish_input held (send s d.rtp d.heap m [] w answers).0) sends,
      refl,
      goes,
      reads,
    )
