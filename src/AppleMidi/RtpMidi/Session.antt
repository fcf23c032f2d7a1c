-- ===== src/AppleMidi/RtpMidi/Session.antt =====
-- The sessions of applemidi/rtpmidi.c: creation, release, and sending to all peers.
pub mod Visits
use cmidid_kerneldriver.Base.{
  ℕ, zero, suc, Bool, true, false, List, [], ◌∷◌, ◌++◌, Option, none, some, ℤ, pos, negsuc, ◌+◌,
  ◌-◌, ◌%◌, ◌^◌, ◌==◌, if◌then◌else◌, length, take, drop, replicate,
}
use cmidid_kerneldriver.AppleMidi.Message.{Message, get_timestamp}
use cmidid_kerneldriver.AppleMidi.Rtp.Peer.{Heap}
use cmidid_kerneldriver.AppleMidi.Rtp.Table.{Slots, next_peer}
use cmidid_kerneldriver.AppleMidi.Rtp.Table.Walk.{next_or_same}
use cmidid_kerneldriver.AppleMidi.Rtp.Packet.{
  PacketInfo, Session, Answer, Sent, Datagram, send_packet, retain_session, release_session,
}
use cmidid_kerneldriver.AppleMidi.RtpMidi.{
  MidiInfo, Cursor, MidiSession, write_bytes, encode_messages, encode_header,
}

-- `RTPMIDISessionCreate`, `bytes` being what the new buffer holds, or `none` if it is not
-- allocated. The result is `none` if the session is not allocated.
unfoldable pub create : Bool → Option (List ℕ) → Session → Option (MidiSession × Session)
create false bytes rtp = none
create true bytes rtp =
    let info : MidiInfo = record { journal = 0; zero_delta = 0; phantom = 0; len = 0 } in
    let session : MidiSession = elim bytes [
      | none ↦ record { refs = 1; midi_info = info; size = 0; buffer = [] }
      | some bs ↦ record { refs = 1; midi_info = info; size = 512; buffer = take 512 bs }
    ] in
    some (session, retain_session rtp)

-- `RTPMIDISessionRetain`.
unfoldable pub retain : MidiSession → MidiSession
retain s = record s { refs = (s.refs + 1) % 2 ^ 32 }

-- `RTPMIDISessionRelease` and `RTPMIDISessionDestroy`: what is left of both sessions, and the heap
-- of the peers.
unfoldable pub release : MidiSession → Session → Heap → Option MidiSession × Option Session × Heap
release s rtp heap =
    let refs = (s.refs + 0xffffffff) % 2 ^ 32 in
    if refs == 0
    then (let (rtp', heap') = release_session rtp heap in (none, rtp', heap'))
    else (some (record s { refs = refs }), some rtp, heap)

-- The packet info that `RTPMIDISessionSend` fills in before the peers are visited.
abbrev pub packet_info : ℕ → List ℕ → List ℕ → PacketInfo
packet_info timestamp header commands = record {
  peer = none;
  padding = 0;
  extension = 0;
  csrc_count = 0;
  marker = 0;
  payload_type = 97;
  sequence_number = 0;
  timestamp = timestamp;
  ssrc = 0;
  csrc = replicate 16 0;
  total_size = 0;
  payload_size = 0;
  iovlen = 2;
  iov = header ∷ commands ∷ [];
}

abbrev pub or_stale : List ℕ → Option (List ℕ) → List ℕ
or_stale stale none = stale
or_stale stale (some bytes) = bytes

-- The packet info with the two buffers that are sent, and the session's buffer: the header of the command section, which is written after the
-- commands, and the commands. A header that is refused leaves the count that the commands had, so
-- that many stale bytes of the buffer are sent for it. The `long long` timestamp is cut to 32 bits.
unfoldable pub encode : MidiSession → Message → List Message → ℕ → MidiInfo × PacketInfo × List ℕ
encode s m ms w =
    let cleared : MidiInfo = record s.midi_info { journal = 0; phantom = 0; zero_delta = 0 } in
    let (info, c) = encode_messages cleared (get_timestamp m) (m ∷ ms) s.size s.buffer w in
    let commands = take c.position c.buffer in
    let left = (s.size + 2 ^ 32 - c.position % 2 ^ 32) % 2 ^ 32 in
    let header = or_stale (take c.position (drop c.position c.buffer)) (encode_header info left) in
    let buffer = write_bytes c.buffer c.position (or_stale [] (encode_header info left)) in
    (info, packet_info (get_timestamp m % 2 ^ 32) header commands, buffer)

-- The code of the last packet sent and the datagrams in order.
pub record SentAll : Type 0 where
  pub code : ℤ
  pub heap : Heap
  pub datagrams : List Datagram

abbrev cons_datagram : Option Datagram → List Datagram → List Datagram
cons_datagram none ds = ds
cons_datagram (some d) ds = d ∷ ds

abbrev and_then : Option Datagram → Option SentAll → Option SentAll
and_then d none = none
and_then d (some all) = some (record all { datagrams = cons_datagram d all.datagrams })

abbrev after_packet : Option Sent → (ℤ → Heap → PacketInfo → Option SentAll) → Option SentAll
after_packet none next = none
after_packet (some sent) next = and_then sent.datagram (next sent.code sent.heap sent.info)

-- The loop over the peers. `answers` are those of `sock_sendmsg` to one peer after another. The
-- result is `none` where the fuel does not suffice or the behaviour is undefined.
unfoldable pub send_loop :
    ℕ → Session → PacketInfo → (ℕ → Answer) → ℤ → Heap → Option ℕ → Option SentAll
send_loop zero rtp info answers code heap peer = none
send_loop (suc fuel) rtp info answers code heap none =
    some (record { code = code; heap = heap; datagrams = [] })
send_loop (suc fuel) rtp info answers code heap (some h) =
    after_packet (send_packet rtp heap (record info { peer = some h }) (answers h))
      (λ code' heap' info'.
        send_loop fuel rtp info' answers code' heap'
          (next_or_same (next_peer rtp.peers (some h)) h))

-- `RTPMIDISessionSend`: 17 passes are enough for the 16 slots. The code before the first peer is
-- that of `RTPSessionNextPeer`.
unfoldable pub send :
    MidiSession
    → Session
    → Heap
    → Message
    → List Message
    → ℕ
    → (ℕ → Answer)
    → MidiSession × Option SentAll
send s rtp heap m ms w answers =
    let (info, packet, buffer) = encode s m ms w in
    let first = elim (next_peer rtp.peers none) as (λ n. Option ℕ) [ none ↦ none | some p ↦ p ] in
    (
      record s { midi_info = info; buffer = buffer },
      send_loop 17 rtp packet answers (pos 0) heap first,
    )
