-- ===== src/AppleMidi/Rtp/Packet.antt =====
-- The packets of applemidi/rtp.c. A buffer is the list of the bytes written to it; shifts and
-- masks are quotients and remainders, and `|` of operands that share no bit is a sum.
pub mod Header
pub mod Sequence
use cmidid_kerneldriver.Base.{
  ℕ, zero, suc, Bool, true, false, List, [], ◌∷◌, ◌++◌, Option, none, some, ℤ, pos, negsuc, ◌+◌,
  ◌*◌, ◌/◌, ◌%◌, ◌^◌, ◌==◌, ◌&&◌, ltb, if◌then◌else◌, length, get_or, set, take,
}
use cmidid_kerneldriver.Base.Int.{to_unsigned}
use cmidid_kerneldriver.Base.Flags.{flag}
use cmidid_kerneldriver.AppleMidi.Rtp.Peer.{Peer, Address, SockAddr, Heap, get_peer, release_peer}
use cmidid_kerneldriver.AppleMidi.Rtp.Table.{Slots, max_peers}

-- `struct RTPPacketInfo`; the `iov` is the list of the buffers.
pub record PacketInfo : Type 0 where
  pub peer : Option ℕ
  pub padding : ℕ
  pub extension : ℕ
  pub csrc_count : ℕ
  pub marker : ℕ
  pub payload_type : ℕ
  pub sequence_number : ℕ
  pub timestamp : ℕ
  pub ssrc : ℕ
  pub csrc : List ℕ
  pub total_size : ℕ
  pub payload_size : ℕ
  pub iovlen : ℕ
  pub iov : List (List ℕ)

-- A word of 32 bits, the high byte first.
abbrev pub word_bytes : ℕ → List ℕ
word_bytes w = w / 2 ^ 24 % 2 ^ 8 ∷ w / 2 ^ 16 % 2 ^ 8 ∷ w / 2 ^ 8 % 2 ^ 8 ∷ w % 2 ^ 8 ∷ []

-- The loop over `csrc`. An entry past the array is read as 0.
unfoldable pub csrc_bytes : List ℕ → ℕ → List ℕ
csrc_bytes csrc zero = []
csrc_bytes [] (suc n) = word_bytes 0 ++ csrc_bytes [] n
csrc_bytes (w ∷ csrc) (suc n) = word_bytes w ++ csrc_bytes csrc n

-- The header, 12 bytes and the sources.
unfoldable pub header_bytes : PacketInfo → List ℕ
header_bytes info =
    (0x80 + flag info.padding 0x20 + flag info.extension 0x10 + info.csrc_count % 2 ^ 4)
      ∷ (info.payload_type % 2 ^ 7 + flag info.marker 0x80)
      ∷ info.sequence_number / 2 ^ 8 % 2 ^ 8
      ∷ info.sequence_number % 2 ^ 8
      ∷ word_bytes info.timestamp
    ++ word_bytes info.ssrc
    ++ csrc_bytes info.csrc info.csrc_count

-- `_rtp_encode_header`: the bytes written, or `none` for the code 1.
unfoldable pub encode_header : PacketInfo → ℕ → Option (List ℕ)
encode_header info size =
    if ltb size (12 + info.csrc_count * 4) then none else some (header_bytes info)

-- `struct RTPSession`. Its `info` and its `iov` are set and never read.
pub record Session : Type 0 where
  pub refs : ℕ
  pub socket : ℕ
  pub self : Address
  pub peers : Slots
  pub buflen : ℕ

-- What `sock_sendmsg` is handed, and what it answers: the count or error, and `msg_flags`.
pub record Datagram : Type 0 where
  pub socket : ℕ
  pub name : SockAddr
  pub namelen : ℕ
  pub bytes : List ℕ
  pub size : ℕ

pub record Answer : Type 0 where
  pub sent : ℤ
  pub flags : ℕ

-- The code, the packet info, the heap and the datagram.
pub record Sent : Type 0 where
  pub code : ℤ
  pub info : PacketInfo
  pub heap : Heap
  pub datagram : Option Datagram

abbrev pub concat : List (List ℕ) → List ℕ
concat [] = []
concat (xs ∷ xss) = xs ++ concat xss

abbrev or_empty : Option (List ℕ) → List ℕ
or_empty none = []
or_empty (some bytes) = bytes

-- The packet info as it is filled in, and the bytes of the buffers: a header that does not fit is
-- left out, since the code of the encoder is not looked at.
unfoldable pub prepare : Session → PacketInfo → Peer → PacketInfo × List ℕ
prepare session info peer =
    let numbered : PacketInfo = record info {
      ssrc = session.self.ssrc;
      sequence_number = (peer.out_seqnum + 1) % 2 ^ 16;
    } in
    let header = or_empty (encode_header numbered session.buflen) in
    let payload = concat (take info.iovlen info.iov) in
    let total = (length header + length payload) % 2 ^ 32 in
    (record numbered { payload_size = length payload; total_size = total }, header ++ payload)

unfoldable pub datagram_to : Session → Peer → PacketInfo → List ℕ → Datagram
datagram_to session peer info bytes = record {
  socket = session.socket;
  name = peer.address.addr;
  namelen = peer.address.size;
  bytes = bytes;
  size = info.total_size;
}

-- What follows `sock_sendmsg`: the peer is updated only if all bytes were taken.
unfoldable pub after_send : Heap → ℕ → Peer → PacketInfo → Datagram → Answer → Sent
after_send heap h peer info datagram answer =
    let sent : Peer = record peer {
      out_seqnum = info.sequence_number;
      out_timestamp = info.timestamp;
    } in
    if to_unsigned answer.sent == info.total_size
    then if answer.flags == 0
      then record {
        code = pos 0;
        info = info;
        heap = set heap h (some sent);
        datagram = some datagram;
      }
      else record { code = pos 1; info = info; heap = heap; datagram = some datagram }
    else record { code = answer.sent; info = info; heap = heap; datagram = some datagram }

unfoldable pub finish_send : Session → Heap → PacketInfo → ℕ → Peer → Answer → Sent
finish_send session heap info h peer answer =
    let (info', bytes) = prepare session info peer in
    after_send heap h peer info' (datagram_to session peer info' bytes) answer

abbrev send_live : Session → Heap → PacketInfo → ℕ → Option Peer → Answer → Option Sent
send_live session heap info h none answer = none
send_live session heap info h (some peer) answer =
    some (finish_send session heap info h peer answer)

abbrev send_to : Session → Heap → PacketInfo → Option ℕ → Answer → Option Sent
send_to session heap info none answer =
    some (record { code = pos 1; info = info; heap = heap; datagram = none })
send_to session heap info (some h) answer =
    if ltb 16 info.iovlen
    then some (record { code = pos 1; info = info; heap = heap; datagram = none })
    else if (info.extension == 0) && (info.padding == 0)
    then send_live session heap info h (get_peer heap h) answer
    else none

-- `RTPSessionSendPacket`. The result is `none` where the behaviour is undefined: a peer that was
-- freed, and an extension or padding, for which the encoders are handed the address of the local
-- pointer in place of the buffer.
unfoldable pub send_packet : Session → Heap → PacketInfo → Answer → Option Sent
send_packet session heap info answer = send_to session heap info info.peer answer

-- A new session.
unfoldable pub new_session : ℕ → ℕ → Bool → Session
new_session socket random allocated = record {
  refs = 1;
  socket = socket;
  self = record { ssrc = random; size = 16; addr = record { sin_addr = 0; sin_port = 0 } };
  peers =
      none ∷ none ∷ none ∷ none ∷ none ∷ none ∷ none ∷ none ∷ none ∷ none ∷ none ∷ none ∷ none
      ∷ none ∷ none ∷ none ∷ [];
  buflen = if allocated then 512 else 0;
}

-- `RTPSessionCreate`, with the result of `get_random_bytes` and whether the session and its buffer
-- are allocated; the first is written through without a test.
unfoldable pub create_session : Bool → ℕ → ℕ → Bool → Option Session
create_session memory socket random allocated =
    if memory then some (new_session socket random allocated) else none

-- `RTPSessionDestroy`: every peer of the table is released.
unfoldable pub release_all : Slots → Heap → Heap
release_all [] heap = heap
release_all (none ∷ slots) heap = release_all slots heap
release_all (some h ∷ slots) heap = release_all slots (release_peer heap h)

-- `RTPSessionRetain` and `RTPSessionRelease`; `none` once the session is destroyed.
unfoldable pub retain_session : Session → Session
retain_session s = record s { refs = (s.refs + 1) % 2 ^ 32 }

unfoldable pub release_session : Session → Heap → Option Session × Heap
release_session s heap =
    let refs = (s.refs + 0xffffffff) % 2 ^ 32 in
    if refs == 0 then (none, release_all s.peers heap) else (some (record s { refs = refs }), heap)

-- `RTPSessionGetSSRC`, the pointer given.
unfoldable pub get_ssrc : Session → ℕ
get_ssrc s = s.self.ssrc
