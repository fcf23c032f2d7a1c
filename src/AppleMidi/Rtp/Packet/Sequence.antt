-- ===== src/AppleMidi/Rtp/Packet/Sequence.antt =====
-- What is sent to a peer, and how the packets are numbered.
use cmidid_kerneldriver.Base.{
  ℕ, zero, suc, Bool, true, false, List, [], ◌∷◌, ◌++◌, Option, none, some, ℤ, pos, negsuc, ◌+◌,
  ◌*◌, ◌%◌, ◌^◌, ◌≡◌, refl, ap, ◌<◌, ◌≤◌, ◌≢◌, ◌⊎◌, ◌==◌, ltb, if◌then◌else◌, length, length-append,
  set, take, All, arith, Bool-cases, inl, inr,
}
use cmidid_kerneldriver.Base.Int.{to_unsigned}
use cmidid_kerneldriver.AppleMidi.Rtp.Peer.{Peer, Heap, get_peer}
use cmidid_kerneldriver.AppleMidi.Rtp.Peer.Live.{get_peer-set}
use cmidid_kerneldriver.AppleMidi.Rtp.Packet.{
  PacketInfo, Session, Answer, Sent, Datagram, prepare, datagram_to, after_send, finish_send,
  send_packet, concat,
}
use cmidid_kerneldriver.AppleMidi.Rtp.Packet.Header.{
  IsInRange, read_header, fields, read_header-encode_header,
}

-- A packet info that `RTPMIDISessionSend` hands over: for the peer, with no extension and no
-- padding, and with at most 16 buffers.
pub record IsPlain (info : PacketInfo) (h : ℕ) : Type 0 where
  pub for_peer : info.peer ≡ some h
  pub no_extension : info.extension ≡ 0
  pub no_padding : info.padding ≡ 0
  pub buffered : info.iovlen ≤ 16

pub send_packet-finish :
    (session : Session) (heap : Heap) (info : PacketInfo) (h : ℕ) (peer : Peer) (answer : Answer)
    → IsPlain info h
    → get_peer heap h ≡ some peer
    → send_packet session heap info answer ≡ some (finish_send session heap info h peer answer)
unfolding send_packet
send_packet-finish session heap info h peer answer plain live =
    let few : ltb 16 info.iovlen ≡ false = ground (arith, plain.buffered) in
    rw (plain.for_peer, few, plain.no_extension, plain.no_padding, live) refl

-- The datagram of a send.
abbrev pub sent_datagram : Option Sent → Option Datagram
sent_datagram none = none
sent_datagram (some sent) = sent.datagram

-- The sequence numbers of the packets that are sent one after another, of those for which
-- `RTPSessionSendPacket` returns 0.
is_ok : ℤ → Bool
is_ok (pos n) = n == 0
is_ok (negsuc n) = false

abbrev accepted_step : Option Sent → (Heap → List ℕ) → List ℕ
accepted_step none rest = []
accepted_step (some sent) rest =
    if is_ok sent.code then sent.info.sequence_number ∷ rest sent.heap else rest sent.heap

pub accepted : Session → Heap → PacketInfo → List Answer → List ℕ
accepted session heap info [] = []
accepted session heap info (answer ∷ answers) =
    accepted_step (send_packet session heap info answer)
      (λ heap'. accepted session heap' info answers)

-- `count` numbers from `first` on, modulo 2^16.
pub numbers : ℕ → ℕ → List ℕ
numbers first zero = []
numbers first (suc count) = first % 2 ^ 16 ∷ numbers (first % 2 ^ 16 + 1) count

-- The number of the next packet.
abbrev next_number : Peer → ℕ
next_number peer = (peer.out_seqnum + 1) % 2 ^ 16

abbrev sent_peer : PacketInfo → Peer → Peer
sent_peer info peer = record peer { out_seqnum = next_number peer; out_timestamp = info.timestamp }

is_ok-nonzero : (z : ℤ) → z ≢ pos 0 → is_ok z ≡ false
unfolding is_ok
is_ok-nonzero (pos zero) n = absurd (n refl)
is_ok-nonzero (pos (suc k)) n = ground arith
is_ok-nonzero (negsuc k) n = refl

after_send-cases :
    (heap : Heap) (h : ℕ) (peer : Peer) (info : PacketInfo) (datagram : Datagram) (answer : Answer)
    → answer.sent ≢ pos 0
    → ((is_ok (after_send heap h peer info datagram answer).code ≡ true)
        × ((after_send heap h peer info datagram answer).heap
            ≡ set heap h (
                some (record peer {
                  out_seqnum = info.sequence_number;
                  out_timestamp = info.timestamp;
                }))))
      ⊎ ((is_ok (after_send heap h peer info datagram answer).code ≡ false)
          × ((after_send heap h peer info datagram answer).heap ≡ heap))
unfolding after_send is_ok
after_send-cases heap h peer info datagram answer n =
    elim (Bool-cases (to_unsigned answer.sent == info.total_size)) [
      | inl e ↦ elim (Bool-cases (answer.flags == 0)) [
        | inl f ↦ inl (rw (e, f) refl, rw (e, f) refl)
        | inr f ↦ inr (rw (e, f) refl, rw (e, f) refl)
      ]
      | inr e ↦ inr (rw e (is_ok-nonzero answer.sent n), rw e refl)
    ]

pub after_send-info :
    (heap : Heap) (h : ℕ) (peer : Peer) (info : PacketInfo) (datagram : Datagram) (answer : Answer)
    → (after_send heap h peer info datagram answer).info ≡ info
unfolding after_send
after_send-info heap h peer info datagram answer =
    elim (Bool-cases (to_unsigned answer.sent == info.total_size)) [
      | inl e ↦ elim (Bool-cases (answer.flags == 0)) [
        | inl f ↦ rw (e, f) refl
        | inr f ↦ rw (e, f) refl
      ]
      | inr e ↦ rw e refl
    ]

finish_send-cases :
    (session : Session) (heap : Heap) (info : PacketInfo) (h : ℕ) (peer : Peer) (answer : Answer)
    → answer.sent ≢ pos 0
    → ((is_ok (finish_send session heap info h peer answer).code ≡ true)
        × ((finish_send session heap info h peer answer).heap
            ≡ set heap h (some (sent_peer info peer))))
      ⊎ ((is_ok (finish_send session heap info h peer answer).code ≡ false)
          × ((finish_send session heap info h peer answer).heap ≡ heap))
unfolding finish_send prepare
finish_send-cases session heap info h peer answer n =
    let (info', bytes) = prepare session info peer in
    after_send-cases heap h peer info' (datagram_to session peer info' bytes) answer n

finish_send-number :
    (session : Session) (heap : Heap) (info : PacketInfo) (h : ℕ) (peer : Peer) (answer : Answer)
    → (finish_send session heap info h peer answer).info.sequence_number ≡ next_number peer
unfolding finish_send prepare
finish_send-number session heap info h peer answer =
    let (info', bytes) = prepare session info peer in
    ap (λ i. i.sequence_number)
      (after_send-info heap h peer info' (datagram_to session peer info' bytes) answer)

-- Of the packets sent one after another to a peer that is allocated, with no extension and no
-- padding and at most 16 buffers, those that are accepted carry consecutive sequence numbers, modulo
-- 2^16: one that fails uses none up. The answer 0 to a send is excluded, since the code takes it
-- for success and yet does not count it.
pub accepted-numbers :
    (session : Session) (info : PacketInfo) (h : ℕ)
    → IsPlain info h
    → (answers : List Answer) → All (λ answer. answer.sent ≢ pos 0) answers
    → (heap : Heap) (peer : Peer) → get_peer heap h ≡ some peer
    → let run = accepted session heap info answers in
      run ≡ numbers (peer.out_seqnum + 1) (length run)
unfolding accepted numbers
accepted-numbers session info h plain [] n heap peer live = refl
accepted-numbers session info h plain (answer ∷ answers) (n, ns) heap peer live =
    let s = send_packet-finish session heap info h peer answer plain live in
    elim (finish_send-cases session heap info h peer answer n) [
      | inl (ok, moved) ↦
          let heap' = set heap h (some (sent_peer info peer)) in
          let live' = get_peer-set heap h peer live (sent_peer info peer) in
          let rest =
            accepted-numbers session info h plain answers ns heap' (sent_peer info peer) live' in
          let number = finish_send-number session heap info h peer answer in
          rw (s, ok, moved, number) (ap (next_number peer ∷◌) rest)
      | inr (failed, kept) ↦
          let rest = accepted-numbers session info h plain answers ns heap peer live in
          rw (s, failed, kept) rest
    ]

after_send-datagram :
    (heap : Heap) (h : ℕ) (peer : Peer) (info : PacketInfo) (datagram : Datagram) (answer : Answer)
    → (after_send heap h peer info datagram answer).datagram ≡ some datagram
unfolding after_send
after_send-datagram heap h peer info datagram answer =
    elim (Bool-cases (to_unsigned answer.sent == info.total_size)) [
      | inl e ↦ elim (Bool-cases (answer.flags == 0)) [
        | inl f ↦ rw (e, f) refl
        | inr f ↦ rw (e, f) refl
      ]
      | inr e ↦ rw e refl
    ]

pub finish_send-datagram :
    (session : Session) (heap : Heap) (info : PacketInfo) (h : ℕ) (peer : Peer) (answer : Answer)
    → let (info', bytes) = prepare session info peer in
      (finish_send session heap info h peer answer).datagram
      ≡ some (datagram_to session peer info' bytes)
unfolding finish_send
finish_send-datagram session heap info h peer answer =
    let (info', bytes) = prepare session info peer in
    after_send-datagram heap h peer info' (datagram_to session peer info' bytes) answer

-- The packet info with what `RTPSessionSendPacket` fills in.
abbrev pub numbered : Session → Peer → PacketInfo → PacketInfo
numbered session peer info = record info {
  ssrc = session.self.ssrc;
  sequence_number = next_number peer;
}

abbrev pub payload : PacketInfo → List ℕ
payload info = concat (take info.iovlen info.iov)

-- What is sent to a peer is, for the reader of the format, the header with the next sequence
-- number of the peer and the SSRC of the session, followed by the buffers' bytes; it is addressed
-- to the peer, and its size is announced as it is. The conditions: the buffer of the session has
-- room for the header, the members are in range, and the size is below 2^32.
pub send_packet-read_header :
    (session : Session) (heap : Heap) (info : PacketInfo) (h : ℕ) (peer : Peer) (answer : Answer)
    → IsPlain info h
    → get_peer heap h ≡ some peer
    → IsInRange (numbered session peer info)
    → 12 + info.csrc_count * 4 ≤ session.buflen
    → 12 + info.csrc_count * 4 + length (payload info) < 2 ^ 32
    → (bytes : List ℕ) × (sent_datagram (send_packet session heap info answer)
        ≡ some (record {
          socket = session.socket;
          name = peer.address.addr;
          namelen = peer.address.size;
          bytes = bytes;
          size = length bytes;
        }))
      × (read_header bytes ≡ fields (numbered session peer info) (payload info))
unfolding prepare datagram_to
send_packet-read_header session heap info h peer answer plain live range room below =
    let (fits, ok) = read_header-encode_header (numbered session peer info) session.buflen range in
    let (header, e, len, r) = ok room (payload info) in
    let whole : (length header + length (payload info)) % 4294967296
        ≡ length (header ++ payload info) =
      omega (arith, length-append header (payload info)) in
    let s = send_packet-finish session heap info h peer answer plain live in
    let d = finish_send-datagram session heap info h peer answer in
    (header ++ payload info, rw (s, d, e, whole) refl, r)
