-- ===== src/Tests/Rtp.antt =====
-- Peers, packets and sessions with two peers, applemidi/rtp.c.
use cmidid_kerneldriver.Base.{
  ℕ, List, [], ◌∷◌, none, some, pos, negsuc, ◌≡◌, ◌≢◌, refl, ◌<◌, arith, All, length, replicate,
}
use cmidid_kerneldriver.AppleMidi.Rtp.Peer.{Peer, SockAddr, Heap}
use cmidid_kerneldriver.AppleMidi.Rtp.Table.{Slots, first_peer}
use cmidid_kerneldriver.AppleMidi.Rtp.Table.Walk.{IsDistinct, pointers}
use cmidid_kerneldriver.AppleMidi.Rtp.Packet.{PacketInfo, Session, Answer, send_packet}
use cmidid_kerneldriver.AppleMidi.Rtp.Packet.Header.{IsInRange, read_header, fields}
use cmidid_kerneldriver.AppleMidi.Rtp.Packet.Sequence.{
  IsPlain, accepted, numbers, accepted-numbers, sent_datagram, numbered, send_packet-read_header,
}
use cmidid_kerneldriver.AppleMidi.RtpMidi.Session.{SentAll, send_loop}
use cmidid_kerneldriver.AppleMidi.RtpMidi.Session.Visits.{IsSendable, names, send_loop-addresses}

abbrev peer : ℕ → ℕ → Peer
peer ssrc port = record {
  refs = 1;
  address = record {
    ssrc = ssrc;
    size = 16;
    addr = record { sin_addr = 0x0a000001; sin_port = port };
  };
  in_timestamp = 0;
  out_timestamp = 0;
  in_seqnum = 0;
  out_seqnum = 65534;
  info = none;
}

abbrev heap : Heap
heap = some (peer 19 5005) ∷ some (peer 35 5007) ∷ []

-- Both peers hash to the slot 3.
abbrev slots : Slots
slots = none ∷ none ∷ none ∷ some 0 ∷ some 1 ∷ replicate 11 none

slots-IsDistinct : IsDistinct slots
slots-IsDistinct = ground arith

abbrev info : PacketInfo
info = record {
  peer = some 0;
  padding = 0;
  extension = 0;
  csrc_count = 0;
  marker = 0;
  payload_type = 97;
  sequence_number = 0;
  timestamp = 70000;
  ssrc = 0;
  csrc = replicate 16 0;
  total_size = 0;
  payload_size = 0;
  iovlen = 2;
  iov = (3 ∷ []) ∷ (0x90 ∷ 60 ∷ 64 ∷ []) ∷ [];
}

zeros : All (λ w. w < 4294967296) (replicate 16 0)
zeros = ground arith

info-IsPlain : IsPlain info 0
info-IsPlain = record {
  for_peer = refl;
  no_extension = refl;
  no_padding = refl;
  buffered = omega arith;
}

abbrev session : Session
session = record {
  refs = 1;
  socket = 4;
  self = record { ssrc = 7; size = 16; addr = record { sin_addr = 0; sin_port = 0 } };
  peers = slots;
  buflen = 512;
}

-- Two packets of 16 bytes that are taken, with a failure between them.
abbrev answers : List Answer
answers =
    record { sent = pos 16; flags = 0 }
    ∷ record { sent = negsuc 10; flags = 0 }
    ∷ record { sent = pos 16; flags = 0 }
    ∷ []

no_zero_answer : All (λ (answer : Answer). answer.sent ≢ pos 0) answers
no_zero_answer = (λ e. absurd (cc), (λ e. absurd (cc), (λ e. absurd (cc), tt)))

accepted-numbers_example :
    accepted session heap info answers ≡ numbers 65535 (length (accepted session heap info answers))
accepted-numbers_example =
    accepted-numbers session info 0 info-IsPlain answers no_zero_answer heap (peer 19 5005) refl

numbered-IsInRange : IsInRange (numbered session (peer 19 5005) info)
numbered-IsInRange = record {
  counted = omega arith;
  held = omega arith;
  typed = omega arith;
  numbered = omega arith;
  timed = omega arith;
  sourced = omega arith;
  contributed = zeros;
}

send_packet-read_header_example :
    (bytes : List ℕ) × (sent_datagram
        (send_packet session heap info (record { sent = pos 16; flags = 0 }))
      ≡ some (record {
        socket = 4;
        name = record { sin_addr = 0x0a000001; sin_port = 5005 };
        namelen = 16;
        bytes = bytes;
        size = length bytes;
      }))
    × (read_header bytes ≡ fields (numbered session (peer 19 5005) info) (3 ∷ 0x90 ∷ 60 ∷ 64 ∷ []))
send_packet-read_header_example =
    send_packet-read_header session heap info 0 (peer 19 5005) (record { sent = pos 16; flags = 0 })
      info-IsPlain refl numbered-IsInRange (omega arith) (omega arith)

info-IsSendable : IsSendable info
info-IsSendable = record { no_extension = refl; no_padding = refl; buffered = omega arith }

abbrev reply : ℕ → Answer
reply h = record { sent = negsuc 110; flags = 0 }

abbrev sock : ℕ → SockAddr
sock port = record { sin_addr = 0x0a000001; sin_port = port }

send_loop-addresses_example :
    (all : SentAll) × (send_loop 17 session info reply (pos 0) heap (first_peer slots) ≡ some all)
    × (names all.datagrams ≡ some (sock 5005) ∷ some (sock 5007) ∷ [])
unfolding pointers
send_loop-addresses_example =
    send_loop-addresses session reply info heap info-IsSendable refl slots-IsDistinct
      (((peer 19 5005).address, refl), (((peer 35 5007).address, refl), tt))
