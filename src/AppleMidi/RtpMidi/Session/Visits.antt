-- ===== src/AppleMidi/RtpMidi/Session/Visits.antt =====
-- Which peers get a packet from `RTPMIDISessionSend`.
use cmidid_kerneldriver.Base.{
  ℕ, zero, suc, List, [], ◌∷◌, ◌++◌, Option, none, some, ℤ, pos, ◌<◌, ◌≤◌, ◌≡◌, refl, sym, ap, ◌∙◌,
  subst, arith, length, set, All, get_elem?-set_ne, ◌==◌, ==_iff, Bool-cases, inl, inr,
}
use cmidid_kerneldriver.Base.Int.{to_unsigned}
use cmidid_kerneldriver.AppleMidi.Rtp.Peer.{Peer, Address, SockAddr, Heap, get_peer}
use cmidid_kerneldriver.AppleMidi.Rtp.Peer.Live.{get_peer-set}
use cmidid_kerneldriver.AppleMidi.Rtp.Table.{Slots, next_peer, first_peer}
use cmidid_kerneldriver.AppleMidi.Rtp.Table.Walk.{
  pointers, IsDistinct, snoc_append, next_peer-split,
}
use cmidid_kerneldriver.AppleMidi.Rtp.Packet.{
  PacketInfo, Session, Answer, Sent, Datagram, finish_send, prepare, after_send, datagram_to,
}
use cmidid_kerneldriver.AppleMidi.Rtp.Packet.Sequence.{
  IsPlain, send_packet-finish, finish_send-datagram, after_send-info,
}
use cmidid_kerneldriver.AppleMidi.RtpMidi.Session.{SentAll, send_loop}

-- The address of a peer that is allocated.
abbrev address_in : Option Peer → Option Address
address_in none = none
address_in (some peer) = some peer.address

abbrev pub address_of : Heap → ℕ → Option Address
address_of heap h = address_in (get_peer heap h)

-- Sending to a peer changes no address.
address_of-set :
    (heap : Heap) (h : ℕ) (peer q : Peer)
    → get_peer heap h ≡ some peer
    → q.address ≡ peer.address
    → (g : ℕ) → address_of (set heap h (some q)) g ≡ address_of heap g
address_of-set heap h peer q live same g = elim (Bool-cases (h == g)) [
  | inl e ↦
      let at = (==_iff h g).0 e in
      subst (λ k. address_of (set heap h (some q)) k ≡ address_of heap k) at
        (rw (get_peer-set heap h peer live q, live) (ap some same))
  | inr e ↦ rw (get_elem?-set_ne heap h g (some q) (λ at. absurd (ground arith))) refl
]

after_send-address :
    (heap : Heap) (h : ℕ) (peer : Peer) (info : PacketInfo) (datagram : Datagram) (answer : Answer)
    → get_peer heap h ≡ some peer
    → (g : ℕ) → address_of (after_send heap h peer info datagram answer).heap g ≡ address_of heap g
unfolding after_send
after_send-address heap h peer info datagram answer live g =
    elim (Bool-cases (to_unsigned answer.sent == info.total_size)) [
      | inl e ↦ elim (Bool-cases (answer.flags == 0)) [
        | inl f ↦ rw (e, f) (address_of-set heap h peer _ live refl g)
        | inr f ↦ rw (e, f) refl
      ]
      | inr e ↦ rw e refl
    ]

-- A packet info with no extension, no padding and at most 16 buffers.
pub record IsSendable (info : PacketInfo) : Type 0 where
  pub no_extension : info.extension ≡ 0
  pub no_padding : info.padding ≡ 0
  pub buffered : info.iovlen ≤ 16

-- What the packet infos of a run keep, and what that says of the datagrams.
pub record Marking (rtp : Session) : Type 1 where
  pub Keep : PacketInfo → Type 0
  pub Mark : Datagram → Type 0
  pub for_peer : (info : PacketInfo) (h : ℕ) → Keep info → Keep (record info { peer = some h })
  pub prepared :
      (info : PacketInfo) (peer : Peer)
      → Keep info
      → let (info', bytes) = prepare rtp info peer in
        Keep info' × Mark (datagram_to rtp peer info' bytes)

-- What a send comes to: a packet info that can be sent again, a datagram to the address, and no
-- address changed.
record IsSentTo (Keep : PacketInfo → Type 0) (Mark : Datagram → Type 0) (heap : Heap)
    (address : Address) (sent : Sent) : Type 0 where
  again : IsSendable sent.info
  keeps : Keep sent.info
  datagram : Datagram
  was_sent : sent.datagram ≡ some datagram
  to_address : datagram.name ≡ address.addr
  marked : Mark datagram
  kept : (g : ℕ) → address_of sent.heap g ≡ address_of heap g

finish_send-IsSentTo :
    (rtp : Session) (marking : Marking rtp) (heap : Heap) (info : PacketInfo) (h : ℕ) (peer : Peer)
    (answer : Answer)
    → IsSendable info
    → marking.Keep info
    → get_peer heap h ≡ some peer
    → IsSentTo marking.Keep marking.Mark heap peer.address (finish_send rtp heap info h peer answer)
unfolding finish_send prepare datagram_to
finish_send-IsSentTo rtp marking heap info h peer answer can keep live =
    let (info', bytes) = prepare rtp info peer in
    let datagram = datagram_to rtp peer info' bytes in
    let (keep', mark) = marking.prepared info peer keep in
    let same = after_send-info heap h peer info' datagram answer in
    let can' : IsSendable info' = record {
      no_extension = can.no_extension;
      no_padding = can.no_padding;
      buffered = can.buffered;
    } in
    record {
      again = subst IsSendable (sym same) can';
      keeps = subst marking.Keep (sym same) keep';
      datagram = datagram;
      was_sent = finish_send-datagram rtp heap info h peer answer;
      to_address = refl;
      marked = mark;
      kept = after_send-address heap h peer info' datagram answer live;
    }

live_peer :
    (o : Option Peer) (a : Address)
    → address_in o ≡ some a
    → (peer : Peer) × (o ≡ some peer) × (peer.address ≡ a)
live_peer none a e = absurd (cc)
live_peer (some peer) a e = (peer, refl, cc)

abbrev pub sock_addr : Option Address → Option SockAddr
sock_addr none = none
sock_addr (some a) = some a.addr

-- Where the datagrams go.
abbrev pub names : List Datagram → List (Option SockAddr)
names [] = []
names (d ∷ ds) = some d.name ∷ names ds

abbrev pub addresses : (ℕ → Option Address) → List ℕ → List (Option SockAddr)
addresses book [] = []
addresses book (h ∷ hs) = sock_addr (book h) ∷ addresses book hs

abbrev pub IsListed : (ℕ → Option Address) → ℕ → Type 0
IsListed book h = (a : Address) × (book h ≡ some a)

-- With nothing to keep.
abbrev unmarked : (rtp : Session) → Marking rtp
unmarked rtp = record {
  Keep = λ info. Unit {0};
  Mark = λ d. Unit {0};
  for_peer = λ info h keep. keep;
  prepared = λ info peer keep. (keep, keep);
}

module _ (rtp : Session) (marking : Marking rtp) (answers : ℕ → Answer)
    (book : ℕ → Option Address) where
  pub send_loop-visits :
      (pre post : Slots)
      → rtp.peers ≡ pre ++ post
      → IsDistinct (pre ++ post)
      → All (IsListed book) (pointers post)
      → (fuel : ℕ) → length post < fuel
      → (info : PacketInfo) → IsSendable info
      → marking.Keep info
      → (code : ℤ) → (heap : Heap) → ((g : ℕ) → address_of heap g ≡ book g)
      → (all : SentAll) × (send_loop fuel rtp info answers code heap (first_peer post) ≡ some all)
        × (names all.datagrams ≡ addresses book (pointers post))
        × All marking.Mark all.datagrams
  unfolding send_loop first_peer pointers
  send_loop-visits pre post e d l zero f info can keep code heap same = absurd (omega arith)
  send_loop-visits pre [] e d l (suc fuel) f info can keep code heap same = (_, refl, refl, _)
  send_loop-visits pre (none ∷ post) e d l (suc fuel) f info can keep code heap same =
      let snoc = snoc_append pre none post in
      send_loop-visits (pre ++ none ∷ []) post (e ∙ sym snoc) (subst IsDistinct (sym snoc) d) l
        (suc fuel) (omega arith) info can keep code heap same
  send_loop-visits pre (some h ∷ post) e d l (suc fuel) f info can keep code heap same =
      let (a, at) = l.0 in
      let (peer, live, addressed) = live_peer (get_peer heap h) a (same h ∙ at) in
      let info' : PacketInfo = record info { peer = some h } in
      let plain : IsPlain info' h = record {
        for_peer = refl;
        no_extension = can.no_extension;
        no_padding = can.no_padding;
        buffered = can.buffered;
      } in
      let can' : IsSendable info' = record {
        no_extension = can.no_extension;
        no_padding = can.no_padding;
        buffered = can.buffered;
      } in
      let sending = send_packet-finish rtp heap info' h peer (answers h) plain live in
      let sent = finish_send rtp heap info' h peer (answers h) in
      let s =
        finish_send-IsSentTo rtp marking heap info' h peer (answers h) can'
          (marking.for_peer info h keep) live in
      let snoc = snoc_append pre (some h) post in
      let (all, rest, goes, marks) =
        send_loop-visits (pre ++ some h ∷ []) post (e ∙ sym snoc) (subst IsDistinct (sym snoc) d)
          l.1 fuel (omega arith) sent.info s.again s.keeps sent.code sent.heap
          (λ g. s.kept g ∙ same g) in
      let next =
        subst (λ ss. next_peer ss (some h) ≡ some (first_peer post)) (sym e)
          (next_peer-split pre h post d) in
      (
        record all { datagrams = s.datagram ∷ all.datagrams },
        rw (sending, s.was_sent, next, rest) refl,
        rw (s.to_address, at, goes, addressed) refl,
        (s.marked, marks),
      )

-- `RTPMIDISessionSend` sends one packet to every peer of the table, in the order of the slots, and
-- ends, whatever `sock_sendmsg` answers: 17 passes are enough. The conditions: no peer stands in
-- two slots, all are allocated, and the packet info has no extension and no padding and at most 16
-- buffers.
pub send_loop-addresses :
    (rtp : Session) (answers : ℕ → Answer) (info : PacketInfo) (heap : Heap)
    → IsSendable info
    → length rtp.peers ≡ 16
    → IsDistinct rtp.peers
    → All (IsListed (address_of heap)) (pointers rtp.peers)
    → (all : SentAll) × (send_loop 17 rtp info answers (pos 0) heap (first_peer rtp.peers)
        ≡ some all)
      × (names all.datagrams ≡ addresses (address_of heap) (pointers rtp.peers))
send_loop-addresses rtp answers info heap can full d listed =
    let (all, e, goes, marks) =
      send_loop-visits rtp (unmarked rtp) answers (address_of heap) [] rtp.peers refl d listed 17
        (omega arith) info can _ (pos 0) heap (λ g. refl) in
    (all, e, goes)
