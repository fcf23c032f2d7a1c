-- ===== src/AppleMidi/Rtp/Peer.antt =====
-- The peers of applemidi/rtp.c. A pointer to a peer is an index of the heap, where a block that
-- was freed is `none`; what is done to a block that is not allocated changes nothing.
pub mod Live
use cmidid_kerneldriver.Base.{
  ℕ, Bool, true, false, List, [], ◌∷◌, ◌++◌, Option, none, some, ◌+◌, ◌%◌, ◌^◌, ◌==◌, if◌then◌else◌,
  length, get_elem?, set,
}

-- `struct RTPAddress` over `struct sockaddr_in`.
pub record SockAddr : Type 0 where
  pub sin_addr : ℕ
  pub sin_port : ℕ

pub record Address : Type 0 where
  pub ssrc : ℕ
  pub size : ℕ
  pub addr : SockAddr

-- `struct RTPPeer`.
pub record Peer : Type 0 where
  pub refs : ℕ
  pub address : Address
  pub in_timestamp : ℕ
  pub out_timestamp : ℕ
  pub in_seqnum : ℕ
  pub out_seqnum : ℕ
  pub info : Option ℕ

abbrev pub Heap : Type 0
Heap = List (Option Peer)

abbrev pub at_block : Option (Option Peer) → Option Peer
at_block (some (some peer)) = some peer
at_block (some none) = none
at_block none = none

abbrev pub get_peer : Heap → ℕ → Option Peer
get_peer heap h = at_block (get_elem? heap h)

-- What `RTPPeerCreate` puts into the new block.
abbrev pub fresh_peer : ℕ → ℕ → SockAddr → Peer
fresh_peer ssrc size addr = record {
  refs = 1;
  address = record { ssrc = ssrc; size = size; addr = addr };
  in_timestamp = 0;
  out_timestamp = 0;
  in_seqnum = 0;
  out_seqnum = 0;
  info = none;
}

-- The pointer to a new block and the heap.
abbrev pub new_peer : Heap → ℕ → ℕ → SockAddr → ℕ × Heap
new_peer heap ssrc size addr = (length heap, heap ++ some (fresh_peer ssrc size addr) ∷ [])

-- `RTPPeerCreate`, with whether `kmalloc` has memory: the source writes through its result without
-- a test.
unfoldable pub create_peer : Bool → Heap → ℕ → ℕ → SockAddr → Option (ℕ × Heap)
create_peer memory heap ssrc size addr =
    if memory then some (new_peer heap ssrc size addr) else none

abbrev retained : Heap → ℕ → Option Peer → Heap
retained heap h none = heap
retained heap h (some peer) = set heap h (some (record peer { refs = (peer.refs + 1) % 2 ^ 32 }))

-- `RTPPeerRetain`.
unfoldable pub retain_peer : Heap → ℕ → Heap
retain_peer heap h = retained heap h (get_peer heap h)

-- `RTPPeerDestroy`.
abbrev pub destroy_peer : Heap → ℕ → Heap
destroy_peer heap h = set heap h none

abbrev released : Heap → ℕ → Option Peer → Heap
released heap h none = heap
released heap h (some peer) =
    let refs = (peer.refs + 0xffffffff) % 2 ^ 32 in
    if refs == 0 then destroy_peer heap h else set heap h (some (record peer { refs = refs }))

-- `RTPPeerRelease`.
unfoldable pub release_peer : Heap → ℕ → Heap
release_peer heap h = released heap h (get_peer heap h)

-- `RTPPeerGetAddress`, both pointers given.
unfoldable pub get_address : Heap → ℕ → Option (ℕ × SockAddr)
get_address heap h = elim (get_peer heap h) [
  | none ↦ none
  | some peer ↦ some (peer.address.size, peer.address.addr)
]
