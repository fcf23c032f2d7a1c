-- ===== src/AppleMidi/Rtp/Table.antt =====
-- The peers of a session in applemidi/rtp.c, a table of 16 slots that is probed from the slot of
-- the SSRC on.
pub mod Probe
pub mod Laws
pub mod Walk
pub mod Sound
pub mod Tidy
pub mod Roster
use cmidid_kerneldriver.Base.{
  ℕ, zero, suc, Bool, true, false, List, [], ◌∷◌, Option, none, some, ◌+◌, ◌%◌, ◌==◌, if◌then◌else◌,
  get_or, set, drop,
}
use cmidid_kerneldriver.AppleMidi.Rtp.Peer.{Peer, Heap, get_peer, retain_peer, release_peer}

-- `RTP_MAX_PEERS`.
abbrev pub max_peers : ℕ
max_peers = 16

-- The member `peers`: a pointer to a peer, or NULL.
abbrev pub Slots : Type 0
Slots = List (Option ℕ)

abbrev pub slot : Slots → ℕ → Option ℕ
slot slots p = get_or slots p none

abbrev pub is_null : Option ℕ → Bool
is_null none = true
is_null (some h) = false

abbrev pub is_pointer : ℕ → Option ℕ → Bool
is_pointer g none = false
is_pointer g (some h) = g == h

-- The loop that the operations share: `left` passes are left from `i` on, and the first slot that
-- passes the test ends it.
unfoldable pub probe : (Option ℕ → Bool) → Slots → ℕ → ℕ → ℕ → Option ℕ
probe test slots off zero i = none
probe test slots off (suc left) i =
    let rest = probe test slots off left (i + 1) in
    let p = (i + off) % max_peers in if test (slot slots p) then some p else rest

-- The code, the table and the heap.
pub record Changed : Type 0 where
  pub code : ℕ
  pub slots : Slots
  pub heap : Heap

abbrev pub ssrc_of : Heap → ℕ → ℕ
ssrc_of heap h = elim (get_peer heap h) [ none ↦ 0 | some peer ↦ peer.address.ssrc ]

abbrev add_at : Slots → Heap → ℕ → Option ℕ → Changed
add_at slots heap h none = record { code = 1; slots = slots; heap = heap }
add_at slots heap h (some p) = record {
  code = 0;
  slots = set slots p (some h);
  heap = retain_peer heap h;
}

-- `RTPSessionAddPeer`.
unfoldable pub add_peer : Slots → Heap → ℕ → Changed
add_peer slots heap h =
    add_at slots heap h (probe is_null slots (ssrc_of heap h % max_peers) max_peers 0)

abbrev remove_at : Slots → Heap → ℕ → Option ℕ → Changed
remove_at slots heap h none = record { code = 1; slots = slots; heap = heap }
remove_at slots heap h (some p) = record {
  code = 0;
  slots = set slots p none;
  heap = release_peer heap h;
}

-- `RTPSessionRemovePeer`.
unfoldable pub remove_peer : Slots → Heap → ℕ → Changed
remove_peer slots heap h =
    remove_at slots heap h (probe (is_pointer h) slots (ssrc_of heap h % max_peers) max_peers 0)

abbrev pub has_ssrc : Heap → ℕ → Option ℕ → Bool
has_ssrc heap ssrc none = false
has_ssrc heap ssrc (some h) = ssrc_of heap h == ssrc

abbrev slot_of : Slots → Option ℕ → Option ℕ
slot_of slots none = none
slot_of slots (some p) = slot slots p

-- `RTPSessionFindPeerBySSRC`: the peer, or `none` for the code 1.
unfoldable pub find_peer_by_ssrc : Slots → Heap → ℕ → Option ℕ
find_peer_by_ssrc slots heap ssrc =
    slot_of slots (probe (has_ssrc heap ssrc) slots (ssrc % max_peers) max_peers 0)

-- `RTPSessionNextPeer`: the first peer of the slots that are left.
unfoldable pub first_peer : Slots → Option ℕ
first_peer [] = none
first_peer (none ∷ slots) = first_peer slots
first_peer (some h ∷ slots) = some h

-- The slots after the first one that holds the pointer.
unfoldable pub after_peer : Slots → ℕ → Option Slots
after_peer [] g = none
after_peer (x ∷ slots) g =
    let rest = after_peer slots g in if is_pointer g x then some slots else rest

abbrev pub first_of : Option Slots → Option (Option ℕ)
first_of none = none
first_of (some rest) = some (first_peer rest)

-- `none` is the code 1, after which the caller's pointer is what it was.
unfoldable pub next_peer : Slots → Option ℕ → Option (Option ℕ)
next_peer slots none = some (first_peer slots)
next_peer slots (some g) = first_of (after_peer slots g)
