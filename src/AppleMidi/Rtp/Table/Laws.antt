-- ===== src/AppleMidi/Rtp/Table/Laws.antt =====
-- What the operations on the table of peers do.
use cmidid_kerneldriver.Base.{
  ℕ, true, false, Option, none, some, ◌+◌, ◌%◌, ◌^◌, ◌<◌, ◌≡◌, refl, sym, ◌∙◌, ◌⊎◌, inl, inr, arith,
  ap, length, set, get_or-set, set-set, set-get_or, Option-cases, Bool-cases, ◌==◌, ==_iff,
}
use cmidid_kerneldriver.AppleMidi.Rtp.Peer.{Peer, Heap, get_peer, retain_peer}
use cmidid_kerneldriver.AppleMidi.Rtp.Peer.Live.{release_peer-retain_peer}
use cmidid_kerneldriver.AppleMidi.Rtp.Table.{
  Slots, slot, is_null, is_pointer, has_ssrc, ssrc_of, probe, add_peer, remove_peer,
  find_peer_by_ssrc,
}
use cmidid_kerneldriver.AppleMidi.Rtp.Table.Probe.{probe-some, probe_full}

-- No slot is free.
unfoldable pub IsFull : Slots → Type 0
IsFull slots = (p : ℕ) → p < 16 → is_null (slot slots p) ≡ false

-- `RTPSessionAddPeer` fails exactly if all 16 slots are in use, and then changes nothing.
pub add_peer-IsFull :
    (slots : Slots) (heap : Heap) (h : ℕ)
    → (IsFull slots → add_peer slots heap h ≡ record { code = 1; slots = slots; heap = heap })
      × ((add_peer slots heap h).code ≡ 1 → IsFull slots)
unfolding add_peer IsFull
add_peer-IsFull slots heap h =
    let off = ssrc_of heap h % 16 in
    elim (Option-cases (probe is_null slots off 16 0)) [
      | inl e ↦ (λ full. rw e refl, λ code p l. probe_full is_null slots off e p l)
      | inr (p, e) ↦ (
        λ full. let (l, t) = probe-some is_null slots off 16 0 p e in absurd (cc (full p l, t)),
        λ code. absurd (ground arith),
      )
    ]

-- Whether some slot points to a peer that has the SSRC.
pub Knows : Slots → Heap → ℕ → Type 0
Knows slots heap ssrc = (p : ℕ) × (p < 16) × (has_ssrc heap ssrc (slot slots p) ≡ true)

find_at :
    (heap : Heap) (ssrc : ℕ) (s : Option ℕ)
    → has_ssrc heap ssrc s ≡ true
    → (h : ℕ) × (s ≡ some h) × (ssrc_of heap h ≡ ssrc)
find_at heap ssrc none e = absurd (cc)
find_at heap ssrc (some h) e = (h, refl, (==_iff (ssrc_of heap h) ssrc).0 e)

-- `RTPSessionFindPeerBySSRC` finds a peer of the table that has the SSRC if there is one, and
-- else fails.
pub find_peer_by_ssrc_lem :
    (slots : Slots) (heap : Heap) (ssrc : ℕ)
    → (Knows slots heap ssrc
        × ((h : ℕ) × (p : ℕ) × (p < 16)
            × (slot slots p ≡ some h)
            × (ssrc_of heap h ≡ ssrc)
            × (find_peer_by_ssrc slots heap ssrc ≡ some h)))
      ⊎ (((p : ℕ) → p < 16 → has_ssrc heap ssrc (slot slots p) ≡ false)
          × (find_peer_by_ssrc slots heap ssrc ≡ none))
unfolding find_peer_by_ssrc Knows
find_peer_by_ssrc_lem slots heap ssrc =
    let off = ssrc % 16 in
    let test = has_ssrc heap ssrc in
    elim (Option-cases (probe test slots off 16 0)) [
      | inl e ↦ inr (λ p l. probe_full test slots off e p l, rw e refl)
      | inr (p, e) ↦
          let (l, t) = probe-some test slots off 16 0 p e in
          let (h, s, x) = find_at heap ssrc (slot slots p) t in
          inl ((p, l, t), (h, p, l, s, x, rw (e, s) refl))
    ]

pub null-none : (s : Option ℕ) → is_null s ≡ true → s ≡ none
null-none none e = refl
null-none (some h) e = absurd (cc)

-- The one slot that holds a pointer is found.
pub found_again :
    (slots : Slots) (p h off : ℕ)
    → p < 16
    → length slots ≡ 16
    → ((q : ℕ) → q < 16 → is_pointer h (slot slots q) ≡ false)
    → probe (is_pointer h) (set slots p (some h)) off 16 0 ≡ some p
found_again slots p h off l len new =
    let slots' = set slots p (some h) in
    let test = is_pointer h in
    let in_reach : p < length slots = omega arith in
    elim (Option-cases (probe test slots' off 16 0)) [
      | inl e ↦ absurd (
          ground
            (arith, probe_full test slots' off e p l, get_or-set slots p p (some h) none in_reach))
      | inr (q, e) ↦
          let (m, t) = probe-some test slots' off 16 0 q e in
          elim (Bool-cases (p == q)) [
            | inl same ↦ e ∙ ap some (sym ((==_iff p q).0 same))
            | inr other ↦
                absurd (ground (arith, new q m, get_or-set slots p q (some h) none in_reach))
          ]
    ]

-- Adding a peer, where that succeeds, and removing it leaves the table and the heap as they were, if
-- the peer is allocated, in no slot, and retained at least once and less than 2^32 - 1 times.
pub remove_peer-add_peer :
    (slots : Slots) (heap : Heap) (h : ℕ) (peer : Peer)
    → length slots ≡ 16
    → get_peer heap h ≡ some peer
    → 0 < peer.refs
    → peer.refs + 1 < 2 ^ 32
    → ((p : ℕ) → p < 16 → is_pointer h (slot slots p) ≡ false)
    → (add_peer slots heap h).code ≡ 0
    → remove_peer (add_peer slots heap h).slots (add_peer slots heap h).heap h
      ≡ record { code = 0; slots = slots; heap = heap }
unfolding add_peer remove_peer
remove_peer-add_peer slots heap h peer len live pos small new ok =
    let off = ssrc_of heap h % 16 in
    let heap' = retain_peer heap h in
    elim (Option-cases (probe is_null slots off 16 0)) [
      | inl e ↦ absurd (ground arith)
      | inr (p, e) ↦
          let (l, t) = probe-some is_null slots off 16 0 p e in
          let free = null-none (slot slots p) t in
          let in_reach : p < length slots = omega arith in
          let again = found_again slots p h (ssrc_of heap' h % 16) l len new in
          let whole = set-get_or slots p none none in_reach free in
          let same = set-set slots p (some h) none in
          rw (e, again, same, whole, release_peer-retain_peer heap h peer live pos small) refl
    ]
