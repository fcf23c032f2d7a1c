-- ===== src/AppleMidi/Driver/Members/Requests.antt =====
-- A peer that is admitted, and one that is removed, as steps of the members.
use cmidid_kerneldriver.Base.{
  ℕ, [], ◌∷◌, ◌++◌, Option, none, some, ◌<◌, ◌≡◌, ◌==◌, inl, inr, refl, sym, ap, ◌∙◌, subst,
  Bool-cases, arith, length, set, get_or-set, get_elem?-append_left, get_elem?-snoc,
}
use cmidid_kerneldriver.AppleMidi.Rtp.Peer.{
  SockAddr, Address, Peer, Heap, get_peer, at_block, new_peer, fresh_peer, release_peer,
}
use cmidid_kerneldriver.AppleMidi.Rtp.Table.{Slots, Changed, slot, ssrc_of, find_peer_by_ssrc}
use cmidid_kerneldriver.AppleMidi.Rtp.Table.Laws.{IsFull, find_peer_by_ssrc_lem}
use cmidid_kerneldriver.AppleMidi.Rtp.Table.Sound.{
  IsSound, within, remove_peer_cases, get_peer-release_peer_ne,
}
use cmidid_kerneldriver.AppleMidi.Rtp.Table.Roster.{
  roster, member, roster_joined, roster_cleared, roster-heap, size-roster_free, size-roster_full,
  roster-IsStrange,
}
use cmidid_kerneldriver.AppleMidi.Driver.{AppleMidiDriver}
use cmidid_kerneldriver.AppleMidi.Driver.Respond.Invitation.{admitted_cases}
use cmidid_kerneldriver.AppleMidi.Driver.Respond.{admitted, joined_driver, removed}
use cmidid_kerneldriver.AppleMidi.Driver.Members.{
  join, leave, Step, entered, full, left, absent, members_of,
}

module _ (slots : Slots) (heap : Heap) (ssrc : ℕ) (sound : IsSound slots heap) where
  longer : (b : Option Peer) → roster slots (heap ++ b ∷ []) ≡ roster slots heap
  longer b =
      roster-heap slots heap (heap ++ b ∷ []) (λ p h e.
        ap at_block (get_elem?-append_left heap (b ∷ []) h (within slots heap sound p h e)))

  admitted-Step :
      (from : SockAddr)
      → let c = admitted slots (new_peer heap ssrc 16 from) in
        Step
          (roster slots heap)
          (join (record { ssrc = ssrc; size = 16; addr = from }))
          (roster c.slots c.heap)
  unfolding IsFull
  admitted-Step from =
      let a : Address = record { ssrc = ssrc; size = 16; addr = from } in
      let new = some (fresh_peer ssrc 16 from) in
      elim (admitted_cases slots heap ssrc 16 from) [
        | inl (all, e) ↦
            let count =
              size-roster_full slots heap (λ p l. all p (omega (arith, l, sound.full_length)))
                sound.live in
            subst (λ (c : Changed). Step (roster slots heap) (join a) (roster c.slots c.heap))
              (sym e) (rw (longer none) (full (count ∙ sound.full_length)))
        | inr (p, l, free, e) ↦
            let in_reach : p < length slots = omega (arith, sound.full_length, l) in
            let room = size-roster_free slots heap p in_reach free in
            let here : member (heap ++ new ∷ []) (some (length heap)) ≡ some a =
              rw (get_elem?-snoc heap new) refl in
            let more =
              roster_joined slots (heap ++ new ∷ []) p (length heap) a in_reach free here in
            subst (λ (c : Changed). Step (roster slots heap) (join a) (roster c.slots c.heap))
              (sym e) (rw (more, longer new) (entered (omega (arith, room, sound.full_length))))
      ]

  -- Where the table still points, when the peer `h` of the slot `p` is gone.
  still_there :
      (p h q g : ℕ)
      → p < 16
      → slot slots p ≡ some h
      → slot (set slots p none) q ≡ some g
      → get_peer (release_peer heap h) g ≡ get_peer heap g
  still_there p h q g l here there =
      let in_reach : p < length slots = omega (arith, sound.full_length, l) in
      let at = get_or-set slots p q none none in_reach in
      elim (Bool-cases (p == q)) [
        | inl e ↦ absurd (cc (rw e at at, there))
        | inr e ↦
            let old : slot slots q ≡ some g = rw (at, e) at there in
            get_peer-release_peer_ne heap h g (λ same.
              let p-q = sound.once p q h here (old ∙ ap some (sym same)) in absurd (ground arith))
      ]

  -- The peer `h` of the slot `p` is removed.
  cleared-Step :
      (p h : ℕ)
      → p < 16
      → slot slots p ≡ some h
      → ssrc_of heap h ≡ ssrc
      → Step (roster slots heap) (leave ssrc) (roster (set slots p none) (release_peer heap h))
  cleared-Step p h l here named =
      let (peer, live) = sound.live p h here in
      let in_reach : p < length slots = omega (arith, sound.full_length, l) in
      let known : member heap (some h) ≡ some peer.address = rw live refl in
      let ssrc-eq : peer.address.ssrc ≡ ssrc = rw (ssrc_of, live) at named in
      let rest =
        roster-heap (set slots p none) heap (release_peer heap h)
          (λ q g there. still_there p h q g l here there) in
      rw rest
        (left peer.address ssrc-eq (roster_cleared slots heap p h peer.address in_reach here known))

pub joined_driver-Step :
    (d : AppleMidiDriver) (ssrc : ℕ) (from : SockAddr)
    → IsSound d.rtp.peers d.heap
    → Step
        (members_of d)
        (join (record { ssrc = ssrc; size = 16; addr = from }))
        (members_of (joined_driver d ssrc from))
unfolding joined_driver
joined_driver-Step d ssrc from sound = admitted-Step d.rtp.peers d.heap ssrc sound from

pub removed-Step :
    (d : AppleMidiDriver) (ssrc : ℕ)
    → IsSound d.rtp.peers d.heap
    → Step
        (members_of d)
        (leave ssrc)
        (members_of (removed d (find_peer_by_ssrc d.rtp.peers d.heap ssrc)))
removed-Step d ssrc sound =
    let slots = d.rtp.peers in
    let to = λ (o : Option ℕ). Step (members_of d) (leave ssrc) (members_of (removed d o)) in
    elim (find_peer_by_ssrc_lem slots d.heap ssrc) [
      | inl (known, (h, p, l, here, named, found)) ↦
          subst to (sym found) (elim (remove_peer_cases slots d.heap h) [
            | inl (nowhere, r) ↦ absurd (ground (arith, nowhere p l))
            | inr (q, m, there, r) ↦
                subst (λ (c : Changed). Step (members_of d) (leave ssrc) (roster c.slots c.heap))
                  (sym r) (cleared-Step slots d.heap ssrc sound q h m there named)
          ])
      | inr (new, found) ↦ subst to (sym found) (
          absent (
            roster-IsStrange slots d.heap ssrc
              (λ p l. new p (omega (arith, l, sound.full_length)))))
    ]
