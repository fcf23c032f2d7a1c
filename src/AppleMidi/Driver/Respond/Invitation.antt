-- ===== src/AppleMidi/Driver/Respond/Invitation.antt =====
-- A peer joins by an invitation and leaves by the end of its session.
use cmidid_kerneldriver.Base.{
  ℕ, true, false, List, [], ◌∷◌, ◌++◌, none, some, ℤ, ◌<◌, ◌≡◌, ◌≢◌, ◌⊎◌, ◌%◌, inl, inr, refl, ap,
  ◌∙◌, ◌==◌, Option-cases, arith, length, set, get_elem?-snoc, set-snoc,
}
use cmidid_kerneldriver.AppleMidi.Rtp.Peer.{
  SockAddr, Peer, Heap, fresh_peer, get_peer, new_peer, create_peer, retain_peer, release_peer,
}
use cmidid_kerneldriver.AppleMidi.Rtp.Table.{Slots, slot, is_null, ssrc_of, probe, add_peer}
use cmidid_kerneldriver.AppleMidi.Rtp.Table.Probe.{probe-some, probe_full}
use cmidid_kerneldriver.AppleMidi.Rtp.Table.Laws.{IsFull, null-none}
use cmidid_kerneldriver.AppleMidi.Rtp.Packet.{get_ssrc}
use cmidid_kerneldriver.AppleMidi.Command.{
  invitation, accepted, SessionData, session, parsed, parse_command,
}
use cmidid_kerneldriver.AppleMidi.Command.RoundTrip.{
  IsSendable, expected, parse_command-build_command,
}
use cmidid_kerneldriver.AppleMidi.Driver.{AppleMidiDriver, Answered, send_on}
use cmidid_kerneldriver.AppleMidi.Driver.Sending.{HasSockets, with_sockets_lem, send_command-built}
use cmidid_kerneldriver.AppleMidi.Driver.Respond.{
  admitted, admit_peer, joined_driver, with_peers, answer_invitation, respond,
}

-- A block that was just allocated is the last of the heap.
get_peer-snoc :
    (heap : Heap) (peer : Peer) → get_peer (heap ++ some peer ∷ []) (length heap) ≡ some peer
get_peer-snoc heap peer = rw (get_elem?-snoc heap (some peer)) refl

module _ (heap : Heap) (ssrc size : ℕ) (from : SockAddr) where
  abbrev pub first : Peer
  first = fresh_peer ssrc size from

  abbrev second : Peer
  second = record first { refs = 2 }

  pub release-snoc : release_peer (heap ++ some first ∷ []) (length heap) ≡ heap ++ none ∷ []
  unfolding release_peer
  release-snoc = rw (get_peer-snoc heap first) (set-snoc heap (some first) none)

  retain-snoc : retain_peer (heap ++ some first ∷ []) (length heap) ≡ heap ++ some second ∷ []
  unfolding retain_peer
  retain-snoc = rw (get_peer-snoc heap first) (set-snoc heap (some first) (some second))

  release_second : release_peer (heap ++ some second ∷ []) (length heap) ≡ heap ++ some first ∷ []
  unfolding release_peer
  release_second = rw (get_peer-snoc heap second) (set-snoc heap (some second) (some first))

-- What admitting a peer does: with a full table the new block is freed again; else a free slot
-- points to it, and that is the only reference.
pub admitted_cases :
    (slots : Slots) (heap : Heap) (ssrc size : ℕ) (from : SockAddr)
    → (IsFull slots
        × (admitted slots (new_peer heap ssrc size from)
            ≡ record { code = 1; slots = slots; heap = heap ++ none ∷ [] }))
      ⊎ ((p : ℕ) × (p < 16)
          × (slot slots p ≡ none)
          × (admitted slots (new_peer heap ssrc size from) ≡ record {
            code = 0;
            slots = set slots p (some (length heap));
            heap = heap ++ some (fresh_peer ssrc size from) ∷ [];
          }))
unfolding add_peer IsFull
admitted_cases slots heap ssrc size from =
    let peer = fresh_peer ssrc size from in
    let off = ssrc_of (heap ++ some peer ∷ []) (length heap) % 16 in
    elim (Option-cases (probe is_null slots off 16 0)) [
      | inl e ↦
          inl (
            λ p l. probe_full is_null slots off e p l,
            rw (e, release-snoc heap ssrc size from) refl,
          )
      | inr (p, e) ↦
          let (l, t) = probe-some is_null slots off 16 0 p e in
          inr (
            p,
            l,
            null-none (slot slots p) t,
            rw (e, retain-snoc heap ssrc size from, release_second heap ssrc size from) refl,
          )
    ]

-- A peer that is invited to the RTP port of a driver with both sockets, which accepts: without
-- memory for the peer it is undefined what the driver does. With memory it sends to the peer's
-- address what is read as an acceptance with its own SSRC. Then either all slots of its table were
-- in use, and nothing else is left but a block that was freed, or a free slot points to a new peer
-- with one reference. The conditions: the driver's SSRC, the version and the token have 32 bits, and
-- the name has less than 48 bytes, none of them 0.
pub respond-invitation :
    (d : AppleMidiDriver) (control rtp : ℕ) (from : SockAddr) (now : ℕ) (sent : ℤ) (s : SessionData)
    (old : List ℕ)
    → HasSockets d control rtp
    → d.accept ≢ 0
    → IsSendable (session accepted (record s { ssrc = get_ssrc d.rtp }))
    → (respond d rtp from now sent false (session invitation s) ≡ none)
      × (a : Answered) × (respond d rtp from now sent true (session invitation s) ≡ some a)
      × ((bytes : List ℕ) × (a.datagrams ≡ record { socket = rtp; to = from; bytes = bytes } ∷ [])
          × (parse_command old bytes
              ≡ parsed (expected old (session accepted (record s { ssrc = get_ssrc d.rtp })))))
      × ((IsFull d.rtp.peers × (a.driver ≡ record d { heap = d.heap ++ none ∷ [] }))
          ⊎ ((p : ℕ) × (p < 16)
              × (slot d.rtp.peers p ≡ none)
              × (a.driver ≡ record d {
                rtp = record d.rtp { peers = set d.rtp.peers p (some (length d.heap)) };
                heap = d.heap ++ some (fresh_peer s.ssrc 16 from) ∷ [];
              })))
unfolding respond admit_peer create_peer joined_driver
respond-invitation d control rtp from now sent s old has accepts fits =
    let d' = joined_driver d s.ssrc from in
    let s' : SessionData = record s { ssrc = get_ssrc d.rtp } in
    let (bytes, b, p) = parse_command-build_command old (session accepted s') fits in
    let has' : HasSockets d' control rtp = record {
      has_control = has.has_control;
      has_rtp = has.has_rtp;
    } in
    let sending =
      send_command-built d' control rtp rtp from sent (session accepted s') bytes has' (inr refl)
        b in
    let open_door : (d.accept == 0) ≡ false = ground arith in
    let same : (rtp == rtp) ≡ true = ground arith in
    (
      with_sockets_lem d.control_socket d.rtp_socket control rtp
            (λ c r. answer_invitation d r rtp from sent false s) has.has_control has.has_rtp
          ∙ rw (open_door, same) refl,
      send_on d' rtp from sent bytes,
      with_sockets_lem d.control_socket d.rtp_socket control rtp
            (λ c r. answer_invitation d r rtp from sent true s) has.has_control has.has_rtp
          ∙ rw (open_door, same) sending,
      (bytes, refl, p),
      elim (admitted_cases d.rtp.peers d.heap s.ssrc 16 from) [
        | inl (full, e) ↦ inl (full, ap (with_peers d) e)
        | inr (p, l, free, e) ↦ inr (p, l, free, ap (with_peers d) e)
      ],
    )
