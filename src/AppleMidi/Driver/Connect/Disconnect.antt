-- ===== src/AppleMidi/Driver/Connect/Disconnect.antt =====
-- `_applemidi_disconnect` says goodbye to all peers and ends.
use cmidid_kerneldriver.Base.{
  ℕ, zero, suc, [], ◌∷◌, none, some, ◌<◌, ◌≤◌, ◌≡◌, refl, ap, ◌∙◌, inl, inr, arith, length, set,
  Option-cases,
}
use cmidid_kerneldriver.AppleMidi.Rtp.Peer.{Peer, Heap, get_peer, get_address}
use cmidid_kerneldriver.AppleMidi.Rtp.Table.{Slots, slot, first_peer, remove_peer}
use cmidid_kerneldriver.AppleMidi.Rtp.Table.Walk.{pointers}
use cmidid_kerneldriver.AppleMidi.Rtp.Table.Sound.{remove_peer_cases}
use cmidid_kerneldriver.AppleMidi.Rtp.Table.Tidy.{IsTidy, cleared-IsTidy, empty-IsTidy}
use cmidid_kerneldriver.AppleMidi.Driver.{AppleMidiDriver, Answered, silent}
use cmidid_kerneldriver.AppleMidi.Driver.Sending.{HasSockets}
use cmidid_kerneldriver.AppleMidi.Driver.Respond.{with_peers, after_packet, more_datagrams}
use cmidid_kerneldriver.AppleMidi.Driver.Respond.Returns.{send_command-driver}
use cmidid_kerneldriver.AppleMidi.Driver.Connect.{
  Pass, Disconnected, sock_release, goodbye, without_peer, disconnect_next, disconnect_peer,
  disconnect_loop, close, disconnect, endsession,
}

-- Where the first peer stands.
first_peer-slot :
    (slots : Slots) (h : ℕ)
    → first_peer slots ≡ some h
    → (p : ℕ) × (p < length slots) × (slot slots p ≡ some h)
unfolding first_peer
first_peer-slot [] h e = absurd (cc)
first_peer-slot (none ∷ slots) h e =
    let (p, l, s) = first_peer-slot slots h e in (suc p, omega (arith, l), s)
first_peer-slot (some g ∷ slots) h e = (0, omega arith, e)

first_peer-none : (slots : Slots) → first_peer slots ≡ none → pointers slots ≡ []
unfolding first_peer pointers
first_peer-none [] e = refl
first_peer-none (none ∷ slots) e = first_peer-none slots e
first_peer-none (some g ∷ slots) e = absurd (cc)

-- One pointer less.
pointers-cleared :
    (slots : Slots) (p h : ℕ)
    → slot slots p ≡ some h
    → length (pointers slots) ≡ suc (length (pointers (set slots p none)))
unfolding pointers
pointers-cleared [] p h e = absurd (cc)
pointers-cleared (none ∷ slots) zero h e = absurd (cc)
pointers-cleared (some g ∷ slots) zero h e = refl
pointers-cleared (none ∷ slots) (suc p) h e = pointers-cleared slots p h e
pointers-cleared (some g ∷ slots) (suc p) h e = ap suc (pointers-cleared slots p h e)

length-pointers-le : (slots : Slots) → length (pointers slots) ≤ length slots
unfolding pointers
length-pointers-le [] = omega arith
length-pointers-le (none ∷ slots) = omega (arith, length-pointers-le slots)
length-pointers-le (some g ∷ slots) = omega (arith, length-pointers-le slots)

-- The first peer of a tidy table is removed.
remove-first :
    (slots : Slots) (heap : Heap) (h : ℕ)
    → IsTidy slots heap
    → first_peer slots ≡ some h
    → let r = remove_peer slots heap h in
      IsTidy r.slots r.heap × (length (pointers slots) ≡ suc (length (pointers r.slots)))
remove-first slots heap h tidy e =
    let (p, l, s) = first_peer-slot slots h e in
    elim (remove_peer_cases slots heap h) [
      | inl (absent, r) ↦
          absurd (ground (arith, absent p (omega (arith, l, tidy.sound.full_length))))
      | inr (q, m, t, r) ↦
          rw r (cleared-IsTidy slots heap tidy q h m t, pointers-cleared slots q h t)
    ]

module _ (control rtp : ℕ) where
  disconnect_peer-goes :
      (d : AppleMidiDriver) (h : ℕ) (pass : Pass) (peer : Peer)
      → HasSockets d control rtp
      → length d.name < 48
      → get_peer d.heap h ≡ some peer
      → (a : Answered) × (disconnect_peer d h pass ≡ some a)
        × (a.driver ≡ with_peers d (remove_peer d.rtp.peers d.heap h))
  unfolding disconnect_peer endsession get_address
  disconnect_peer-goes d h pass peer has short live =
      let (a, e, same) =
        send_command-driver d control rtp has control pass.garbage pass.sent _ short in
      let address : get_address d.heap h ≡ some (peer.address.size, peer.address.addr) =
        rw (live, get_address) refl in
      (
        _,
        ap (λ o. goodbye d h pass o d.control_socket) address
            ∙ ap (goodbye d h pass (some (peer.address.size, peer.address.addr))) has.has_control
            ∙ ap (without_peer h) e,
        ap (λ (x : AppleMidiDriver). with_peers x (remove_peer x.rtp.peers x.heap h)) same,
      )

  disconnect_loop-empties :
      (fuel : ℕ) (d : AppleMidiDriver) (passes : ℕ → Pass)
      → HasSockets d control rtp
      → length d.name < 48
      → IsTidy d.rtp.peers d.heap
      → length (pointers d.rtp.peers) < fuel
      → (a : Answered) × (disconnect_loop fuel d passes ≡ some a)
        × HasSockets a.driver control rtp
        × (pointers a.driver.rtp.peers ≡ [])
        × IsTidy a.driver.rtp.peers a.driver.heap
        × (a.driver.rtp.refs ≡ d.rtp.refs)
  unfolding disconnect_loop
  disconnect_loop-empties zero d passes has short tidy l = absurd (omega arith)
  disconnect_loop-empties (suc fuel) d passes has short tidy l =
      elim (Option-cases (first_peer d.rtp.peers)) [
        | inl e ↦ (
          silent d 0,
          ap (λ o. disconnect_next o d (passes fuel) (λ d'. disconnect_loop fuel d' passes)) e,
          has,
          first_peer-none d.rtp.peers e,
          tidy,
          refl,
        )
        | inr (h, e) ↦
            let (p, m, s) = first_peer-slot d.rtp.peers h e in
            let (peer, live) = tidy.sound.live p h s in
            let (a, f, same) = disconnect_peer-goes d h (passes fuel) peer has short live in
            let d' = with_peers d (remove_peer d.rtp.peers d.heap h) in
            let (tidy', less) = remove-first d.rtp.peers d.heap h tidy e in
            let has' : HasSockets d' control rtp = record {
              has_control = has.has_control;
              has_rtp = has.has_rtp;
            } in
            let (b, g, kept, empty, tidy'', refs) =
              disconnect_loop-empties fuel d' passes has' short tidy' (omega (arith, less, l)) in
            (
              _,
              ap (λ o. disconnect_next o d (passes fuel) (λ d'. disconnect_loop fuel d' passes)) e
                  ∙ ap (λ o. after_packet o (λ d'. disconnect_loop fuel d' passes)) f
                  ∙ ap (λ x. more_datagrams a.datagrams (disconnect_loop fuel x passes)) same
                  ∙ ap (more_datagrams a.datagrams) g,
              record { has_control = kept.has_control; has_rtp = kept.has_rtp },
              empty,
              tidy'',
              refs,
            )
      ]

  -- A disconnect of everything, for a driver with both sockets and a tidy table: it ends, with 17
  -- passes, whatever the kernel answers; then the table is empty, every peer is freed, and both sockets
  -- are released and gone. The driver's name has less than 48 bytes.
  pub disconnect-empties :
      (d : AppleMidiDriver) (passes : ℕ → Pass)
      → HasSockets d control rtp
      → length d.name < 48
      → IsTidy d.rtp.peers d.heap
      → (r : Disconnected) × (disconnect d none passes ≡ some r)
        × (pointers r.driver.rtp.peers ≡ [])
        × ((h : ℕ) → get_peer r.driver.heap h ≡ none)
        × (r.driver.rtp.refs ≡ d.rtp.refs)
        × (r.driver.control_socket ≡ none)
        × (r.driver.rtp_socket ≡ none)
        × (r.calls ≡ sock_release control ∷ sock_release rtp ∷ [])
  unfolding disconnect
  disconnect-empties d passes has short tidy =
      let few = length-pointers-le d.rtp.peers in
      let (a, e, kept, empty, tidy', refs) =
        disconnect_loop-empties 17 d passes has short tidy
          (omega (arith, few, tidy.sound.full_length)) in
      (
        _,
        ap (close none) e,
        empty,
        empty-IsTidy a.driver.rtp.peers a.driver.heap tidy' empty,
        refs,
        refl,
        refl,
        rw (kept.has_control, kept.has_rtp) refl,
      )
