-- ===== src/AppleMidi/Driver/Timer/Dangling.antt =====
-- Timeouts while a synchronisation is open, and after the peer has left.
use cmidid_kerneldriver.Base.{
  ℕ, suc, true, false, List, [], ◌∷◌, Option, none, some, ℤ, ◌<◌, ◌≡◌, ◌≢◌, refl, sym, ap, ◌∙◌, inl,
  Bool, inr, arith, ◌==◌, ◌||◌, Bool-cases, length, set, get_or-set,
}
use cmidid_kerneldriver.AppleMidi.Rtp.Peer.{SockAddr, Peer, get_peer, get_address}
use cmidid_kerneldriver.AppleMidi.Rtp.Peer.Live.{get_peer-release_peer_last}
use cmidid_kerneldriver.AppleMidi.Rtp.Table.{
  Slots, slot, is_pointer, after_peer, first_of, next_peer, find_peer_by_ssrc,
}
use cmidid_kerneldriver.AppleMidi.Rtp.Table.Laws.{find_peer_by_ssrc_lem}
use cmidid_kerneldriver.AppleMidi.Rtp.Table.Sound.{IsSound, pointer-eq, remove_peer_cases}
use cmidid_kerneldriver.AppleMidi.Command.{end_session, SessionData, session}
use cmidid_kerneldriver.AppleMidi.Driver.{AppleMidiDriver, Answered, silent}
use cmidid_kerneldriver.AppleMidi.Driver.Respond.{
  removed, unlocked, after_packet, more_datagrams, respond,
}
use cmidid_kerneldriver.AppleMidi.Driver.Timer.{
  Tick, next_or_kept, moved_on, start_peer, start_at, timeout_locked, idle_timeout, timeouts,
}

start_peer-open :
    (d : AppleMidiDriver) (t : Tick) (h : Option ℕ)
    → d.sync_state ≢ 0
    → start_peer d t h ≡ some (silent d 0)
start_peer-open d t none o = refl
start_peer-open d t (some h) o = let e : (d.sync_state == 0) ≡ false = ground arith in rw e refl

-- One timeout while a synchronisation is open.
idle_timeout-open :
    (d : AppleMidiDriver) (t : Tick)
    → d.sync_state ≢ 0
    → (a : Answered) × ((idle_timeout d t).answered ≡ some a)
      × (a.datagrams ≡ [])
      × (a.driver.sync_state ≡ d.sync_state)
unfolding idle_timeout
idle_timeout-open d t o = elim (Bool-cases (d.locked || t.busy)) [
  | inl e ↦ (silent d 0, rw e refl, refl, refl)
  | inr e ↦
      let held : AppleMidiDriver = record d { locked = true } in
      let next = next_peer d.rtp.peers d.peer in
      let d' : AppleMidiDriver = record (moved_on held next) { locked = false } in
      (
        silent d' 0,
        rw e (ap unlocked (start_peer-open (moved_on held next) t (next_or_kept d.peer next) o)),
        refl,
        refl,
      )
]

-- While a synchronisation is open no timeout sends anything, nor ends it: if the answer of the other
-- side is lost, the driver never synchronises again by itself.
pub timeouts-open :
    (d : AppleMidiDriver) (ts : List Tick)
    → d.sync_state ≢ 0
    → (a : Answered) × (timeouts d ts ≡ some a)
      × (a.datagrams ≡ [])
      × (a.driver.sync_state ≡ d.sync_state)
unfolding timeouts
timeouts-open d [] o = (_, refl, refl, refl)
timeouts-open d (t ∷ ts) o =
    let (a, e, quiet, same) = idle_timeout-open d t o in
    let (b, f, quiet', same') = timeouts-open a.driver ts (λ z. o (sym same ∙ z)) in
    (
      record b { datagrams = [] },
      ap (λ r. after_packet r (λ d'. timeouts d' ts)) e
          ∙ ap (more_datagrams a.datagrams) f
          ∙ rw (quiet, quiet') refl,
      refl,
      same' ∙ same,
    )

-- A pointer that is in no slot.
after_peer-absent :
    (slots : Slots) (h : ℕ)
    → ((p : ℕ) → is_pointer h (slot slots p) ≡ false)
    → after_peer slots h ≡ none
unfolding after_peer
after_peer-absent [] h absent = refl
after_peer-absent (s ∷ slots) h absent =
    rw (absent 0) (after_peer-absent slots h (λ p. absent (suc p)))

module _ (d : AppleMidiDriver) (h : ℕ) (peer : Peer) (sound : IsSound d.rtp.peers d.heap) where
  -- The driver without the peer.
  abbrev left : AppleMidiDriver
  left = removed d (some h)

  -- Once the peer is removed, no slot points to it, and its block is freed.
  left-gone :
      (p : ℕ)
      → p < 16
      → slot d.rtp.peers p ≡ some h
      → get_peer d.heap h ≡ some peer
      → peer.refs ≡ 1
      → (next_peer left.rtp.peers (some h) ≡ none) × (get_address left.heap h ≡ none)
  unfolding next_peer get_address
  left-gone p m here live last = elim (remove_peer_cases d.rtp.peers d.heap h) [
    | inl (absent, e) ↦ absurd (ground (arith, absent p m))
    | inr (q, l, there, e) ↦
        let slots = set d.rtp.peers q none in
        let in_reach : q < length d.rtp.peers = omega (arith, sound.full_length, l) in
        let nowhere : (r : ℕ) → is_pointer h (slot slots r) ≡ false = λ r.
          let at = get_or-set d.rtp.peers q r none none in_reach in
          elim (Bool-cases (q == r)) [
            | inl y ↦ rw (at, y) refl
            | inr y ↦ elim (Bool-cases (is_pointer h (slot d.rtp.peers r))) [
              | inl x ↦
                  let same = sound.once q r h there (pointer-eq h (slot d.rtp.peers r) x) in
                  absurd (ground arith)
              | inr x ↦ rw (at, y) x
            ]
          ] in
        rw e (
          ap first_of (after_peer-absent slots h nowhere),
          (let gone = get_peer-release_peer_last d.heap h peer live last in
              rw (gone, get_address) refl),
        )
  ]

-- The peer that the driver points to ends its session, while no synchronisation is open and the
-- table holds the only reference to it: the driver keeps the pointer, and at the next timeout that
-- finds the lock free it reads the address of the peer that was freed, which is undefined.
pub idle_timeout-end_session :
    (d : AppleMidiDriver) (h : ℕ) (peer : Peer) (s : SessionData) (t : Tick)
    → IsSound d.rtp.peers d.heap
    → d.peer ≡ some h
    → find_peer_by_ssrc d.rtp.peers d.heap s.ssrc ≡ some h
    → get_peer d.heap h ≡ some peer
    → peer.refs ≡ 1
    → d.sync_state ≡ 0
    → d.locked ≡ false
    → t.busy ≡ false
    → (sk : ℕ) (from : SockAddr) (now : ℕ) (sent : ℤ) (memory : Bool)
    → (a : Answered) × (respond d sk from now sent memory (session end_session s) ≡ some a)
      × (a.driver.peer ≡ some h)
      × ((idle_timeout a.driver t).answered ≡ none)
unfolding respond idle_timeout
idle_timeout-end_session d h peer s t sound points finds live last synced free idle sk from now sent
      memory =
    elim (find_peer_by_ssrc_lem d.rtp.peers d.heap s.ssrc) [
      | inr (unknown, e) ↦ absurd (cc (finds, e))
      | inl (knows, (g, p, l, here, x, e)) ↦
          let here' : slot d.rtp.peers p ≡ some h = here ∙ sym e ∙ finds in
          let (no_next, gone) = left-gone d h peer sound p l here' live last in
          let d' = left d h peer sound in
          let held : AppleMidiDriver = record d' { locked = true } in
          let lock_free : (d.locked || t.busy) ≡ false = ground arith in
          let open_sync : (d.sync_state == 0) ≡ true = ground arith in
          let next : next_peer d'.rtp.peers d.peer ≡ none =
            ap (next_peer d'.rtp.peers) points ∙ no_next in
          let starts : start_peer (moved_on held none) t (some h) ≡ none =
            rw open_sync (ap (start_at (moved_on held none) t) gone) in
          (
            silent d' 0,
            ap (λ o. some (silent (removed d o) 0)) finds,
            points,
            rw lock_free (
                ap unlocked (
                  ap (timeout_locked held t) next
                  ∙ ap (start_peer (moved_on held none) t) points
                  ∙ starts)),
          )
    ]
