-- ===== src/AppleMidi/Driver/Respond/Goodbye.antt =====
-- A peer that was admitted and ends its session.
use cmidid_kerneldriver.Base.{
  ℕ, Bool, true, false, [], ◌∷◌, ◌++◌, Option, none, some, ℤ, ◌<◌, ◌≡◌, inl, inr, refl, sym, ap,
  subst, ◌∙◌, ◌%◌, ◌==◌, ==_iff, Bool-cases, Option-cases, arith, length, set, set-set, set-get_or,
  get_or-set, get_elem?-append_left, get_elem?-snoc, if◌then◌else◌,
}
use cmidid_kerneldriver.AppleMidi.Rtp.Peer.{SockAddr, create_peer, Peer, Heap, fresh_peer}
use cmidid_kerneldriver.AppleMidi.Rtp.Table.{
  Slots, Changed, slot, is_pointer, has_ssrc, ssrc_of, probe, remove_peer, find_peer_by_ssrc,
}
use cmidid_kerneldriver.AppleMidi.Rtp.Table.Probe.{probe-some, probe_full}
use cmidid_kerneldriver.AppleMidi.Rtp.Table.Laws.{found_again}
use cmidid_kerneldriver.AppleMidi.Command.{end_session, SessionData, session}
use cmidid_kerneldriver.AppleMidi.Driver.{AppleMidiDriver, silent}
use cmidid_kerneldriver.AppleMidi.Driver.Respond.{
  admit_peer, joined_driver, with_peers, removed, respond,
}
use cmidid_kerneldriver.AppleMidi.Driver.Respond.Invitation.{admitted_cases, release-snoc}

-- Every pointer of the table is one into the heap.
abbrev pub IsWithin : Slots → Heap → Type 0
IsWithin slots heap = (p h : ℕ) → slot slots p ≡ some h → h < length heap

-- No peer of the table has the SSRC.
abbrev pub IsStranger : Slots → Heap → ℕ → Type 0
IsStranger slots heap ssrc = (p : ℕ) → p < 16 → has_ssrc heap ssrc (slot slots p) ≡ false

ssrc_of-append :
    (heap : Heap) (b : Option Peer) (h : ℕ)
    → h < length heap
    → ssrc_of (heap ++ b ∷ []) h ≡ ssrc_of heap h
ssrc_of-append heap b h l = rw (get_elem?-append_left heap (b ∷ []) h l, ssrc_of) refl

has_ssrc-append :
    (heap : Heap) (b : Option Peer) (ssrc : ℕ) (s : Option ℕ)
    → ((h : ℕ) → s ≡ some h → h < length heap)
    → has_ssrc (heap ++ b ∷ []) ssrc s ≡ has_ssrc heap ssrc s
has_ssrc-append heap b ssrc none w = refl
has_ssrc-append heap b ssrc (some h) w = ap (◌== ssrc) (ssrc_of-append heap b h (w h refl))

other_pointer : (n : ℕ) (s : Option ℕ) → ((h : ℕ) → s ≡ some h → h < n) → is_pointer n s ≡ false
other_pointer n none w = refl
other_pointer n (some h) w = let l = w h refl in ground arith

module _ (slots : Slots) (heap : Heap) (ssrc : ℕ) (within : IsWithin slots heap)
    (new : IsStranger slots heap ssrc) where
  abbrev heap_with : Option Peer → Heap
  heap_with b = heap ++ b ∷ []

  still_new : (b : Option Peer) → IsStranger slots (heap_with b) ssrc
  still_new b p l = has_ssrc-append heap b ssrc (slot slots p) (within p) ∙ new p l

  find-stranger : (b : Option Peer) → find_peer_by_ssrc slots (heap_with b) ssrc ≡ none
  unfolding find_peer_by_ssrc
  find-stranger b =
      elim (Option-cases (probe (has_ssrc (heap_with b) ssrc) slots (ssrc % 16) 16 0)) [
        | inl e ↦ rw e refl
        | inr (p, e) ↦
            let (l, t) = probe-some (has_ssrc (heap_with b) ssrc) slots (ssrc % 16) 16 0 p e in
            absurd (cc (still_new b p l, t))
      ]

  -- The new peer at the slot `p`.
  module _ (size p : ℕ) (from : SockAddr) (len : length slots ≡ 16) (l : p < 16)
      (free : slot slots p ≡ none) where
    abbrev joined : Slots
    joined = set slots p (some (length heap))

    abbrev newcomer : Option Peer
    newcomer = some (fresh_peer ssrc size from)

    in_reach : p < length slots
    in_reach = omega (arith, len, l)

    at_slot : (q : ℕ) → slot joined q ≡ (if p == q then some (length heap) else slot slots q)
    at_slot q = get_or-set slots p q (some (length heap)) none in_reach

    known : has_ssrc (heap_with newcomer) ssrc (some (length heap)) ≡ true
    known =
        let at : ssrc_of (heap_with newcomer) (length heap) ≡ ssrc =
          rw (get_elem?-snoc heap newcomer, ssrc_of) refl in
        (==_iff (ssrc_of (heap_with newcomer) (length heap)) ssrc).1 at

    test_at : (q : ℕ) → q < 16 → has_ssrc (heap_with newcomer) ssrc (slot joined q) ≡ (p == q)
    test_at q m = elim (Bool-cases (p == q)) [
      | inl e ↦ rw (at_slot q, e) known
      | inr e ↦ rw (at_slot q, e) (still_new newcomer q m)
    ]

    find-newcomer : find_peer_by_ssrc joined (heap_with newcomer) ssrc ≡ some (length heap)
    unfolding find_peer_by_ssrc
    find-newcomer =
        let test = has_ssrc (heap_with newcomer) ssrc in
        elim (Option-cases (probe test joined (ssrc % 16) 16 0)) [
          | inl e ↦ absurd (ground (arith, probe_full test joined (ssrc % 16) e p l, test_at p l))
          | inr (q, e) ↦
              let (m, t) = probe-some test joined (ssrc % 16) 16 0 q e in
              let same : (p == q) ≡ true = sym (test_at q m) ∙ t in rw (e, at_slot q, same) refl
        ]

    remove-newcomer :
        remove_peer joined (heap_with newcomer) (length heap)
        ≡ record { code = 0; slots = slots; heap = heap_with none }
    unfolding remove_peer
    remove-newcomer =
        let off = ssrc_of (heap_with newcomer) (length heap) % 16 in
        let again =
          found_again slots p (length heap) off l len
            (λ q m. other_pointer (length heap) (slot slots q) (within q)) in
        rw
          (
            again,
            set-set slots p (some (length heap)) none,
            set-get_or slots p none none in_reach free,
            release-snoc heap ssrc size from,
          )
          refl

some-eq : {d d' : AppleMidiDriver} → some d ≡ some d' → d ≡ d'
some-eq e = cc

-- A peer that was admitted and then ends its session, from any socket and address, leaves the
-- driver as it was, but for a block of the heap that was freed, also if the table was full. The
-- conditions: the table has 16 slots, its pointers are into the heap, and no other peer of it has
-- the SSRC.
pub respond-admit_peer :
    (d d' : AppleMidiDriver) (ssrc : ℕ) (from : SockAddr) (memory : Bool)
    → admit_peer memory d ssrc from ≡ some d'
    → length d.rtp.peers ≡ 16
    → IsWithin d.rtp.peers d.heap
    → IsStranger d.rtp.peers d.heap ssrc
    → (sk : ℕ) (from' : SockAddr) (now : ℕ) (sent : ℤ) (memory' : Bool) (s : SessionData)
    → s.ssrc ≡ ssrc
    → respond d' sk from' now sent memory' (session end_session s)
      ≡ some (silent (record d { heap = d.heap ++ none ∷ [] }) 0)
unfolding respond admit_peer create_peer joined_driver
respond-admit_peer d d' ssrc from false there len within new sk from' now sent memory' s same =
    absurd (cc)
respond-admit_peer d d' ssrc from true there len within new sk from' now sent memory' s same =
    let it : joined_driver d ssrc from ≡ d' = some-eq there in
    let slots = d.rtp.peers in
    let found = λ (c : Changed). find_peer_by_ssrc c.slots c.heap s.ssrc in
    let after = λ (c : Changed). some (silent (removed (with_peers d c) (found c)) 0) in
    subst
      (λ x.
        respond x sk from' now sent memory' (session end_session s)
        ≡ some (silent (record d { heap = d.heap ++ none ∷ [] }) 0))
      it
      (elim (admitted_cases slots d.heap ssrc 16 from) [
        | inl (full, e) ↦
            ap after e ∙ rw (same, find-stranger slots d.heap ssrc within new none) refl
        | inr (p, l, free, e) ↦
            ap after e
            ∙ rw
                (
                  same,
                  find-newcomer slots d.heap ssrc within new 16 p from len l free,
                  remove-newcomer slots d.heap ssrc within new 16 p from len l free,
                )
                refl
      ])
