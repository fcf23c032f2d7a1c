-- ===== src/AppleMidi/Rtp/Table/Tidy.antt =====
-- No peer is lost: what is allocated stands in the table, and the table has the one reference.
use cmidid_kerneldriver.Base.{
  ℕ, zero, suc, true, false, [], ◌∷◌, ◌++◌, none, some, ◌<◌, ◌≡◌, ◌≢◌, inl, inr, sym, ap, ◌∙◌,
  subst, ◌==◌, ==_iff, Bool-cases, Option-cases, arith, length, set, get_or-set,
  get_elem?-snoc_cases,
}
use cmidid_kerneldriver.AppleMidi.Rtp.Peer.{Peer, Heap, get_peer, at_block, release_peer}
use cmidid_kerneldriver.AppleMidi.Rtp.Peer.Live.{at_block-some, get_peer-release_peer_last}
use cmidid_kerneldriver.AppleMidi.Rtp.Table.{Slots, slot, remove_peer}
use cmidid_kerneldriver.AppleMidi.Rtp.Table.Walk.{pointers}
use cmidid_kerneldriver.AppleMidi.Rtp.Table.Sound.{
  IsSound, get_peer-release_peer_ne, remove_peer_cases, cleared-IsSound, longer-IsSound,
  joined-IsSound,
}

-- The table is sound, and every peer that is allocated is in it and has one reference.
pub record IsTidy (slots : Slots) (heap : Heap) : Type 0 where
  pub sound : IsSound slots heap
  pub owned :
      (h : ℕ) (peer : Peer)
      → get_peer heap h ≡ some peer
      → (p : ℕ) × (slot slots p ≡ some h) × (peer.refs ≡ 1)

module _ (slots : Slots) (heap : Heap) (tidy : IsTidy slots heap) where
  -- A slot that is cleared, and the peer in it released.
  pub cleared-IsTidy :
      (p h : ℕ) → p < 16 → slot slots p ≡ some h → IsTidy (set slots p none) (release_peer heap h)
  cleared-IsTidy p h l here = record {
    sound = cleared-IsSound slots heap tidy.sound p h l here;
    owned = λ g peer e. elim (Bool-cases (h == g)) [
      | inl y ↦
          let same : h ≡ g = (==_iff h g).0 y in
          let (q, live) = tidy.sound.live p h here in
          let (r, s, one) = tidy.owned h q live in
          let gone = get_peer-release_peer_last heap h q live one in
          let e' = subst (λ k. get_peer (release_peer heap h) k ≡ some peer) (sym same) e in
          absurd (cc (gone, e'))
      | inr n ↦
          let ne : h ≢ g = λ same. absurd (ground arith) in
          let (r, s, one) = tidy.owned g peer (sym (get_peer-release_peer_ne heap h g ne) ∙ e) in
          let in_reach : p < length slots = omega (arith, tidy.sound.full_length, l) in
          let other : (p == r) ≡ false = elim (Bool-cases (p == r)) [
            | inr z ↦ z
            | inl z ↦
                let at = subst (λ k. slot slots k ≡ some h) ((==_iff p r).0 z) here in
                absurd (ground arith)
          ] in
          (r, rw (get_or-set slots p r none none in_reach, other) s, one)
    ];
  }

  pub remove_peer-IsTidy :
      (h : ℕ) → IsTidy (remove_peer slots heap h).slots (remove_peer slots heap h).heap
  remove_peer-IsTidy h = elim (remove_peer_cases slots heap h) [
    | inl (absent, e) ↦ rw e tidy
    | inr (p, l, s, e) ↦ rw e (cleared-IsTidy p h l s)
  ]

  -- A block that was freed again.
  pub freed-IsTidy : IsTidy slots (heap ++ none ∷ [])
  freed-IsTidy = record {
    sound = longer-IsSound slots heap tidy.sound none;
    owned = λ h peer e. elim (get_elem?-snoc_cases heap none h (at_block-some _ peer e)) [
      | inl old ↦ tidy.owned h peer (ap at_block old)
      | inr (at, bad) ↦ absurd (cc)
    ];
  }

  -- A new peer in a slot that was free.
  pub joined-IsTidy :
      (p : ℕ) (peer : Peer)
      → p < 16
      → slot slots p ≡ none
      → peer.refs ≡ 1
      → IsTidy (set slots p (some (length heap))) (heap ++ some peer ∷ [])
  joined-IsTidy p peer l free one =
      let in_reach : p < length slots = omega (arith, tidy.sound.full_length, l) in
      let at = λ (q : ℕ). get_or-set slots p q (some (length heap)) none in_reach in
      record {
        sound = joined-IsSound slots heap tidy.sound p peer l;
        owned = λ h q e. elim (get_elem?-snoc_cases heap (some peer) h (at_block-some _ q e)) [
          | inl old ↦
              let (r, s, refs) = tidy.owned h q (ap at_block old) in
              let other : (p == r) ≡ false = elim (Bool-cases (p == r)) [
                | inr z ↦ z
                | inl z ↦
                    let s' = subst (λ k. slot slots k ≡ some h) (sym ((==_iff p r).0 z)) s in
                    absurd (cc (free, s'))
              ] in
              (r, rw (at r, other) s, refs)
          | inr (here, same) ↦
              let self : (p == p) ≡ true = ground arith in
              (p, rw (at p, self) (ap some (sym here)), cc)
        ];
      }

-- Once the table is empty, no peer is allocated.
pub empty-IsTidy :
    (slots : Slots) (heap : Heap)
    → IsTidy slots heap
    → pointers slots ≡ []
    → (h : ℕ) → get_peer heap h ≡ none
unfolding pointers
empty-IsTidy slots heap tidy empty h = elim (Option-cases (get_peer heap h)) [
  | inl e ↦ e
  | inr (peer, e) ↦
      let (p, s, one) = tidy.owned h peer e in absurd (pointers-ne-nil slots p h s empty)
]
  where
    pointers-ne-nil : (slots : Slots) (p h : ℕ) → slot slots p ≡ some h → pointers slots ≡ [] → ⊥
    pointers-ne-nil [] p h e f = absurd (cc)
    pointers-ne-nil (none ∷ slots) zero h e f = absurd (cc)
    pointers-ne-nil (some g ∷ slots) zero h e f = absurd (cc)
    pointers-ne-nil (none ∷ slots) (suc p) h e f = pointers-ne-nil slots p h e f
    pointers-ne-nil (some g ∷ slots) (suc p) h e f = absurd (cc)
