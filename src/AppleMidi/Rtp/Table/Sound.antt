-- ===== src/AppleMidi/Rtp/Table/Sound.antt =====
-- The table of peers of a session with the heap, as the driver keeps them.
use cmidid_kerneldriver.Base.{
  ℕ, true, false, [], ◌∷◌, ◌++◌, Option, none, some, ◌+◌, ◌%◌, ◌<◌, ◌≡◌, ◌≢◌, ◌⊎◌, inl, inr, refl,
  sym, ap, ◌∙◌, subst, ◌==◌, ==_iff, Bool-cases, Option-cases, arith, length, length-set, set,
  get_or-set, get_elem?-set_ne, get_elem?-append_left, get_elem?-snoc, lt-length, if◌then◌else◌,
}
use cmidid_kerneldriver.AppleMidi.Rtp.Peer.{Peer, Heap, get_peer, at_block, release_peer}
use cmidid_kerneldriver.AppleMidi.Rtp.Peer.Live.{block}
use cmidid_kerneldriver.AppleMidi.Rtp.Table.{Slots, slot, is_pointer, ssrc_of, probe, remove_peer}
use cmidid_kerneldriver.AppleMidi.Rtp.Table.Probe.{probe-some, probe_full}

-- There are 16 slots, every pointer in them is to a peer that is allocated, and no pointer stands
-- in two slots.
pub record IsSound (slots : Slots) (heap : Heap) : Type 0 where
  pub full_length : length slots ≡ 16
  pub live : (p h : ℕ) → slot slots p ≡ some h → (peer : Peer) × (get_peer heap h ≡ some peer)
  pub once : (p q h : ℕ) → slot slots p ≡ some h → slot slots q ≡ some h → p ≡ q

pub pointer-eq : (h : ℕ) (s : Option ℕ) → is_pointer h s ≡ true → s ≡ some h
pointer-eq h none e = absurd (cc)
pointer-eq h (some g) e = ap some (sym ((==_iff h g).0 e))

pub remove_peer_cases :
    (slots : Slots) (heap : Heap) (h : ℕ)
    → (((p : ℕ) → p < 16 → is_pointer h (slot slots p) ≡ false)
        × (remove_peer slots heap h ≡ record { code = 1; slots = slots; heap = heap }))
      ⊎ ((p : ℕ) × (p < 16)
          × (slot slots p ≡ some h)
          × (remove_peer slots heap h
              ≡ record { code = 0; slots = set slots p none; heap = release_peer heap h }))
unfolding remove_peer
remove_peer_cases slots heap h =
    let off = ssrc_of heap h % 16 in
    elim (Option-cases (probe (is_pointer h) slots off 16 0)) [
      | inl e ↦ inl (λ p l. probe_full (is_pointer h) slots off e p l, rw e refl)
      | inr (p, e) ↦
          let (l, t) = probe-some (is_pointer h) slots off 16 0 p e in
          inr (p, l, pointer-eq h (slot slots p) t, rw e refl)
    ]

-- A peer that is released leaves the others as they are.
pub get_peer-release_peer_ne :
    (heap : Heap) (h g : ℕ) → h ≢ g → get_peer (release_peer heap h) g ≡ get_peer heap g
unfolding release_peer
get_peer-release_peer_ne heap h g ne = elim (Option-cases (get_peer heap h)) [
  | inl e ↦ rw e refl
  | inr (peer, e) ↦
      let refs = (peer.refs + 4294967295) % 4294967296 in
      elim (Bool-cases (refs == 0)) [
        | inl z ↦ rw (e, z) (ap at_block (get_elem?-set_ne heap h g none ne))
        | inr z ↦
            rw (e, z)
              (ap at_block (get_elem?-set_ne heap h g (some (record peer { refs = refs })) ne))
      ]
]

module _ (slots : Slots) (heap : Heap) (sound : IsSound slots heap) where
  abbrev pub within : (p h : ℕ) → slot slots p ≡ some h → h < length heap
  within p h e =
      let (peer, l) = sound.live p h e in lt-length heap h (some peer) (block heap h peer l)

  -- A slot that is cleared, and the peer in it released.
  pub cleared-IsSound :
      (p h : ℕ) → p < 16 → slot slots p ≡ some h → IsSound (set slots p none) (release_peer heap h)
  cleared-IsSound p h l here =
      let in_reach : p < length slots = omega (arith, sound.full_length, l) in
      let at = λ (q : ℕ). get_or-set slots p q none none in_reach in
      let old = λ (q g : ℕ) (e : slot (set slots p none) q ≡ some g).
        cleared_before p q g (slot (set slots p none) q) (at q) e in
      record {
        full_length = length-set slots p none ∙ sound.full_length;
        live = λ q g e.
            let (ne, s) = old q g e in
            let other : h ≢ g = λ same. ne (sound.once p q h here (s ∙ ap some (sym same))) in
            let (peer, x) = sound.live q g s in (peer, get_peer-release_peer_ne heap h g other ∙ x);
        once = λ q r g e f. sound.once q r g (old q g e).1 (old r g f).1;
      }
    where
      cleared_before :
          (p q g : ℕ) (x : Option ℕ)
          → x ≡ (if p == q then none else slot slots q)
          → x ≡ some g
          → (p ≢ q) × (slot slots q ≡ some g)
      cleared_before p q g x e f = elim (Bool-cases (p == q)) [
        | inl y ↦ absurd (ground arith)
        | inr y ↦ ((λ z. absurd (ground arith)), ground arith)
      ]

  -- Removing a peer, be it in the table or not.
  pub remove_peer-IsSound :
      (h : ℕ) → IsSound (remove_peer slots heap h).slots (remove_peer slots heap h).heap
  remove_peer-IsSound h = elim (remove_peer_cases slots heap h) [
    | inl (absent, e) ↦ rw e sound
    | inr (p, l, s, e) ↦ rw e (cleared-IsSound p h l s)
  ]

  -- A longer heap.
  pub longer-IsSound : (b : Option Peer) → IsSound slots (heap ++ b ∷ [])
  longer-IsSound b = record {
    full_length = sound.full_length;
    live = λ p h e.
        let (peer, l) = sound.live p h e in
        (peer, ap at_block (get_elem?-append_left heap (b ∷ []) h (within p h e)) ∙ l);
    once = sound.once;
  }

  -- A new peer in a free slot.
  pub joined-IsSound :
      (p : ℕ) (peer : Peer)
      → p < 16
      → IsSound (set slots p (some (length heap))) (heap ++ some peer ∷ [])
  joined-IsSound p peer l =
      let in_reach : p < length slots = omega (arith, sound.full_length, l) in
      let at = λ (q : ℕ). get_or-set slots p q (some (length heap)) none in_reach in
      let old = longer-IsSound (some peer) in
      record {
        full_length = length-set slots p (some (length heap)) ∙ sound.full_length;
        live = λ q g e. elim (Bool-cases (p == q)) [
          | inl y ↦
              let here : some (length heap) ≡ some g = rw (at q, y) at e in
              (
                peer,
                subst (λ k. get_peer (heap ++ some peer ∷ []) k ≡ some peer) (some-eq here)
                    (ap at_block (get_elem?-snoc heap (some peer))),
              )
          | inr n ↦ old.live q g (rw (at q, n) at e)
        ];
        once = λ q r g e f. elim (Bool-cases (p == q)) [
          | inl y ↦ elim (Bool-cases (p == r)) [
            | inl z ↦ ground arith
            | inr z ↦
                let here : some (length heap) ≡ some g = rw (at q, y) at e in
                let there : slot slots r ≡ some g = rw (at r, z) at f in
                absurd (omega (arith, within r g there, some-eq here))
          ]
          | inr y ↦ elim (Bool-cases (p == r)) [
            | inl z ↦
                let here : some (length heap) ≡ some g = rw (at r, z) at f in
                let there : slot slots q ≡ some g = rw (at q, y) at e in
                absurd (omega (arith, within q g there, some-eq here))
            | inr z ↦ sound.once q r g (rw (at q, y) at e) (rw (at r, z) at f)
          ]
        ];
      }
    where
      some-eq : {a b : ℕ} → some a ≡ some b → a ≡ b
      some-eq e = cc
