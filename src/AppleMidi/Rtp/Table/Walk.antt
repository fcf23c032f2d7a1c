-- ===== src/AppleMidi/Rtp/Table/Walk.antt =====
-- The walk over the peers of a session that `RTPMIDISessionSend` makes.
use cmidid_kerneldriver.Base.{
  ℕ, zero, suc, false, Option, none, some, List, [], ◌∷◌, ◌++◌, ◌≡◌, refl, sym, ◌∙◌, ap, subst,
  arith, length, All, ◌==◌, ◌<◌,
}
use cmidid_kerneldriver.AppleMidi.Rtp.Table.{
  Slots, is_pointer, first_of, next_peer, first_peer, after_peer,
}

-- The loop `RTPSessionNextPeer( session, &peer ); while( peer != NULL ) { ...; RTPSessionNextPeer }`:
-- the peers that it visits from the given one on. `none` if the fuel does not suffice. A pointer
-- that is not in the table stays, so the loop would not end.
abbrev pub next_or_same : Option (Option ℕ) → ℕ → Option ℕ
next_or_same none h = some h
next_or_same (some next) h = next

abbrev cons_all : ℕ → Option (List ℕ) → Option (List ℕ)
cons_all h none = none
cons_all h (some hs) = some (h ∷ hs)

unfoldable pub walk : Slots → ℕ → Option ℕ → Option (List ℕ)
walk slots zero at = none
walk slots (suc fuel) none = some []
walk slots (suc fuel) (some h) =
    cons_all h (walk slots fuel (next_or_same (next_peer slots (some h)) h))

-- The pointers of a table, in the order of the slots.
unfoldable pub pointers : Slots → List ℕ
pointers [] = []
pointers (none ∷ slots) = pointers slots
pointers (some h ∷ slots) = h ∷ pointers slots

-- No pointer stands in two slots.
abbrev pub IsDistinct : Slots → Type 0
IsDistinct [] = Unit
IsDistinct (none ∷ slots) = IsDistinct slots
IsDistinct (some h ∷ slots) = All (λ s. is_pointer h s ≡ false) slots × IsDistinct slots

pub snoc_append :
    (pre : Slots) (s : Option ℕ) (post : Slots) → (pre ++ s ∷ []) ++ post ≡ pre ++ s ∷ post
snoc_append [] s post = refl
snoc_append (x ∷ pre) s post = ap (x ∷◌) (snoc_append pre s post)

All-middle :
    (g h : ℕ) (pre post : Slots)
    → All (λ s. is_pointer g s ≡ false) (pre ++ some h ∷ post)
    → (h == g) ≡ false
All-middle g h [] post (e, es) = ground arith
All-middle g h (x ∷ pre) post (e, es) = All-middle g h pre post es

after_peer-split :
    (pre : Slots) (h : ℕ) (post : Slots)
    → IsDistinct (pre ++ some h ∷ post)
    → after_peer (pre ++ some h ∷ post) h ≡ some post
unfolding after_peer
after_peer-split [] h post d = ground arith
after_peer-split (none ∷ pre) h post d = after_peer-split pre h post d
after_peer-split (some g ∷ pre) h post (a, d) =
    rw (All-middle g h pre post a) (after_peer-split pre h post d)

pub next_peer-split :
    (pre : Slots) (h : ℕ) (post : Slots)
    → IsDistinct (pre ++ some h ∷ post)
    → next_peer (pre ++ some h ∷ post) (some h) ≡ some (first_peer post)
unfolding next_peer
next_peer-split pre h post d = ap first_of (after_peer-split pre h post d)

walk_from :
    (pre post : Slots) (fuel : ℕ)
    → IsDistinct (pre ++ post)
    → length post < fuel
    → walk (pre ++ post) fuel (first_peer post) ≡ some (pointers post)
unfolding walk first_peer pointers
walk_from pre post zero d l = absurd (omega arith)
walk_from pre [] (suc fuel) d l = refl
walk_from pre (none ∷ post) (suc fuel) d l =
    let e = snoc_append pre none post in
    let step =
      walk_from (pre ++ none ∷ []) post (suc fuel) (subst IsDistinct (sym e) d) (omega arith) in
    subst (λ ss. walk ss (suc fuel) (first_peer post) ≡ some (pointers post)) e step
walk_from pre (some h ∷ post) (suc fuel) d l =
    let e = snoc_append pre (some h) post in
    let step =
      walk_from (pre ++ some h ∷ []) post fuel (subst IsDistinct (sym e) d) (omega arith) in
    let step' = subst (λ ss. walk ss fuel (first_peer post) ≡ some (pointers post)) e step in
    ap (λ n. cons_all h (walk (pre ++ some h ∷ post) fuel (next_or_same n h)))
      (next_peer-split pre h post d)
    ∙ ap (cons_all h) step'

-- From NULL on, the walk visits every peer of the table once, in the order of the slots, and ends,
-- with one pass more than there are slots, if no peer stands in two slots.
pub walk-pointers :
    (slots : Slots) (fuel : ℕ)
    → IsDistinct slots
    → length slots < fuel
    → (next_peer slots none ≡ some (first_peer slots))
      × (walk slots fuel (first_peer slots) ≡ some (pointers slots))
unfolding next_peer
walk-pointers slots fuel d l = (refl, walk_from [] slots fuel d l)
