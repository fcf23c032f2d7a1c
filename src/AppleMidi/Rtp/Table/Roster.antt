-- ===== src/AppleMidi/Rtp/Table/Roster.antt =====
-- The table of peers as a multiset of addresses, which forgets the slots and the pointers.
use cmidid_kerneldriver.Base.{
  ℕ, zero, suc, false, List, [], ◌∷◌, Option, none, some, ◌<◌, ◌≤◌, ◌≡◌, ◌≢◌, refl, sym, ap, subst,
  ◌∙◌, arith, length, set, set-set, set-get_or, get_or-set, length-set, ◌==◌, if◌then◌else◌, true,
}
use mathlib.Core.Logic.{∥∥₁_elim}
use mathlib.Core.HLevel.{¬_prop}
use mathlib.Core.Quot.{lift}
use mathlib.Core.List.{Memᴰ, Permᴰ}
use mathlib.Core.List.Memᴰ
use mathlib.Mathlib.Data.Multiset.Defs.{Multiset, of_list, Mem}
use mathlib.Mathlib.Data.Multiset.ZeroCons.{cons, cons-swap}
use native.Mathlib.Nat.{ℕ_set}
use cmidid_kerneldriver.AppleMidi.Rtp.Peer.{Address, Peer, Heap, get_peer}
use cmidid_kerneldriver.AppleMidi.Rtp.Table.{Slots, slot, is_null, has_ssrc}

abbrev length-perm : {A : Type 0} {xs ys : List A} → Permᴰ xs ys → length xs ≡ length ys
length-perm Permᴰ.nil = refl
length-perm (Permᴰ.cons e p) = ap suc (length-perm p)
length-perm (Permᴰ.swap e f) = refl
length-perm (Permᴰ.trans p q) = length-perm p ∙ length-perm q

-- How many there are.
abbrev pub size : {A : Type 0} → Multiset A → ℕ
size m = lift ℕ_set length (λ xs ys p. ∥∥₁_elim p (ℕ_set (length xs) (length ys)) length-perm) m

-- The address that a slot stands for.
abbrev pub address_in : Option Peer → Option Address
address_in none = none
address_in (some peer) = some peer.address

abbrev pub member : Heap → Option ℕ → Option Address
member heap none = none
member heap (some h) = address_in (get_peer heap h)

abbrev with_member : Option Address → List Address → List Address
with_member none addresses = addresses
with_member (some a) addresses = a ∷ addresses

abbrev members : Slots → Heap → List Address
members [] heap = []
members (s ∷ slots) heap = with_member (member heap s) (members slots heap)

unfoldable pub roster : Slots → Heap → Multiset Address
roster slots heap = of_list (members slots heap)

-- A peer in a slot that was free.
pub roster_joined :
    (slots : Slots) (heap : Heap) (p h : ℕ) (a : Address)
    → p < length slots
    → slot slots p ≡ none
    → member heap (some h) ≡ some a
    → roster (set slots p (some h)) heap ≡ cons a (roster slots heap)
unfolding roster
roster_joined [] heap p h a l free e = absurd (omega arith)
roster_joined (none ∷ slots) heap zero h a l free e = rw e refl
roster_joined (some g ∷ slots) heap zero h a l free e = absurd (cc)
roster_joined (s ∷ slots) heap (suc p) h a l free e =
    let ih = roster_joined slots heap p h a (omega (arith, l)) free e in under (member heap s) ih
  where
    under :
        (m : Option Address) {xs ys : List Address}
        → of_list xs ≡ cons a (of_list ys)
        → of_list (with_member m xs) ≡ cons a (of_list (with_member m ys))
    under none e = e
    under (some b) {xs} {ys} e = ap (cons b) e ∙ cons-swap b a (of_list ys)

if-same : (p : ℕ) (x y : Option ℕ) → (if p == p then x else y) ≡ x
if-same p x y = let e : (p == p) ≡ true = ground arith in rw e refl

-- A slot that is cleared.
pub roster_cleared :
    (slots : Slots) (heap : Heap) (p h : ℕ) (a : Address)
    → p < length slots
    → slot slots p ≡ some h
    → member heap (some h) ≡ some a
    → roster slots heap ≡ cons a (roster (set slots p none) heap)
roster_cleared slots heap p h a l here e =
    let cleared : slot (set slots p none) p ≡ none =
      get_or-set slots p p none none l ∙ if-same p none (slot slots p) in
    let l' : p < length (set slots p none) = rw (length-set slots p none) l in
    let back : set (set slots p none) p (some h) ≡ slots =
      set-set slots p none (some h) ∙ set-get_or slots p (some h) none l here in
    subst (λ s. roster s heap ≡ cons a (roster (set slots p none) heap)) back
      (roster_joined (set slots p none) heap p h a l' cleared e)

-- Heaps that agree where the table points.
pub roster-heap :
    (slots : Slots) (heap heap' : Heap)
    → ((p h : ℕ) → slot slots p ≡ some h → get_peer heap' h ≡ get_peer heap h)
    → roster slots heap' ≡ roster slots heap
unfolding roster
roster-heap slots heap heap' same = ap of_list (agree slots same)
  where
    agree :
        (slots : Slots)
        → ((p h : ℕ) → slot slots p ≡ some h → get_peer heap' h ≡ get_peer heap h)
        → members slots heap' ≡ members slots heap
    agree [] same = refl
    agree (none ∷ slots) same = agree slots (λ p. same (suc p))
    agree (some h ∷ slots) same = rw (same 0 h refl, agree slots (λ p. same (suc p))) refl

-- The free slots are what is missing.
pub size-roster_free :
    (slots : Slots) (heap : Heap) (p : ℕ)
    → p < length slots
    → slot slots p ≡ none
    → size (roster slots heap) < length slots
unfolding roster
size-roster_free slots heap p l free = below slots p l free
  where
    one_more :
        (m : Option Address) (xs : List Address) → length (with_member m xs) ≤ suc (length xs)
    one_more none xs = omega arith
    one_more (some a) xs = omega arith

    at_most : (slots : Slots) → length (members slots heap) ≤ length slots
    at_most [] = omega arith
    at_most (s ∷ slots) =
        omega (arith, one_more (member heap s) (members slots heap), at_most slots)

    below :
        (slots : Slots) (p : ℕ)
        → p < length slots
        → slot slots p ≡ none
        → length (members slots heap) < length slots
    below [] p l free = absurd (omega arith)
    below (none ∷ slots) zero l free = omega (arith, at_most slots)
    below (some g ∷ slots) zero l free = absurd (cc)
    below (s ∷ slots) (suc p) l free = omega (
      arith,
      one_more (member heap s) (members slots heap),
      below slots p (omega (arith, l)) free,
    )

pub size-roster_full :
    (slots : Slots) (heap : Heap)
    → ((p : ℕ) → p < length slots → is_null (slot slots p) ≡ false)
    → ((p h : ℕ) → slot slots p ≡ some h → (peer : Peer) × (get_peer heap h ≡ some peer))
    → size (roster slots heap) ≡ length slots
unfolding roster
size-roster_full [] heap full live = refl
size-roster_full (none ∷ slots) heap full live = absurd (cc (full 0 (omega arith)))
size-roster_full (some h ∷ slots) heap full live =
    let (peer, e) = live 0 h refl in
    let ih =
      size-roster_full slots heap (λ p l. full (suc p) (omega (arith, l))) (λ p. live (suc p)) in
    rw e (ap suc ih)

-- No member has the SSRC.
abbrev pub IsStrange : Multiset Address → ℕ → Type 0
IsStrange m ssrc = (a : Address) → Mem m a → a.ssrc ≢ ssrc

pub roster-IsStrange :
    (slots : Slots) (heap : Heap) (ssrc : ℕ)
    → ((p : ℕ) → p < length slots → has_ssrc heap ssrc (slot slots p) ≡ false)
    → IsStrange (roster slots heap) ssrc
unfolding roster
roster-IsStrange slots heap ssrc new a m = ∥∥₁_elim m ¬_prop (strange slots new)
  where
    missed :
        (o : Option Peer) (xs : List Address)
        → (elim o [ none ↦ 0 | some peer ↦ peer.address.ssrc ] == ssrc) ≡ false
        → (Memᴰ a xs → a.ssrc ≢ ssrc)
        → Memᴰ a (with_member (address_in o) xs)
        → a.ssrc ≢ ssrc
    missed none xs n rest m = rest m
    missed (some peer) xs n rest (Memᴰ.head e) = λ same.
        let at : peer.address.ssrc ≡ ssrc = sym (ap (λ (b : Address). b.ssrc) e) ∙ same in
        absurd (ground arith)
    missed (some peer) xs n rest (Memᴰ.tail m) = rest m

    strange :
        (slots : Slots)
        → ((p : ℕ) → p < length slots → has_ssrc heap ssrc (slot slots p) ≡ false)
        → Memᴰ a (members slots heap)
        → a.ssrc ≢ ssrc
    strange [] new m = absurd (Memᴰ.not-nil m)
    strange (none ∷ slots) new m = strange slots (λ p l. new (suc p) (omega (arith, l))) m
    strange (some h ∷ slots) new m =
        missed (get_peer heap h) (members slots heap) (new 0 (omega arith))
          (strange slots (λ p l. new (suc p) (omega (arith, l)))) m
