-- ===== src/Keyboard/Gpio/Irq/Lookup.antt =====
-- The two searches find the place that they are asked for.
use cmidid_kerneldriver.Base.{
  ℕ, zero, suc, List, [], ◌∷◌, none, some, ◌+◌, ◌<◌, ◌≡◌, ◌≢◌, refl, arith, ◌==◌, length, get_elem?,
  Bool-cases, inl, inr, ◌≤◌,
}
use cmidid_kerneldriver.Keyboard.Kernel.{Button, start_button, end_button}
use cmidid_kerneldriver.Keyboard.Gpio.State.{Key, GpioState, at}
use cmidid_kerneldriver.Keyboard.Gpio.Irq.{
  Place, find_irq, get_key_from_irq, of_key, foreign, find_timer, get_key_from_timer,
}

-- The key at `i` has the interrupt `irq` at the button `b`.
abbrev pub HasIrq : List Key → ℕ → Place → Type 0
HasIrq ks irq (i, b) = (k : Key) × (get_elem? ks i ≡ some k) × (at k.irqs b ≡ irq)

find_irq_sound :
    (n : ℕ) (ks : List Key) (irq i : ℕ) (b : Button)
    → find_irq n ks irq ≡ some (i, b)
    → (j : ℕ) × (i ≡ n + j) × HasIrq ks irq (j, b)
unfolding find_irq
find_irq_sound n [] irq i b h = cc
find_irq_sound n (k ∷ ks) irq i b h = elim (Bool-cases (k.irqs.start == irq)) [
  | inl e ↦ (0, ground arith, (k, refl, ground arith))
  | inr e ↦ elim (Bool-cases (k.irqs.last == irq)) [
    | inl f ↦ (0, ground arith, (k, refl, ground arith))
    | inr f ↦
        let (j, at_j, key) = find_irq_sound (suc n) ks irq i b (ground arith) in
        (suc j, omega arith, key)
  ]
]

find_irq_complete :
    (n : ℕ) (ks : List Key) (irq i : ℕ) (b : Button)
    → HasIrq ks irq (i, b)
    → find_irq n ks irq ≢ none
unfolding find_irq
find_irq_complete n [] irq i b (k, e, f) = cc
find_irq_complete n (k ∷ ks) irq zero start_button (j, e, f) = ground arith
find_irq_complete n (k ∷ ks) irq zero end_button (j, e, f) = ground arith
find_irq_complete n (k ∷ ks) irq (suc i) b h =
    ground (arith, find_irq_complete (suc n) ks irq i b h)

-- `get_key_from_irq` answers with a key and button that have the interrupt, and it fails only if no
-- key has it.
pub get_key_from_irq-HasIrq :
    (g : GpioState) (irq : ℕ) (p : Place)
    → (get_key_from_irq g irq ≡ some p → HasIrq g.keys irq p)
      × (HasIrq g.keys irq p → get_key_from_irq g irq ≢ none)
unfolding get_key_from_irq
get_key_from_irq-HasIrq g irq (i, b) = (
  λ h.
      let (j, e, key) = find_irq_sound 0 g.keys irq i b h in
      let f : i ≡ j = omega arith in rw f key,
  λ h. find_irq_complete 0 g.keys irq i b h,
)

find_timer_lem :
    (n : ℕ) (ks : List Key) (i m : ℕ) (b : Button)
    → i < length ks
    → m ≡ n + i
    → find_timer n ks (of_key m b) ≡ some (m, b)
unfolding find_timer
find_timer_lem n [] i m b h e = absurd (omega arith)
find_timer_lem n (k ∷ ks) zero m start_button h e = ground arith
find_timer_lem n (k ∷ ks) zero m end_button h e = ground arith
find_timer_lem n (k ∷ ks) (suc i) m start_button h e =
    ground (arith, find_timer_lem (suc n) ks i m start_button)
find_timer_lem n (k ∷ ks) (suc i) m end_button h e =
    ground (arith, find_timer_lem (suc n) ks i m end_button)

find_timer_beyond :
    (n : ℕ) (ks : List Key) (m : ℕ) (b : Button)
    → n + length ks ≤ m
    → find_timer n ks (of_key m b) ≡ none
unfolding find_timer
find_timer_beyond n [] m b h = refl
find_timer_beyond n (k ∷ ks) m start_button h =
    ground (arith, find_timer_beyond (suc n) ks m start_button)
find_timer_beyond n (k ∷ ks) m end_button h =
    ground (arith, find_timer_beyond (suc n) ks m end_button)

find_timer-foreign : (n : ℕ) (ks : List Key) → find_timer n ks foreign ≡ none
unfolding find_timer
find_timer-foreign n [] = refl
find_timer-foreign n (k ∷ ks) = find_timer-foreign (suc n) ks

-- `get_key_from_timer` finds the key and button of a timer of the array, and no key for any other
-- timer.
pub get_key_from_timer_lem :
    (g : GpioState) (i : ℕ) (b : Button)
    → (i < length g.keys → get_key_from_timer g (of_key i b) ≡ some (i, b))
      × (length g.keys ≤ i → get_key_from_timer g (of_key i b) ≡ none)
      × (get_key_from_timer g foreign ≡ none)
unfolding get_key_from_timer
get_key_from_timer_lem g i b = (
  λ h. find_timer_lem 0 g.keys i i b h (omega arith),
  λ h. find_timer_beyond 0 g.keys i b (omega arith),
  find_timer-foreign 0 g.keys,
)
