-- ===== src/Keyboard/Gpio/Setup/Totals.antt =====
-- Counts of calls over the loops of the set-up.
use cmidid_kerneldriver.Base.{
  ℕ, zero, suc, List, [], ◌∷◌, ◌++◌, ℤ, ◌+◌, ◌*◌, ◌≡◌, refl, arith, get_or,
}
use cmidid_kerneldriver.Base.Int.{to_unsigned}
use cmidid_kerneldriver.Keyboard.Kernel.{
  Button, start_button, end_button, Call, gpio_request_array, request_irq, hrtimer_init,
}
use cmidid_kerneldriver.Keyboard.Trace.{total, total-append, total-snoc}
use cmidid_kerneldriver.Keyboard.Gpio.State.{Key}
use cmidid_kerneldriver.Keyboard.Gpio.Setup.{
  Platform, zero_key, Boot, init_key, init_keys, free_buttons, free_down, free_key,
}

-- A count that ignores all calls that set keys up.
module _ (f : Call → ℕ) (on_gpio : (a b : ℕ) (code : ℤ) → f (gpio_request_array a b code) ≡ 0)
    (on_timer : (j : ℕ) (c : Button) → f (hrtimer_init j c) ≡ 0)
    (on_irq : (q : ℕ) (code : ℤ) → f (request_irq q code) ≡ 0) where
  pub init_key-total :
      (p : Platform) (i s e n : ℕ) (b : Boot)
      → total f (init_key p i s e n b).1.calls ≡ total f b.calls
  unfolding init_key
  init_key-total p i s e n b =
      let g = gpio_request_array s e (p.request_array s e) in
      let q = to_unsigned (p.gpio_to_irq s) in
      let q' = to_unsigned (p.gpio_to_irq e) in
      let c₁ = b.calls ++ g ∷ [] in
      let c₂ = c₁ ++ hrtimer_init i start_button ∷ [] in
      let c₃ = c₂ ++ hrtimer_init i end_button ∷ [] in
      let c₄ = c₃ ++ request_irq q (p.request_irq q) ∷ [] in
      ground (
        arith,
        total-snoc f b.calls g (on_gpio _ _ _),
        total-snoc f c₁ (hrtimer_init i start_button) (on_timer _ _),
        total-snoc f c₂ (hrtimer_init i end_button) (on_timer _ _),
        total-snoc f c₃ (request_irq q (p.request_irq q)) (on_irq _ _),
        total-snoc f c₄ (request_irq q' (p.request_irq q')) (on_irq _ _),
      )

  pub init_keys-total :
      (p : Platform) (mapping : List ℕ) (left i : ℕ) (b : Boot)
      → total f (init_keys p mapping left i b).1.calls ≡ total f b.calls
  unfolding init_keys
  init_keys-total p mapping zero i b = refl
  init_keys-total p mapping (suc left) i b =
      let s = get_or mapping (3 * i) 0 in
      let e = get_or mapping (3 * i + 1) 0 in
      let n = get_or mapping (3 * i + 2) 0 in
      let b' = (init_key p i s e n b).1 in
      ground (
        arith,
        init_key-total p i s e n b,
        init_keys-total p mapping left (suc i) (record b' { index = suc b'.index }),
      )

pub free_down-total :
    (f : Call → ℕ) (ks : List Key) (i : ℕ)
    → ((j : ℕ) (k : Key) → total f (free_key j k) ≡ 0)
    → total f (free_down ks i) ≡ 0
unfolding free_down
free_down-total f ks zero h = refl
free_down-total f ks (suc i) h =
    rw total-append
      (omega (arith, h (suc i) (get_or ks (suc i) zero_key), free_down-total f ks i h))

pub free_buttons-total :
    (f : Call → ℕ) (ks : List Key) (i : ℕ)
    → ((j : ℕ) (k : Key) → total f (free_key j k) ≡ 0)
    → total f (free_buttons ks i) ≡ 0
unfolding free_buttons
free_buttons-total f ks zero h = refl
free_buttons-total f ks (suc i) h = free_down-total f ks i h
