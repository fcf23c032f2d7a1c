-- ===== src/Keyboard/Gpio/Setup/Others.antt =====
-- Counts of calls that the GPIO component does not make.
use cmidid_kerneldriver.Base.{
  ℕ, suc, Bool, true, false, List, [], ◌∷◌, ℤ, ◌/◌, ◌≡◌, refl, arith, length, replicate,
}
use cmidid_kerneldriver.Keyboard.Kernel.{
  Button, start_button, end_button, Call, kzalloc_keys, kfree_keys, gpio_request_array,
  gpio_free_array, request_irq, free_irq, hrtimer_init, hrtimer_cancel,
}
use cmidid_kerneldriver.Keyboard.Trace.{total, total-append}
use cmidid_kerneldriver.Keyboard.Gpio.State.{Key, GpioState}
use cmidid_kerneldriver.Keyboard.Gpio.Setup.{
  Platform, Params, zero_key, Boot, Result, ok, failed, init_keys, finish, gpio_init, gpio_exit,
  exit_keys, fresh_state, free_key,
}
use cmidid_kerneldriver.Keyboard.Gpio.Setup.Totals.{init_keys-total, free_buttons-total}

-- A count that ignores all calls of this component.
pub record Ignores (f : Call → ℕ) : Type 0 where
  pub requests : (a b : ℕ) (code : ℤ) → f (gpio_request_array a b code) ≡ 0
  pub timers : (j : ℕ) (c : Button) → f (hrtimer_init j c) ≡ 0
  pub irqs : (q : ℕ) (code : ℤ) → f (request_irq q code) ≡ 0
  pub allocs : (n : ℕ) (b : Bool) → f (kzalloc_keys n b) ≡ 0
  pub frees : f kfree_keys ≡ 0
  pub gpio_frees : (a b : ℕ) → f (gpio_free_array a b) ≡ 0
  pub cancels : (j : ℕ) (c : Button) → f (hrtimer_cancel j c) ≡ 0
  pub irq_frees : (q : ℕ) → f (free_irq q) ≡ 0

module _ (f : Call → ℕ) (ignores : Ignores f) where
  free_key-total : (j : ℕ) (k : Key) → total f (free_key j k) ≡ 0
  free_key-total j k = omega (
    arith,
    ignores.gpio_frees k.gpios.start k.gpios.last,
    ignores.cancels j start_button,
    ignores.cancels j end_button,
  )

  finish-total :
      (g : GpioState) (r : Result (Unit {0}) × Boot)
      → total f r.1.calls ≡ 0
      → total f (finish g r).calls ≡ 0
  unfolding finish
  finish-total g (ok _, b) h = h
  finish-total g (failed code, b) h =
      simp total-append
        (omega (arith, h, ignores.frees, free_buttons-total f b.keys b.index free_key-total))

  pub gpio_init-total :
      (p : Platform) (q : Params) (g : GpioState) → total f (gpio_init p q g).calls ≡ 0
  unfolding gpio_init
  gpio_init-total p q g =
      let n = length q.gpio_mapping / 3 in
      let boot : Boot = record {
        keys = replicate n zero_key;
        index = 0;
        calls = kzalloc_keys n true ∷ [];
      } in
      let run = init_keys p q.gpio_mapping n 0 boot in
      ground (
        arith,
        finish-total (fresh_state q) run,
        ignores.allocs n true,
        ignores.allocs n false,
        init_keys-total f ignores.requests ignores.timers ignores.irqs p q.gpio_mapping n 0 boot,
      )

  exit_keys-total : (i : ℕ) (ks : List Key) → total f (exit_keys i ks) ≡ 0
  unfolding exit_keys
  exit_keys-total i [] = refl
  exit_keys-total i (k ∷ ks) = omega (
    arith,
    ignores.irq_frees k.irqs.start,
    ignores.irq_frees k.irqs.last,
    free_key-total i k,
    exit_keys-total (suc i) ks,
  )

  pub gpio_exit-total : (g : GpioState) → total f (gpio_exit g) ≡ 0
  unfolding gpio_exit
  gpio_exit-total g = rw total-append (omega (arith, exit_keys-total 0 g.keys, ignores.frees))
