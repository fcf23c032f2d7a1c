-- ===== src/Keyboard/Gpio/Setup/Release.antt =====
-- What a set-up that fails gives back.
use cmidid_kerneldriver.Base.{ℕ, true, [], ◌∷◌, pos, ◌/◌, ◌≡◌, ◌≢◌, refl, arith, length, replicate}
use cmidid_kerneldriver.Keyboard.Kernel.{kzalloc_keys}
use cmidid_kerneldriver.Keyboard.Trace.{frees_irq, takes_keys, frees_keys, total, total-append}
use cmidid_kerneldriver.Keyboard.Gpio.State.{GpioState}
use cmidid_kerneldriver.Keyboard.Gpio.Setup.{
  Platform, Params, zero_key, Boot, Result, ok, failed, init_keys, finish, gpio_init, fresh_state,
}
use cmidid_kerneldriver.Keyboard.Gpio.Setup.Totals.{init_keys-total, free_buttons-total}

finish-irq :
    (g : GpioState) (r : Result (Unit {0}) × Boot) (q : ℕ)
    → total (frees_irq q) r.1.calls ≡ 0
    → total (frees_irq q) (finish g r).calls ≡ 0
unfolding finish
finish-irq g (ok _, b) q h = h
finish-irq g (failed code, b) q h =
    simp total-append
      (omega (arith, h, free_buttons-total (frees_irq q) b.keys b.index (λ j k. refl)))

finish-array :
    (g : GpioState) (r : Result (Unit {0}) × Boot)
    → total takes_keys r.1.calls ≡ 1
    → total frees_keys r.1.calls ≡ 0
    → (finish g r).code ≢ pos 0
    → total takes_keys (finish g r).calls ≡ total frees_keys (finish g r).calls
unfolding finish
finish-array g (ok _, b) h k c = absurd (c refl)
finish-array g (failed code, b) h k c = simp total-append (
    omega (
      arith,
      free_buttons-total takes_keys b.keys b.index (λ j k. refl),
      free_buttons-total frees_keys b.keys b.index (λ j k. refl),
    ))

-- A set-up that fails gives the array of keys back, but never an interrupt, however many it was
-- granted before it failed.
pub gpio_init_failure :
    (p : Platform) (q : Params) (g : GpioState)
    → (gpio_init p q g).code ≢ pos 0
    → (total takes_keys (gpio_init p q g).calls ≡ total frees_keys (gpio_init p q g).calls)
      × ((i : ℕ) → total (frees_irq i) (gpio_init p q g).calls ≡ 0)
unfolding gpio_init
gpio_init_failure p q g h =
    let n = length q.gpio_mapping / 3 in
    let boot : Boot = record {
      keys = replicate n zero_key;
      index = 0;
      calls = kzalloc_keys n true ∷ [];
    } in
    let run = init_keys p q.gpio_mapping n 0 boot in
    (
      ground (
        arith,
        finish-array (fresh_state q) run,
        init_keys-total takes_keys (λ _ _ _. refl) (λ _ _. refl) (λ _ _. refl) p q.gpio_mapping n 0
            boot,
        init_keys-total frees_keys (λ _ _ _. refl) (λ _ _. refl) (λ _ _. refl) p q.gpio_mapping n 0
            boot,
      ),
      λ i. ground (
        arith,
        finish-irq (fresh_state q) run i,
        init_keys-total (frees_irq i) (λ _ _ _. refl) (λ _ _. refl) (λ _ _. refl) p q.gpio_mapping n
            0 boot,
      ),
    )
