-- ===== src/Keyboard/Gpio/Setup/Balance.antt =====
-- What a set-up takes from the kernel, GPIOs, interrupts and the array of keys, is given back.
use cmidid_kerneldriver.Base.{
  ℕ, zero, suc, List, [], ◌∷◌, ◌++◌, some, pos, ◌+◌, ◌/◌, ◌<◌, ◌≡◌, refl, arith, get_elem?, length,
  subst,
}
use cmidid_kerneldriver.Keyboard.Kernel.{Call}
use cmidid_kerneldriver.Keyboard.Trace.{
  takes_gpio, frees_gpio, takes_irq, frees_irq, takes_keys, frees_keys, total, total-append,
}
use cmidid_kerneldriver.Keyboard.Gpio.State.{Key, GpioState}
use cmidid_kerneldriver.Keyboard.Gpio.Setup.{Platform, Params, gpio_init, gpio_exit, exit_keys}
use cmidid_kerneldriver.Keyboard.Gpio.Setup.Loop.{mapped_key, mapped_calls, Granted}
use cmidid_kerneldriver.Keyboard.Gpio.Setup.Outcome.{gpio_init-IsSetUp}

-- The keys from `i` on and their release balance their requests.
module _ (p : Platform) (mapping : List ℕ) where
  exit_balance :
      (n i : ℕ) (ks : List Key)
      → length ks ≡ n
      → ((j : ℕ) → j < n → get_elem? ks j ≡ some (mapped_key p mapping (i + j)))
      → ((j : ℕ) → j < n → Granted p mapping (i + j))
      → ((g : ℕ)
          → total (takes_gpio g) (mapped_calls p mapping n i)
            ≡ total (frees_gpio g) (exit_keys i ks))
        × ((q : ℕ)
            → total (takes_irq q) (mapped_calls p mapping n i)
              ≡ total (frees_irq q) (exit_keys i ks))
  unfolding exit_keys
  exit_balance zero i [] e keys granted = (λ g. refl, λ q. refl)
  exit_balance zero i (k ∷ ks) e keys granted = absurd (omega arith)
  exit_balance (suc n) i [] e keys granted = absurd (omega arith)
  exit_balance (suc n) i (k ∷ ks) e keys granted =
      let ih =
        exit_balance n (suc i) ks (omega arith)
          (λ j h.
            let shift : i + suc j ≡ suc i + j = omega arith in
            rw shift at (keys (suc j) (omega arith)))
          (λ j h. subst (Granted p mapping) (omega arith) (granted (suc j) (omega arith))) in
      let head : k ≡ mapped_key p mapping i =
        let e : i + 0 ≡ i = omega arith in
        let f : some k ≡ some (mapped_key p mapping i) = rw e at (keys 0 (omega arith)) in cc in
      let now : Granted p mapping i =
        subst (Granted p mapping) (omega arith) (granted 0 (omega arith)) in
      rw head (
        λ g. rw (now.requested) (omega (arith, ih.0 g)),
        λ q. rw (now.start_irq, now.last_irq) (omega (arith, ih.1 q)),
      )

  -- Neither the requests nor the releases of the keys touch the array.
  mapped_calls-keys :
      (n i : ℕ)
      → (total takes_keys (mapped_calls p mapping n i) ≡ 0)
        × (total frees_keys (mapped_calls p mapping n i) ≡ 0)
  mapped_calls-keys zero i = (refl, refl)
  mapped_calls-keys (suc n) i = omega (arith, mapped_calls-keys n (suc i))

-- What is held after a trace is what was taken less what was given back.
pub record IsBalanced (cs : List Call) : Type 0 where
  pub gpios : (g : ℕ) → total (takes_gpio g) cs ≡ total (frees_gpio g) cs
  pub irqs : (q : ℕ) → total (takes_irq q) cs ≡ total (frees_irq q) cs
  pub array : total takes_keys cs ≡ total frees_keys cs

mapped_calls-frees :
    (p : Platform) (mapping : List ℕ) (n i : ℕ)
    → ((g : ℕ) → total (frees_gpio g) (mapped_calls p mapping n i) ≡ 0)
      × ((q : ℕ) → total (frees_irq q) (mapped_calls p mapping n i) ≡ 0)
mapped_calls-frees p mapping zero i = (λ g. refl, λ q. refl)
mapped_calls-frees p mapping (suc n) i =
    let (a, b) = mapped_calls-frees p mapping n (suc i) in
    (λ g. omega (arith, a g), λ q. omega (arith, b q))

exit_keys-takes :
    (i : ℕ) (ks : List Key)
    → ((g : ℕ) → total (takes_gpio g) (exit_keys i ks) ≡ 0)
      × ((q : ℕ) → total (takes_irq q) (exit_keys i ks) ≡ 0)
      × (total takes_keys (exit_keys i ks) ≡ 0)
      × (total frees_keys (exit_keys i ks) ≡ 0)
unfolding exit_keys
exit_keys-takes i [] = (λ g. refl, λ q. refl, refl, refl)
exit_keys-takes i (k ∷ ks) =
    let (a, b, c, d) = exit_keys-takes (suc i) ks in
    (λ g. omega (arith, a g), λ q. omega (arith, b q), omega (arith, c), omega (arith, d))

-- After a set-up that returned 0, `cmidid_gpio_exit` gives back every GPIO, every interrupt and the
-- array as often as they were taken.
pub gpio_init-gpio_exit :
    (p : Platform) (q : Params) (g : GpioState)
    → (gpio_init p q g).code ≡ pos 0
    → IsBalanced ((gpio_init p q g).calls ++ gpio_exit (gpio_init p q g).gpio)
unfolding gpio_exit
gpio_init-gpio_exit p q g h =
    let r = gpio_init p q g in
    let set_up = gpio_init-IsSetUp p q g h in
    let n = length q.gpio_mapping / 3 in
    let (gpios, irqs) =
      exit_balance p q.gpio_mapping n 0 r.gpio.keys set_up.wide
        (λ j k. let e : 0 + j ≡ j = omega arith in rw e (set_up.keys j k))
        (λ j k. subst (Granted p q.gpio_mapping) (omega arith) (set_up.granted j k)) in
    let (a, b) = mapped_calls-frees p q.gpio_mapping n 0 in
    let (c, d, e, f) = exit_keys-takes 0 r.gpio.keys in
    let (u, v) = mapped_calls-keys p q.gpio_mapping n 0 in
    rw (set_up.calls) (record {
      gpios = λ i. simp total-append (omega (arith, gpios i, a i, c i));
      irqs = λ i. simp total-append (omega (arith, irqs i, b i, d i));
      array = simp total-append (omega arith);
    })
