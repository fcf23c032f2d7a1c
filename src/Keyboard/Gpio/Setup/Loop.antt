-- ===== src/Keyboard/Gpio/Setup/Loop.antt =====
-- What the loop of `cmidid_gpio_init` has done when it ends without an error.
use native.Mathlib.Decide.{dec_lt}
use cmidid_kerneldriver.Base.{
  ℕ, zero, suc, true, false, List, [], ◌++◌, some, ◌+◌, ◌*◌, ◌/◌, ◌%◌, ◌<◌, ◌≤◌, ◌==◌, ◌≡◌, ◌≢◌,
  refl, arith, get_elem?, get_or, length, if◌then◌else◌, subst, ◌∙◌, ap, ◌⊎◌, inl, inr,
}
use cmidid_kerneldriver.Base.Int.{is_negative, to_unsigned}
use cmidid_kerneldriver.Keyboard.Kernel.{Call}
use cmidid_kerneldriver.Keyboard.Gpio.State.{Key, inactive}
use cmidid_kerneldriver.Keyboard.Gpio.Setup.{Platform, zero_key, unused, is_valid, Boot, change}
use cmidid_kerneldriver.Keyboard.Gpio.Setup.Body.{
  made_key, made_calls, get_elem?-change, length-change, unused-ne, started, Made,
}

-- The GPIO number of the button `m % 2` of the key `m / 2` in the mapping.
abbrev pub gpio_of : List ℕ → ℕ → ℕ
gpio_of mapping m = get_or mapping (3 * (m / 2) + m % 2) 0

abbrev pub mapped_key : Platform → List ℕ → ℕ → Key
mapped_key p mapping j =
    made_key p (get_or mapping (3 * j) 0) (get_or mapping (3 * j + 1) 0)
      (get_or mapping (3 * j + 2) 0)

-- The calls for the keys from `i` on.
abbrev pub mapped_calls : Platform → List ℕ → ℕ → ℕ → List Call
mapped_calls p mapping zero i = []
mapped_calls p mapping (suc n) i =
    made_calls p i (get_or mapping (3 * i) 0) (get_or mapping (3 * i + 1) 0)
    ++ mapped_calls p mapping n (suc i)

-- What the kernel granted to the key `j`.
pub record Granted (p : Platform) (mapping : List ℕ) (j : ℕ) : Type 0 where
  pub requested :
      is_negative (p.request_array (get_or mapping (3 * j) 0) (get_or mapping (3 * j + 1) 0))
      ≡ false
  pub start_irq :
      is_negative (p.request_irq (to_unsigned (p.gpio_to_irq (get_or mapping (3 * j) 0)))) ≡ false
  pub last_irq :
      is_negative (p.request_irq (to_unsigned (p.gpio_to_irq (get_or mapping (3 * j + 1) 0))))
      ≡ false

-- Before the round of key `i`: the keys below are set up with distinct, valid GPIOs, the others are
-- zero.
pub record Ready (p : Platform) (mapping : List ℕ) (n i : ℕ) (b : Boot) : Type 0 where
  pub index : b.index ≡ i
  pub wide : length b.keys ≡ n
  pub below : (j : ℕ) → j < i → get_elem? b.keys j ≡ some (mapped_key p mapping j)
  pub above : (j : ℕ) → i ≤ j → j < n → get_elem? b.keys j ≡ some zero_key
  pub valid : (m : ℕ) → m < 2 * i → p.gpio_is_valid (gpio_of mapping m) ≡ true
  pub nonzero : (m : ℕ) → m < 2 * i → gpio_of mapping m ≢ 0
  pub granted : (j : ℕ) → j < i → Granted p mapping j
  pub apart : (m m' : ℕ) → m < 2 * i → m' < 2 * i → gpio_of mapping m ≡ gpio_of mapping m' → m ≡ m'

module _ (p : Platform) (mapping : List ℕ) (n i : ℕ) {b b' : Boot} (r : Ready p mapping n i b)
    (inside : i < n)
    (made : Made p i
      (get_or mapping (3 * i) 0)
      (get_or mapping (3 * i + 1) 0)
      (get_or mapping (3 * i + 2) 0)
      b
      b') where
  zeroed : get_elem? b.keys b.index ≡ some zero_key
  zeroed = rw r.index (r.above i (omega arith) inside)

  keys_after :
      (j : ℕ)
      → get_elem? b'.keys j ≡ (if i == j then some (mapped_key p mapping i) else get_elem? b.keys j)
  keys_after j =
      rw made.keys (rw (get_elem?-change b.keys b.index j _ zero_key zeroed) (rw r.index refl))

  -- What `is_valid` has seen of the keys that are set up, and of the key at hand.
  module _ (f : Key → Key) (g : ℕ) (valid : is_valid p (change b.keys b.index f) g ≡ true) where
    is_unused : unused (change b.keys b.index f) g ≡ true
    unfolding is_valid
    is_unused = ground arith

    is_gpio : p.gpio_is_valid g ≡ true
    unfolding is_valid
    is_gpio = ground arith

    entry :
        (j : ℕ)
        → get_elem? (change b.keys b.index f) j
          ≡ (if i == j then some (f zero_key) else get_elem? b.keys j)
    entry j = rw (get_elem?-change b.keys b.index j f zero_key zeroed) (rw r.index refl)

    below-ne : (m : ℕ) → m < 2 * i → g ≢ gpio_of mapping m
    below-ne m h =
        let j = m / 2 in
        let at_j : get_elem? (change b.keys b.index f) j ≡ some (mapped_key p mapping j) =
          ground (arith, entry j, r.below j) in
        let (s, l) =
          unused-ne (change b.keys b.index f) g j (mapped_key p mapping j) is_unused at_j in
        elim (dec_lt (m % 2) 1) [
          | yes even ↦ rw (let e : 3 * (m / 2) + m % 2 ≡ 3 * (m / 2) = omega arith in e) s
          | no odd ↦ rw (let e : 3 * (m / 2) + m % 2 ≡ 3 * (m / 2) + 1 = omega arith in e) l
        ]

    self-ne : (g ≢ (f zero_key).gpios.start) × (g ≢ (f zero_key).gpios.last)
    self-ne =
        unused-ne (change b.keys b.index f) g i (f zero_key) is_unused (ground (arith, entry i))

  abbrev start : ℕ
  start = get_or mapping (3 * i) 0

  abbrev last : ℕ
  last = get_or mapping (3 * i + 1) 0

  abbrev idle : Key → Key
  idle k = record k { state = inactive; last_velocity = 0 }

  -- Every number below `2 * (i + 1)` is below `2 * i` or one of the two new ones.
  gpio_of-cases :
      (m : ℕ)
      → m < 2 * (i + 1)
      → (m < 2 * i)
        ⊎ (((m ≡ 2 * i) × (gpio_of mapping m ≡ start))
            ⊎ ((m ≡ 2 * i + 1) × (gpio_of mapping m ≡ last)))
  gpio_of-cases m h = elim (dec_lt m (2 * i)) [
    | yes lt ↦ inl lt
    | no ge ↦ elim (dec_lt m (2 * i + 1)) [
      | yes lt ↦ inr (inl (omega arith, ap (λ t. get_or mapping t 0) (omega arith)))
      | no ge' ↦ inr (inr (omega arith, ap (λ t. get_or mapping t 0) (omega arith)))
    ]
  ]

  ready_valid :
      (m : ℕ)
      → m < 2 * (i + 1)
      → (p.gpio_is_valid (gpio_of mapping m) ≡ true) × (gpio_of mapping m ≢ 0)
  ready_valid m h = elim (gpio_of-cases m h) [
    | inl lt ↦ (r.valid m lt, r.nonzero m lt)
    | inr (inl (e, f)) ↦
        rw f (is_gpio idle start made.start_valid, (self-ne idle start made.start_valid).0)
    | inr (inr (e, f)) ↦ rw f (
      is_gpio (started start) last made.last_valid,
      (self-ne (started start) last made.last_valid).1,
    )
  ]

  ready_apart :
      (m m' : ℕ)
      → m < 2 * (i + 1)
      → m' < 2 * (i + 1)
      → gpio_of mapping m ≡ gpio_of mapping m'
      → m ≡ m'
  ready_apart m m' h h' e =
      let cases = gpio_of-cases m h in
      let cases' = gpio_of-cases m' h' in
      ground (
        arith,
        cases,
        cases',
        r.apart m m',
        below-ne idle start made.start_valid m,
        below-ne idle start made.start_valid m',
        below-ne (started start) last made.last_valid m,
        below-ne (started start) last made.last_valid m',
        (self-ne (started start) last made.last_valid).0,
      )

  ready-Granted : (j : ℕ) → j < suc i → Granted p mapping j
  ready-Granted j h = elim (dec_lt j i) [
    | yes lt ↦ r.granted j lt
    | no ge ↦
        let e : i ≡ j = omega arith in
        subst (Granted p mapping) e (record {
          requested = made.requested;
          start_irq = made.start_irq;
          last_irq = made.last_irq;
        })
  ]

  pub Ready-suc : Ready p mapping n (suc i) (record b' { index = suc b'.index })
  Ready-suc = record {
    index = ap suc (made.index ∙ r.index);
    wide = rw made.keys (rw (length-change b.keys b.index) r.wide);
    below = λ j h. ground (arith, keys_after j, r.below j);
    above = λ j h h'. ground (arith, keys_after j, r.above j);
    valid = λ m h. (ready_valid m (omega arith)).0;
    nonzero = λ m h. (ready_valid m (omega arith)).1;
    granted = ready-Granted;
    apart = λ m m' h h' e. ready_apart m m' (omega arith) (omega arith) e;
  }
