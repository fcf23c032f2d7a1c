-- ===== src/Keyboard/Gpio/Setup/Outcome.antt =====
-- What `cmidid_gpio_init` and `cmidid_gpio_exit` do with the keys, and with what they took from the
-- kernel.
use mathlib.Core.List.{append-nil, append_assoc}
use cmidid_kerneldriver.Base.{
  ℕ, zero, suc, true, List, [], ◌∷◌, ◌++◌, some, ℤ, pos, ◌+◌, ◌*◌, ◌/◌, ◌<◌, ◌≡◌, ◌≢◌, refl, arith,
  get_elem?, get_or, length, replicate, length-replicate, subst, sym, ◌∙◌, ap, ◌⊎◌, inl, inr,
}
use cmidid_kerneldriver.Base.Int.{is_negative}
use cmidid_kerneldriver.Keyboard.Kernel.{Call, kzalloc_keys}
use cmidid_kerneldriver.Keyboard.Gpio.State.{Key, GpioState}
use cmidid_kerneldriver.Keyboard.Gpio.Setup.{
  go_on, Platform, Params, zero_key, Boot, Result, ok, failed, init_key, init_keys, finish,
  gpio_init, fresh_state, GpioSetUp, ◌>>=◌, ◌>>◌, Action, advance,
}
use cmidid_kerneldriver.Keyboard.Gpio.Setup.Body.{init_key-Made}
use cmidid_kerneldriver.Keyboard.Gpio.Setup.Loop.{
  gpio_of, mapped_key, mapped_calls, Granted, Ready, Ready-suc,
}

get_elem?-replicate : (n j : ℕ) (k : Key) → j < n → get_elem? (replicate n k) j ≡ some k
get_elem?-replicate zero j k h = absurd (omega arith)
get_elem?-replicate (suc n) zero k h = refl
get_elem?-replicate (suc n) (suc j) k h = get_elem?-replicate n j k (omega arith)

pub >>=-ok :
    {A B : Type 0} (m : Action A) (f : A → Action B) (b : Boot) {c : B} {b' : Boot}
    → (m >>= f) b ≡ (ok c, b')
    → (a : A) × (b₁ : Boot) × (m b ≡ (ok a, b₁)) × (f a b₁ ≡ (ok c, b'))
>>=-ok {A} {B} m f b {c} {b'} h = go (m b) refl h
  where
    go :
        (r : Result A × Boot)
        → m b ≡ r
        → go_on f r.0 r.1 ≡ (ok c, b')
        → (a : A) × (b₁ : Boot) × (m b ≡ (ok a, b₁)) × (f a b₁ ≡ (ok c, b'))
    go (ok a, b₁) e k = (a, b₁, e, k)
    go (failed code, b₁) e k = absurd (cc)

pub >>=-failed :
    {A B : Type 0} (m : Action A) (f : A → Action B) (b : Boot) {code : ℤ} {b' : Boot}
    → (m >>= f) b ≡ (failed code, b')
    → (m b ≡ (failed code, b'))
      ⊎ ((a : A) × (b₁ : Boot) × (m b ≡ (ok a, b₁)) × (f a b₁ ≡ (failed code, b')))
>>=-failed {A} {B} m f b {code} {b'} h = go (m b) refl h
  where
    go :
        (r : Result A × Boot)
        → m b ≡ r
        → go_on f r.0 r.1 ≡ (failed code, b')
        → (m b ≡ (failed code, b'))
          ⊎ ((a : A) × (b₁ : Boot) × (m b ≡ (ok a, b₁)) × (f a b₁ ≡ (failed code, b')))
    go (ok a, b₁) e k = inr (a, b₁, e, k)
    go (failed c, b₁) e k =
        let same : c ≡ code = cc in
        inl (e ∙ (λ i. (failed (same i), (let p : b₁ ≡ b' = cc in p) i)))

init_keys-Ready :
    (p : Platform) (mapping : List ℕ) (n left i : ℕ) (b : Boot) {b' : Boot}
    → i + left ≡ n
    → Ready p mapping n i b
    → init_keys p mapping left i b ≡ (ok tt, b')
    → Ready p mapping n n b' × (b'.calls ≡ b.calls ++ mapped_calls p mapping left i)
unfolding init_keys
init_keys-Ready p mapping n zero i b {b'} e r h =
    let same : b ≡ b' = cc in
    let at_end : i ≡ n = omega arith in
    (
      subst (λ x. Ready p mapping n n x) same (subst (λ j. Ready p mapping n j b) at_end r),
      rw (append-nil, ← same) refl,
    )
init_keys-Ready p mapping n (suc left) i b {b'} e r h =
    let body =
      init_key p i (get_or mapping (3 * i) 0) (get_or mapping (3 * i + 1) 0)
        (get_or mapping (3 * i + 2) 0) in
    let (_, b₁, run, rest) = >>=-ok body (λ _. advance >> init_keys p mapping left (suc i)) b h in
    let made = init_key-Made p i _ _ _ b run in
    let (ready, calls) =
      init_keys-Ready p mapping n left (suc i) (record b₁ { index = suc b₁.index }) (omega arith)
        (Ready-suc p mapping n i r (omega arith) made) rest in
    (ready, calls ∙ rw (made.calls, append_assoc) refl)

-- The invariant holds before the loop.
replicate-Ready :
    (p : Platform) (mapping : List ℕ) (n : ℕ) (cs : List Call)
    → Ready p mapping n 0 (record { keys = replicate n zero_key; index = 0; calls = cs })
replicate-Ready p mapping n cs = record {
  index = refl;
  wide = length-replicate n zero_key;
  below = λ j h. absurd (omega arith);
  above = λ j h h'. get_elem?-replicate n j zero_key h';
  valid = λ m h. absurd (omega arith);
  nonzero = λ m h. absurd (omega arith);
  granted = λ j h. absurd (omega arith);
  apart = λ m m' h h' e. absurd (omega arith);
}

-- A step that fails has a negative code, and so has the loop.
init_key-negative :
    (p : Platform) (i s e n : ℕ) (b : Boot) {code : ℤ} {b' : Boot}
    → init_key p i s e n b ≡ (failed code, b')
    → is_negative code ≡ true
unfolding init_key
init_key-negative p i s e n b h = ground arith

init_keys-negative :
    (p : Platform) (mapping : List ℕ) (left i : ℕ) (b : Boot) {code : ℤ} {b' : Boot}
    → init_keys p mapping left i b ≡ (failed code, b')
    → is_negative code ≡ true
unfolding init_keys
init_keys-negative p mapping zero i b h = absurd (cc)
init_keys-negative p mapping (suc left) i b h =
    let body =
      init_key p i (get_or mapping (3 * i) 0) (get_or mapping (3 * i + 1) 0)
        (get_or mapping (3 * i + 2) 0) in
    elim (>>=-failed body (λ _. advance >> init_keys p mapping left (suc i)) b h) [
      | inl e ↦ init_key-negative p i _ _ _ b e
      | inr (_, b₁, e, k) ↦
          init_keys-negative p mapping left (suc i) (record b₁ { index = suc b₁.index }) k
    ]

-- All that a successful set-up has done.
pub record IsSetUp (p : Platform) (q : Params) (r : GpioSetUp) : Type 0 where
  pub whole : length q.gpio_mapping ≡ 3 * (length q.gpio_mapping / 3)
  pub wide : length r.gpio.keys ≡ length q.gpio_mapping / 3
  pub keys :
      (j : ℕ)
      → j < length q.gpio_mapping / 3
      → get_elem? r.gpio.keys j ≡ some (mapped_key p q.gpio_mapping j)
  pub valid :
      (m : ℕ)
      → m < 2 * (length q.gpio_mapping / 3)
      → p.gpio_is_valid (gpio_of q.gpio_mapping m) ≡ true
  pub nonzero : (m : ℕ) → m < 2 * (length q.gpio_mapping / 3) → gpio_of q.gpio_mapping m ≢ 0
  pub granted : (j : ℕ) → j < length q.gpio_mapping / 3 → Granted p q.gpio_mapping j
  pub apart :
      (m m' : ℕ)
      → m < 2 * (length q.gpio_mapping / 3)
      → m' < 2 * (length q.gpio_mapping / 3)
      → gpio_of q.gpio_mapping m ≡ gpio_of q.gpio_mapping m'
      → m ≡ m'
  pub calls :
      r.calls
      ≡ kzalloc_keys (length q.gpio_mapping / 3) true
        ∷ mapped_calls p q.gpio_mapping (length q.gpio_mapping / 3) 0

-- The loop's failures carry a code that is not 0, so a code of 0 comes from its end.
module _ (p : Platform) (q : Params) where
  abbrev size : ℕ
  size = length q.gpio_mapping / 3

  abbrev boot : Boot
  boot = record { keys = replicate size zero_key; index = 0; calls = kzalloc_keys size true ∷ [] }

  pub gpio_init-cases :
      (g : GpioState)
      → (gpio_init p q g).code ≡ pos 0
      → (length q.gpio_mapping ≡ 3 * size)
        × (gpio_init p q g ≡ finish (fresh_state q) (init_keys p q.gpio_mapping size 0 boot))
  unfolding gpio_init
  gpio_init-cases g h = (ground arith, ground arith)

  -- If `cmidid_gpio_init` returns 0, the mapping has whole triples, and every triple has become a key
  -- that is inactive and carries its GPIOs, interrupts and note; all the GPIOs are valid, different
  -- from one another and not 0.
  pub gpio_init-IsSetUp :
      (g : GpioState) → (gpio_init p q g).code ≡ pos 0 → IsSetUp p q (gpio_init p q g)
  gpio_init-IsSetUp g h =
      let (whole, run) = gpio_init-cases g h in
      subst (IsSetUp p q) (sym run) (
        looped whole (init_keys p q.gpio_mapping size 0 boot) refl
          (ap (λ (r : GpioSetUp). r.code) (sym run) ∙ h))
    where
      looped :
          length q.gpio_mapping ≡ 3 * size
          → (r : Result (Unit {0}) × Boot) → init_keys p q.gpio_mapping size 0 boot ≡ r
          → (finish (fresh_state q) r).code ≡ pos 0
          → IsSetUp p q (finish (fresh_state q) r)
      looped whole (ok tt, b) e c =
          let (ready, calls) =
            init_keys-Ready p q.gpio_mapping size size 0 boot (omega arith)
              (replicate-Ready p q.gpio_mapping size _) e in
          unfold finish in
          record {
            whole = whole;
            wide = ready.wide;
            keys = ready.below;
            valid = ready.valid;
            nonzero = ready.nonzero;
            granted = ready.granted;
            apart = ready.apart;
            calls = calls;
          }
      looped whole (failed code, b) e c =
          absurd
            (unfold finish in ground (arith, init_keys-negative p q.gpio_mapping size 0 boot e))
