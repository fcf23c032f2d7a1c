-- ===== src/Keyboard/Gpio/Setup/Body.antt =====
-- What the body of the loop of `cmidid_gpio_init` has done when it ends without an error.
use mathlib.Core.List.{append_assoc}
use cmidid_kerneldriver.Base.{
  ℕ, zero, suc, true, false, List, [], ◌∷◌, ◌++◌, some, ◌%◌, ◌^◌, ◌==◌, ◌≡◌, ◌≢◌, refl, arith,
  get_elem?, length, if◌then◌else◌, ap,
}
use cmidid_kerneldriver.Base.Int.{is_negative, to_unsigned}
use cmidid_kerneldriver.Keyboard.Kernel.{
  start_button, end_button, Call, gpio_request_array, hrtimer_init, request_irq,
}
use cmidid_kerneldriver.Keyboard.Gpio.State.{Key, inactive}
use cmidid_kerneldriver.Keyboard.Gpio.Setup.{Platform, unused, is_valid, Boot, ok, change, init_key}

-- The key that the body of the loop makes out of a zeroed one.
abbrev pub made_key : Platform → ℕ → ℕ → ℕ → Key
made_key p s e n = record {
  state = inactive;
  gpios = record { start = s; last = e };
  irqs = record { start = to_unsigned (p.gpio_to_irq s); last = to_unsigned (p.gpio_to_irq e) };
  hit_time = 0;
  timer_started = record { start = false; last = false };
  note = n % 2 ^ 8;
  last_velocity = 0;
}

-- The calls that it makes.
abbrev pub made_calls : Platform → ℕ → ℕ → ℕ → List Call
made_calls p i s e =
    gpio_request_array s e (p.request_array s e)
    ∷ hrtimer_init i start_button
    ∷ hrtimer_init i end_button
    ∷ request_irq (to_unsigned (p.gpio_to_irq s)) (p.request_irq (to_unsigned (p.gpio_to_irq s)))
    ∷ request_irq (to_unsigned (p.gpio_to_irq e)) (p.request_irq (to_unsigned (p.gpio_to_irq e)))
    ∷ []

pub get_elem?-change :
    (ks : List Key) (i j : ℕ) (f : Key → Key) (k : Key)
    → get_elem? ks i ≡ some k
    → get_elem? (change ks i f) j ≡ (if i == j then some (f k) else get_elem? ks j)
get_elem?-change [] i j f k h = cc
get_elem?-change (x ∷ ks) zero zero f k h = ground arith
get_elem?-change (x ∷ ks) zero (suc j) f k h = ground arith
get_elem?-change (x ∷ ks) (suc i) zero f k h = ground arith
get_elem?-change (x ∷ ks) (suc i) (suc j) f k h = ground (arith, get_elem?-change ks i j f k h)

pub length-change : (ks : List Key) (i : ℕ) (f : Key → Key) → length (change ks i f) ≡ length ks
length-change [] i f = refl
length-change (k ∷ ks) zero f = refl
length-change (k ∷ ks) (suc i) f = ap suc (length-change ks i f)

change-change :
    (ks : List Key) (i : ℕ) (f g : Key → Key)
    → change (change ks i f) i g ≡ change ks i (λ k. g (f k))
change-change [] i f g = refl
change-change (k ∷ ks) zero f g = refl
change-change (k ∷ ks) (suc i) f g = ap (λ r. k ∷ r) (change-change ks i f g)

change_six :
    (ks : List Key) (i : ℕ) (f₁ f₂ f₃ f₄ f₅ f₆ : Key → Key)
    → change (change (change (change (change (change ks i f₁) i f₂) i f₃) i f₄) i f₅) i f₆
      ≡ change ks i (λ k. f₆ (f₅ (f₄ (f₃ (f₂ (f₁ k))))))
change_six ks i f₁ f₂ f₃ f₄ f₅ f₆ = simp change-change

append_five {ℓ} :
    {A : Type ℓ} (xs : List A) (a b c d e : A)
    → ((((xs ++ a ∷ []) ++ b ∷ []) ++ c ∷ []) ++ d ∷ []) ++ e ∷ [] ≡ xs ++ (a ∷ b ∷ c ∷ d ∷ e ∷ [])
append_five xs a b c d e = simp append_assoc

-- `is_valid` refuses the GPIOs of all keys of the array.
pub unused-ne :
    (ks : List Key) (g j : ℕ) (k : Key)
    → unused ks g ≡ true
    → get_elem? ks j ≡ some k
    → (g ≢ k.gpios.start) × (g ≢ k.gpios.last)
unfolding unused
unused-ne [] g j k u h = cc
unused-ne (x ∷ ks) g zero k u h = (ground arith, ground arith)
unused-ne (x ∷ ks) g (suc j) k u h = unused-ne ks g j k (ground arith) h

abbrev pub started : ℕ → Key → Key
started s k = record k {
  state = inactive;
  last_velocity = 0;
  gpios = record { start = s; last = k.gpios.last };
}

-- A run of the body that comes to its end.
pub record Made (p : Platform) (i s e n : ℕ) (b b' : Boot) : Type 0 where
  pub start_valid :
      is_valid p (change b.keys b.index (λ k. record k { state = inactive; last_velocity = 0 })) s
      ≡ true
  pub last_valid : is_valid p (change b.keys b.index (started s)) e ≡ true
  pub requested : is_negative (p.request_array s e) ≡ false
  pub start_irq : is_negative (p.request_irq (to_unsigned (p.gpio_to_irq s))) ≡ false
  pub last_irq : is_negative (p.request_irq (to_unsigned (p.gpio_to_irq e))) ≡ false
  pub keys :
      b'.keys ≡ change b.keys b.index (λ k. record (made_key p s e n) { hit_time = k.hit_time })
  pub index : b'.index ≡ b.index
  pub calls : b'.calls ≡ b.calls ++ made_calls p i s e

pub init_key-Made :
    (p : Platform) (i s e n : ℕ) (b : Boot) {b' : Boot}
    → init_key p i s e n b ≡ (ok tt, b')
    → Made p i s e n b b'
unfolding init_key
init_key-Made p i s e n b h = record {
  start_valid = ground arith;
  last_valid = ground (
    arith,
    change-change b.keys b.index (λ k. record k { state = inactive; last_velocity = 0 })
        (λ k. record k { gpios = record { start = s; last = k.gpios.last } }),
  );
  requested = ground arith;
  start_irq = ground arith;
  last_irq = ground arith;
  keys = ground (
    arith,
    change_six b.keys b.index (λ k. record k { state = inactive; last_velocity = 0 })
        (λ k. record k { gpios = record { start = s; last = k.gpios.last } })
        (λ k. record k { gpios = record { start = k.gpios.start; last = e }; note = n % 2 ^ 8 })
        (λ k. record k {
          irqs = record { start = to_unsigned (p.gpio_to_irq s); last = k.irqs.last };
        })
        (λ k. record k { timer_started = record { start = false; last = false } })
        (λ k. record k {
          irqs = record { start = k.irqs.start; last = to_unsigned (p.gpio_to_irq e) };
        }),
  );
  index = ground arith;
  calls = ground (
    arith,
    append_five b.calls (gpio_request_array s e (p.request_array s e)) (hrtimer_init i start_button)
        (hrtimer_init i end_button)
        (request_irq (to_unsigned (p.gpio_to_irq s))
          (p.request_irq (to_unsigned (p.gpio_to_irq s))))
        (request_irq (to_unsigned (p.gpio_to_irq e))
          (p.request_irq (to_unsigned (p.gpio_to_irq e)))),
  );
}
