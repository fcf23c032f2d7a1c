-- ===== src/Keyboard/Gpio/Setup.antt =====
-- `is_valid`, `cmidid_gpio_init` and `cmidid_gpio_exit` of module/cmidid_gpio.c. An `int` of the
-- mapping is the pattern of its `unsigned int`.
pub mod Body
pub mod Loop
pub mod Outcome
pub mod Balance
pub mod Totals
pub mod Release
pub mod Others
use cmidid_kerneldriver.Base.{
  ℕ, zero, suc, Bool, true, false, List, [], ◌∷◌, ◌++◌, Option, none, some, ℤ, pos, ◌+◌, ◌*◌, ◌/◌,
  ◌%◌, ◌^◌, ◌==◌, ltb, not, get_elem?, get_or, set, length, replicate, if◌then◌else◌,
}
use cmidid_kerneldriver.Base.Int.{is_negative, to_unsigned}
use cmidid_kerneldriver.Keyboard.Kernel.{
  start_button, end_button, Call, kzalloc_keys, kfree_keys, gpio_request_array, gpio_free_array,
  hrtimer_init, hrtimer_cancel, request_irq, free_irq, einval, enomem,
}
use cmidid_kerneldriver.Keyboard.Gpio.State.{Key, inactive, PerButton, GpioState, linear}

-- What the kernel answers about memory, GPIOs and interrupts.
pub record Platform : Type 0 where
  pub kzalloc : Bool
  pub gpio_is_valid : ℕ → Bool
  pub request_array : ℕ → ℕ → ℤ
  pub gpio_to_irq : ℕ → ℤ
  pub request_irq : ℕ → ℤ

-- The module parameters; `gpio_mapping_size` is the length of `gpio_mapping`.
pub record Params : Type 0 where
  pub gpio_mapping : List ℕ
  pub start_button_active_high : Bool
  pub end_button_active_high : Bool
  pub stroke_time_min : ℕ
  pub stroke_time_max : ℕ

-- A key as `kzalloc` leaves it.
abbrev pub zero_key : Key
zero_key = record {
  state = inactive;
  gpios = record { start = 0; last = 0 };
  irqs = record { start = 0; last = 0 };
  hit_time = 0;
  timer_started = record { start = false; last = false };
  note = 0;
  last_velocity = 0;
}

-- The loop of `is_valid`.
unfoldable pub unused : List Key → ℕ → Bool
unused [] gpio = true
unused (k ∷ ks) gpio =
    let rest = unused ks gpio in
    if gpio == k.gpios.start then false else if gpio == k.gpios.last then false else rest

-- `is_valid`.
unfoldable pub is_valid : Platform → List Key → ℕ → Bool
is_valid p ks gpio = if unused ks gpio then p.gpio_is_valid gpio else false

-- The array of keys, the loop's index and the calls made so far.
pub record Boot : Type 0 where
  pub keys : List Key
  pub index : ℕ
  pub calls : List Call

-- How far a statement of the loop gets: `failed` carries the error code of a `goto free_buttons`.
pub data Result (A : Type 0) : Type 0 where
  failed : ℤ → Result A
  ok : A → Result A

abbrev pub Action : Type 0 → Type 0
Action A = (boot : Boot) → Result A × Boot

-- The statements that follow are left out after an error.
abbrev pub go_on : {A B : Type 0} → (A → Action B) → Result A → Action B
go_on rest (failed code) boot = (failed code, boot)
go_on rest (ok a) boot = rest a boot

infixl 6 ◌>>=◌
abbrev pub ◌>>=◌ : {A B : Type 0} → Action A → (A → Action B) → Action B
◌>>=◌ statement rest boot = go_on rest (statement boot).0 (statement boot).1

infixl 6 ◌>>◌
abbrev pub ◌>>◌ : {B : Type 0} → Action (Unit {0}) → Action B → Action B
◌>>◌ statement rest boot = go_on (λ done. rest) (statement boot).0 (statement boot).1

abbrev pub fail_if : Bool → ℤ → Action (Unit {0})
fail_if c code b = (if c then failed code else ok tt, b)

abbrev pub call : Call → Action (Unit {0})
call c b = (ok tt, record b { calls = b.calls ++ c ∷ [] })

abbrev pub all_keys : Action (List Key)
all_keys b = (ok b.keys, b)

abbrev pub change : List Key → ℕ → (Key → Key) → List Key
change [] i f = []
change (k ∷ ks) zero f = f k ∷ ks
change (k ∷ ks) (suc i) f = k ∷ change ks i f

-- A write through `k`, the key at the index.
abbrev pub edit : (Key → Key) → Action (Unit {0})
edit f b = (ok tt, record b { keys = change b.keys b.index f })

-- The body of the loop for a key with the GPIOs `s` and `e` and the note `n`. The tests `irq < 0`
-- are on an `unsigned int`.
unfoldable pub init_key : Platform → ℕ → ℕ → ℕ → ℕ → Action (Unit {0})
init_key p i s e n =
    let irq_s = to_unsigned (p.gpio_to_irq s) in
    let irq_e = to_unsigned (p.gpio_to_irq e) in
    do
      edit (λ k. record k { state = inactive; last_velocity = 0 })
      before ← all_keys
      fail_if (not (is_valid p before s)) einval
      edit (λ k. record k { gpios = record { start = s; last = k.gpios.last } })
      half ← all_keys
      fail_if (not (is_valid p half e)) einval
      edit (λ k. record k { gpios = record { start = k.gpios.start; last = e }; note = n % 2 ^ 8 })
      call (gpio_request_array s e (p.request_array s e))
      fail_if (is_negative (p.request_array s e)) (p.request_array s e)
      fail_if (ltb irq_s 0) (pos irq_s)
      edit (λ k. record k { irqs = record { start = irq_s; last = k.irqs.last } })
      call (hrtimer_init i start_button)
      call (hrtimer_init i end_button)
      edit (λ k. record k { timer_started = record { start = false; last = false } })
      fail_if (ltb irq_e 0) (pos irq_e)
      edit (λ k. record k { irqs = record { start = k.irqs.start; last = irq_e } })
      call (request_irq irq_s (p.request_irq irq_s))
      fail_if (is_negative (p.request_irq irq_s)) einval
      call (request_irq irq_e (p.request_irq irq_e))
      fail_if (is_negative (p.request_irq irq_e)) einval

-- `i++`.
abbrev pub advance : Action (Unit {0})
advance b = (ok tt, record b { index = suc b.index })

-- The loop, with `left` keys to go, at index `i`.
unfoldable pub init_keys : Platform → List ℕ → ℕ → ℕ → Action (Unit {0})
init_keys p mapping zero i = λ b. (ok tt, b)
init_keys p mapping (suc left) i = do
  init_key p i (get_or mapping (3 * i) 0) (get_or mapping (3 * i + 1) 0)
      (get_or mapping (3 * i + 2) 0)
  advance
  init_keys p mapping left (suc i)

-- The calls that release one key.
abbrev pub free_key : ℕ → Key → List Call
free_key i k =
    gpio_free_array k.gpios.start k.gpios.last
    ∷ hrtimer_cancel i end_button
    ∷ hrtimer_cancel i start_button
    ∷ []

-- The loop after `free_buttons`, from index `i` down to 1.
unfoldable pub free_down : List Key → ℕ → List Call
free_down ks zero = []
free_down ks (suc i) = free_key (suc i) (get_or ks (suc i) zero_key) ++ free_down ks i

-- `for (--i; i > 0; --i)`, where the loop broke off at `i`.
unfoldable pub free_buttons : List Key → ℕ → List Call
unfolding free_down
free_buttons ks zero = []
free_buttons ks (suc i) = free_down ks i

pub record GpioSetUp : Type 0 where
  pub code : ℤ
  pub gpio : GpioState
  pub calls : List Call

-- How the loop's result becomes that of `cmidid_gpio_init`.
unfoldable pub finish : GpioState → Result (Unit {0}) × Boot → GpioSetUp
finish g (ok _, b) = record { code = pos 0; gpio = record g { keys = b.keys }; calls = b.calls }
finish g (failed code, b) = record {
  code = code;
  gpio = record g { keys = b.keys };
  calls = b.calls ++ (free_buttons b.keys b.index ++ kfree_keys ∷ []);
}

-- The state before the loop.
abbrev pub fresh_state : Params → GpioState
fresh_state q = record {
  keys = [];
  button_active_high = record {
    start = q.start_button_active_high;
    last = q.end_button_active_high;
  };
  last_stroke_time = 100000;
  stroke_time_min = q.stroke_time_min;
  stroke_time_max = q.stroke_time_max;
  vel_curve = linear;
}

-- `cmidid_gpio_init`.
unfoldable pub gpio_init : Platform → Params → GpioState → GpioSetUp
gpio_init p q g =
    let size = length q.gpio_mapping in
    let n = size / 3 in
    let boot : Boot = record {
      keys = replicate n zero_key;
      index = 0;
      calls = kzalloc_keys n true ∷ [];
    } in
    let run = finish (fresh_state q) (init_keys p q.gpio_mapping n 0 boot) in
    if size == 0
    then record { code = einval; gpio = g; calls = [] }
    else if not (size % 3 == 0)
    then record { code = einval; gpio = g; calls = [] }
    else if p.kzalloc
    then run
    else record { code = enomem; gpio = g; calls = kzalloc_keys n false ∷ [] }

-- The loop of `cmidid_gpio_exit` from index `i` on.
unfoldable pub exit_keys : ℕ → List Key → List Call
exit_keys i [] = []
exit_keys i (k ∷ ks) =
    free_irq k.irqs.start ∷ free_irq k.irqs.last ∷ (free_key i k ++ exit_keys (suc i) ks)

-- `cmidid_gpio_exit`.
unfoldable pub gpio_exit : GpioState → List Call
unfolding exit_keys
gpio_exit g = exit_keys 0 g.keys ++ kfree_keys ∷ []
