-- ===== src/AppleMidi/Clock.antt =====
-- The clocks of applemidi/clock.c. An `unsigned long long` wraps at 2^64; a `long long` is its bit
-- pattern. A pointer to a clock is an index of the heap, where a block that was freed is `none`.
pub mod Fractions
pub mod Global
pub mod Now
use cmidid_kerneldriver.Base.{
  ℕ, zero, suc, Bool, true, false, List, [], ◌∷◌, ◌++◌, Option, none, some, ◌+◌, ◌-◌, ◌*◌, ◌/◌, ◌%◌,
  ◌^◌, ◌==◌, ◌&&◌, if◌then◌else◌, length, get_elem?, set,
}

pub record Frac : Type 0 where
  pub numer : ℕ
  pub denom : ℕ

-- The body of the inner loop of `_divide_frac`.
abbrev pub divide_step : ℕ → Frac → Frac
divide_step p f =
    if f.numer % p == 0
    then record f { numer = f.numer / p }
    else record f { denom = f.denom * p % 2 ^ 64 }

-- The inner loop of `_divide_frac`: the fraction and the factor that is left. `none` if the fuel
-- does not suffice.
unfoldable pub divide_loop : ℕ → ℕ → Frac → ℕ → Option (Frac × ℕ)
divide_loop zero p f fac = none
divide_loop (suc fuel) p f fac =
    let rest = divide_loop fuel p (divide_step p f) (fac / p) in
    if fac % p == 0 then rest else some (f, fac)

-- The array `prime`, up to its 1.
abbrev pub primes : List ℕ
primes = 7 ∷ 5 ∷ 3 ∷ 2 ∷ []

abbrev pub next_prime : (Frac → ℕ → Option (Frac × ℕ)) → Option (Frac × ℕ) → Option (Frac × ℕ)
next_prime next none = none
next_prime next (some (f, fac)) = next f fac

-- The outer loop.
unfoldable pub divide_primes : ℕ → List ℕ → Frac → ℕ → Option (Frac × ℕ)
divide_primes fuel [] f fac = some (f, fac)
divide_primes fuel (p ∷ ps) f fac =
    next_prime (λ f' fac'. divide_primes fuel ps f' fac') (divide_loop fuel p f fac)

abbrev apply_rest : Option (Frac × ℕ) → Option Frac
apply_rest none = none
apply_rest (some (f, fac)) = some (record f { denom = f.denom * fac % 2 ^ 64 })

-- `_divide_frac`. 64 passes are enough for every factor of 64 bits but 0.
unfoldable pub divide_frac : Frac → ℕ → Option Frac
divide_frac f fac = apply_rest (divide_primes 64 primes f fac)

abbrev swap : Option Frac → Option Frac
swap none = none
swap (some f) = some (record { numer = f.denom; denom = f.numer })

-- `_multiply_frac`.
unfoldable pub multiply_frac : Frac → ℕ → Option Frac
multiply_frac f fac = swap (divide_frac (record { numer = f.denom; denom = f.numer }) fac)

-- The inner loop of `_normalize_frac`.
unfoldable pub normalize_loop : ℕ → ℕ → Frac → Option Frac
normalize_loop zero p f = none
normalize_loop (suc fuel) p f =
    let rest = normalize_loop fuel p (record { numer = f.numer / p; denom = f.denom / p }) in
    if (f.numer % p == 0) && (f.denom % p == 0) then rest else some f

abbrev then_normalize : (Frac → Option Frac) → Option Frac → Option Frac
then_normalize next none = none
then_normalize next (some f) = next f

unfoldable pub normalize_primes : List ℕ → Frac → Option Frac
normalize_primes [] f = some f
normalize_primes (p ∷ ps) f = then_normalize (λ f'. normalize_primes ps f') (normalize_loop 64 p f)

-- `_normalize_frac`.
unfoldable pub normalize_frac : Frac → Option Frac
normalize_frac f = normalize_primes primes f

-- `struct MIDIClock`.
pub record Clock : Type 0 where
  pub refs : ℕ
  pub offset : ℕ
  pub rate : ℕ
  pub frac : Frac

abbrev quotient : ℕ → ℕ → Option ℕ
quotient a zero = none
quotient a (suc d) = some (a / suc d)

-- `_get_real_time`, with what `ktime_get` returns; `none` is a division by zero.
unfoldable pub real_time : Frac → ℕ → Option ℕ
real_time f t = quotient (t * f.numer % 2 ^ 64) f.denom

abbrev with_frac : ℕ → ℕ → Option Frac → Option Clock
with_frac rate t none = none
with_frac rate t (some f) = elim (real_time f t) [
  | none ↦ none
  | some now ↦ some (record { refs = 1; offset = (2 ^ 64 - now) % 2 ^ 64; rate = rate; frac = f })
]

-- `MIDIClockCreate`, with whether `kmalloc` has memory, whose result is written through without a
-- test, and with NSEC_PER_SEC as the denominator of the kernel's clock.
unfoldable pub create_clock : Bool → ℕ → ℕ → Option Clock
create_clock false rate t = none
create_clock true rate t =
    let rate' = if rate == 0 then 1000000000 else rate in
    with_frac rate' t (
      then_normalize normalize_frac
        (multiply_frac (record { numer = 1; denom = 1000000000 }) rate'))

-- The clocks and `_midi_global_clock`.
pub record Clocks : Type 0 where
  pub heap : List (Option Clock)
  pub global : Option ℕ

abbrev pub at_block : Option (Option Clock) → Option Clock
at_block (some (some clock)) = some clock
at_block (some none) = none
at_block none = none

abbrev pub get_clock : Clocks → ℕ → Option Clock
get_clock s h = at_block (get_elem? s.heap h)

abbrev retained : Clocks → ℕ → Option Clock → Clocks
retained s h none = s
retained s h (some c) = record s {
  heap = set s.heap h (some (record c { refs = (c.refs + 1) % 2 ^ 32 }));
}

-- `MIDIClockRetain`; `refs` is the bit pattern of an `int`.
unfoldable pub retain_clock : Clocks → ℕ → Clocks
retain_clock s h = retained s h (get_clock s h)

abbrev released : Clocks → ℕ → Option Clock → Clocks
released s h none = s
released s h (some c) =
    let refs = (c.refs + 0xffffffff) % 2 ^ 32 in
    record s { heap = set s.heap h (if refs == 0 then none else some (record c { refs = refs })) }

-- `MIDIClockRelease` and `MIDIClockDestroy`.
unfoldable pub release_clock : Clocks → ℕ → Clocks
release_clock s h = released s h (get_clock s h)

-- A clock that is created, on the heap: its pointer.
abbrev placed : Clocks → Option Clock → Option (ℕ × Clocks)
placed s none = none
placed s (some c) = some (length s.heap, record s { heap = s.heap ++ some c ∷ [] })

abbrev provide_first : Option (ℕ × Clocks) → Option (ℕ × Clocks)
provide_first none = none
provide_first (some (h, s)) = some (h, retain_clock (record s { global = some h }) h)

abbrev provide_known : Bool → ℕ → ℕ → Clocks → ℕ → Option Clock → Option (ℕ × Clocks)
provide_known memory rate t s g none = none
provide_known memory rate t s g (some c) =
    if c.rate == rate then some (g, retain_clock s g) else placed s (create_clock memory rate t)

-- `MIDIClockProvide`: the pointer to a clock. `none` is a division by zero, no
-- memory for a clock that is made, or a global clock that
-- was freed.
unfoldable pub provide_clock : Bool → ℕ → ℕ → Clocks → Option (ℕ × Clocks)
provide_clock memory rate t s = elim s.global [
  | none ↦ provide_first (placed s (create_clock memory rate t))
  | some g ↦ provide_known memory rate t s g (get_clock s g)
]

abbrev as_global : Option (ℕ × Clocks) → Option (ℕ × Clocks)
as_global none = none
as_global (some (h, s)) = some (h, record s { global = some h })

-- `MIDI_SAMPLING_RATE_DEFAULT`.
abbrev pub default_rate : ℕ
default_rate = 0

-- `_get_global_clock`.
unfoldable pub get_global_clock : Bool → ℕ → Clocks → Option (ℕ × Clocks)
get_global_clock memory t s = elim s.global [
  | none ↦ as_global (placed s (create_clock memory default_rate t))
  | some g ↦ some (g, s)
]

-- `MIDIClockGetNow`, the clock given: the time on it at `t`.
unfoldable pub get_now : Clock → ℕ → Option ℕ
get_now c t = elim (real_time c.frac t) [
  | none ↦ none
  | some now ↦ some ((now + c.offset) % 2 ^ 64)
]

abbrev told : Clocks → Option ℕ → Option (ℕ × Clocks)
told s none = none
told s (some now) = some (now, s)

abbrev read_now : ℕ → Clocks → Option Clock → Option (ℕ × Clocks)
read_now t s none = none
read_now t s (some c) = told s (get_now c t)

abbrev now_on : ℕ → Option (ℕ × Clocks) → Option (ℕ × Clocks)
now_on t none = none
now_on t (some (h, s)) = read_now t s (get_clock s h)

-- `MIDIClockGetNow` with a pointer to a clock or NULL, which asks for the global clock; that may be
-- created then, at the time `made`.
unfoldable pub get_now_at : Option ℕ → Bool → ℕ → ℕ → Clocks → Option (ℕ × Clocks)
get_now_at none memory made t s = now_on t (get_global_clock memory made s)
get_now_at (some h) memory made t s = now_on t (some (h, s))
