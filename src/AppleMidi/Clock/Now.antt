-- ===== src/AppleMidi/Clock/Now.antt =====
-- The time on the clock of the driver, which is the global clock.
use cmidid_kerneldriver.Base.{
  ℕ, Bool, true, [], ◌∷◌, ◌++◌, none, some, ◌+◌, ◌-◌, ◌*◌, ◌/◌, ◌%◌, ◌^◌, ◌<◌, ◌≤◌, ◌≡◌, refl, ap,
  arith, length, set-snoc, get_elem?-snoc,
}
use cmidid_kerneldriver.AppleMidi.Clock.{
  Clock, Clocks, create_clock, provide_clock, retain_clock, get_now_at, multiply_frac, divide_frac,
  divide_primes, divide_loop, normalize_frac, normalize_primes, normalize_loop, real_time,
  get_global_clock, get_now,
}

-- The clock of 10000 ticks per second: one tick is 100000 nanoseconds.
abbrev ticking : ℕ → ℕ → Clock
ticking refs t = record {
  refs = refs;
  offset = (2 ^ 64 - t * 1 % 2 ^ 64 / 100000) % 2 ^ 64;
  rate = 10000;
  frac = record { numer = 1; denom = 100000 };
}

create_ticking : (t : ℕ) → create_clock true 10000 t ≡ some (ticking 1 t)
unfolding create_clock multiply_frac divide_frac divide_primes divide_loop normalize_frac
    normalize_primes normalize_loop real_time
create_ticking t = refl

module _ (s : Clocks) (t : ℕ) where
  abbrev provided : ℕ → Clocks
  provided refs = record {
    heap = s.heap ++ some (ticking refs t) ∷ [];
    global = some (length s.heap);
  }

  retain-provided : retain_clock (provided 1) (length s.heap) ≡ provided 2
  unfolding retain_clock
  retain-provided =
      rw
        (
          get_elem?-snoc s.heap (some (ticking 1 t)),
          set-snoc s.heap (some (ticking 1 t)) (some (ticking 2 t)),
        )
        refl

get_now-ticking :
    (t t' : ℕ) → t ≤ t' → t' < 2 ^ 64 → get_now (ticking 2 t) t' ≡ some (t' / 100000 - t / 100000)
unfolding get_now real_time
get_now-ticking t t' l m =
    let e : (t' * 1 % 18446744073709551616 / 100000
            + (18446744073709551616 - t * 1 % 18446744073709551616 / 100000) % 18446744073709551616)
          % 18446744073709551616
        ≡ t' / 100000 - t / 100000 =
      omega arith in
    ap some e

-- The first driver that asks for a clock, at the time `t`, makes the global clock; from then on that
-- clock, and the global clock for a caller that passes NULL, tell the number of whole tenths of a
-- millisecond since the boot less that at `t`, so that they start at 0. The conditions: there is memory for it, and the time has
-- 64 bits and does not go back.
pub get_now-provide_clock :
    (s : Clocks) (t t' made : ℕ) (memory : Bool)
    → s.global ≡ none
    → t ≤ t'
    → t' < 2 ^ 64
    → let h = length s.heap in
      let ticks = t' / 100000 - t / 100000 in
      (s' : Clocks) × (provide_clock true 10000 t s ≡ some (h, s'))
      × (get_now_at (some h) memory made t' s' ≡ some (ticks, s'))
      × (get_now_at none memory made t' s' ≡ some (ticks, s'))
unfolding provide_clock get_now_at get_global_clock
get_now-provide_clock s t t' made memory none_yet l m =
    let tells : get_now_at (some (length s.heap)) memory made t' (provided s t 2)
        ≡ some (t' / 100000 - t / 100000, provided s t 2) =
      rw (get_elem?-snoc s.heap (some (ticking 2 t)), get_now-ticking t t' l m) refl in
    (provided s t 2, rw (none_yet, create_ticking t, retain-provided s t) refl, tells, tells)
