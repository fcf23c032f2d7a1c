-- ===== src/Tests/Clock.antt =====
-- A clock of 10000 ticks a second, applemidi/clock.c.
use cmidid_kerneldriver.Base.{ℕ, true, false, [], ◌∷◌, none, some, ◌≡◌, refl, ◌*◌, ◌<◌, arith}
use cmidid_kerneldriver.AppleMidi.Clock.{
  Frac, Clock, Clocks, divide_frac, provide_clock, release_clock, get_now_at,
}
use cmidid_kerneldriver.AppleMidi.Clock.Fractions.{divide_frac_lem}
use cmidid_kerneldriver.AppleMidi.Clock.Now.{get_now-provide_clock}
use cmidid_kerneldriver.AppleMidi.Clock.Global.{release_clock-provide_clock}

abbrev nanoseconds : Frac
nanoseconds = record { numer = 1000000000; denom = 1 }

divide_frac_example :
    (f : Frac) × (divide_frac nanoseconds 10000 ≡ some f)
    × ((g : ℕ) × (0 < g) × (1000000000 ≡ g * f.numer) × (1 * 10000 ≡ g * f.denom))
divide_frac_example = divide_frac_lem nanoseconds 10000 (omega arith) (omega arith) (omega arith)

abbrev ticking : Clock
ticking = record { refs = 2; offset = 0; rate = 10000; frac = record { numer = 1; denom = 100000 } }

abbrev clocks : Clocks
clocks = record { heap = some ticking ∷ []; global = some 0 }

release_clock-provide_clock_example :
    (s : Clocks) × (provide_clock true 10000 7 clocks ≡ some (0, s)) × (release_clock s 0 ≡ clocks)
release_clock-provide_clock_example =
    release_clock-provide_clock clocks 0 7 ticking true refl refl (omega arith) (omega arith)

abbrev no_clocks : Clocks
no_clocks = record { heap = []; global = none }

get_now-provide_clock_example :
    (s : Clocks) × (provide_clock true 10000 750000 no_clocks ≡ some (0, s))
    × (get_now_at (some 0) false 0 1300000 s ≡ some (6, s))
    × (get_now_at none false 0 1300000 s ≡ some (6, s))
get_now-provide_clock_example =
    get_now-provide_clock no_clocks 750000 1300000 0 false refl (omega arith) (omega arith)
