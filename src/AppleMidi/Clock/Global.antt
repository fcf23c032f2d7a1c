-- ===== src/AppleMidi/Clock/Global.antt =====
-- The global clock: who provides it and who releases it.
use cmidid_kerneldriver.Base.{
  ℕ, Bool, true, false, Option, none, some, ◌+◌, ◌%◌, ◌^◌, ◌<◌, ◌≡◌, refl, ◌==◌, get_elem?, set,
  set-set, set-get_elem?, get_elem?-set_self, lt-length, arith, ap,
}
use cmidid_kerneldriver.AppleMidi.Clock.{
  Clock, Clocks, at_block, get_clock, retain_clock, release_clock, provide_clock,
}

at_block-some : (o : Option (Option Clock)) (c : Clock) → at_block o ≡ some c → o ≡ some (some c)
at_block-some none c e = absurd (cc)
at_block-some (some none) c e = absurd (cc)
at_block-some (some (some d)) c e = ap some e

module _ (s : Clocks) (h : ℕ) (c : Clock) (live : get_clock s h ≡ some c) where
  abbrev more : Option Clock
  more = some (record c { refs = (c.refs + 1) % 2 ^ 32 })

  block : get_elem? s.heap h ≡ some (some c)
  block = at_block-some (get_elem? s.heap h) c live

  retained_clock : retain_clock s h ≡ record s { heap = set s.heap h more }
  unfolding retain_clock
  retained_clock = rw live refl

  release_clock-retain_clock :
      0 < c.refs → c.refs + 1 < 2 ^ 32 → release_clock (retain_clock s h) h ≡ s
  unfolding release_clock
  release_clock-retain_clock pos small =
      let read = get_elem?-set_self s.heap h more (lt-length s.heap h (some c) block) in
      let r : ((c.refs + 1) % 4294967296 + 4294967295) % 4294967296 ≡ c.refs = omega arith in
      let n : (c.refs == 0) ≡ false = ground arith in
      let again = set-set s.heap h more (some c) in
      rw (retained_clock, read, r, n, again, set-get_elem? s.heap h (some c) block) refl

-- Once there is a global clock, a client that asks for its rate gets it, and giving it back leaves
-- all clocks as they were, so that the global clock is never freed, if it is allocated and retained
-- at least once and less than 2^32 - 1 times.
pub release_clock-provide_clock :
    (s : Clocks) (g t : ℕ) (c : Clock) (memory : Bool)
    → s.global ≡ some g
    → get_clock s g ≡ some c
    → 0 < c.refs
    → c.refs + 1 < 2 ^ 32
    → (s' : Clocks) × (provide_clock memory c.rate t s ≡ some (g, s')) × (release_clock s' g ≡ s)
unfolding provide_clock
release_clock-provide_clock s g t c memory global live pos small =
    let same : (c.rate == c.rate) ≡ true = ground arith in
    (
      retain_clock s g,
      rw (global, live, same) refl,
      release_clock-retain_clock s g c live pos small,
    )
