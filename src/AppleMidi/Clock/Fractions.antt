-- ===== src/AppleMidi/Clock/Fractions.antt =====
-- Dividing a fraction by a factor: the loops end, and the value is right.
use cmidid_kerneldriver.Base.{
  ℕ, zero, suc, List, [], ◌∷◌, none, some, ◌*◌, ◌/◌, ◌%◌, ◌^◌, ◌<◌, ◌≤◌, ◌≡◌, refl, ◌==◌, ==_iff,
  Bool-cases, inl, inr, arith, sym, ◌∙◌, ap, subst, All,
}
use cmidid_kerneldriver.AppleMidi.Clock.{
  Frac, divide_step, divide_loop, primes, divide_primes, divide_frac,
}

-- The second fraction with the second factor is the first with the first, cancelled by `g`.
pub record Cancels (f f' : Frac) (fac fac' : ℕ) : Type 0 where
  pub by : ℕ
  pub positive : 0 < by
  pub numer : f.numer ≡ by * f'.numer
  pub denom : f.denom * fac ≡ by * (f'.denom * fac')

assoc_swap : (d p r : ℕ) → d * (p * r) ≡ p * (d * r)
assoc_swap d p r = grind arith

assoc_left : (d p r : ℕ) → d * (p * r) ≡ (d * p) * r
assoc_left d p r = grind arith

grows : (a r : ℕ) → 0 < r → a ≤ a * r
grows a zero pos = elim pos [ ]
grows a (suc r) pos = grind arith

whole : (n p : ℕ) → n % p ≡ 0 → n ≡ p * (n / p)
whole n p e = grind arith

step-Cancels :
    (p r : ℕ) (f : Frac)
    → 0 < r
    → 2 ≤ p
    → f.denom * (p * r) < 2 ^ 64
    → Cancels f (divide_step p f) (p * r) r
step-Cancels p r f pos two small = elim (Bool-cases (f.numer % p == 0)) [
  | inl e ↦ rw e (record {
    by = p;
    positive = omega arith;
    numer = whole f.numer p ((==_iff (f.numer % p) 0).0 e);
    denom = assoc_swap f.denom p r;
  })
  | inr e ↦
      let l = assoc_left f.denom p r in
      let g = grows (f.denom * p) r pos in
      let kept : f.denom * p % 2 ^ 64 ≡ f.denom * p = omega arith in
      rw (e, kept)
        (record { by = 1; positive = omega arith; numer = omega arith; denom = omega arith })
]

grows_left : (g a : ℕ) → 0 < g → a ≤ g * a
grows_left zero a pos = elim pos [ ]
grows_left (suc g) a pos = grind arith

Cancels-refl : (f : Frac) (fac : ℕ) → Cancels f f fac fac
Cancels-refl f fac = record {
  by = 1;
  positive = omega arith;
  numer = omega arith;
  denom = omega arith;
}

assoc_four : (g h a : ℕ) → g * (h * a) ≡ (g * h) * a
assoc_four g h a = grind arith

product_positive : (g h : ℕ) → 0 < g → 0 < h → 0 < g * h
product_positive g h a b = grind arith

Cancels-trans :
    (f f' f'' : Frac) (a b c : ℕ) → Cancels f f' a b → Cancels f' f'' b c → Cancels f f'' a c
Cancels-trans f f' f'' a b c u v = record {
  by = u.by * v.by;
  positive = product_positive u.by v.by u.positive v.positive;
  numer = u.numer ∙ (ap (λ n. u.by * n) v.numer ∙ assoc_four u.by v.by f''.numer);
  denom = u.denom ∙ (ap (λ n. u.by * n) v.denom ∙ assoc_four u.by v.by (f''.denom * c));
}

-- A fraction whose denominator has room for the factor keeps room for what is left of it.
Cancels-small :
    (f f' : Frac) (a b : ℕ) → Cancels f f' a b → f.denom * a < 2 ^ 64 → f'.denom * b < 2 ^ 64
Cancels-small f f' a b u small =
    let g = grows_left u.by (f'.denom * b) u.positive in omega (arith, u.denom)

-- 2 ^ k.
limit : ℕ → ℕ
limit zero = 1
limit (suc k) = 2 * limit k

twice : (p r : ℕ) → 2 ≤ p → 2 * r ≤ p * r
twice p r two = grind arith

positive_part : (p r : ℕ) → 0 < p * r → 0 < r
positive_part p zero pos = grind arith
positive_part p (suc r) pos = omega arith

divide_loop-Cancels :
    (fuel p : ℕ) (f : Frac) (fac : ℕ)
    → 2 ≤ p
    → 0 < fac
    → fac < limit fuel
    → f.denom * fac < 2 ^ 64
    → (f' : Frac) × (fac' : ℕ) × (divide_loop fuel p f fac ≡ some (f', fac'))
      × Cancels f f' fac fac'
      × (0 < fac')
      × (fac' ≤ fac)
unfolding divide_loop limit
divide_loop-Cancels zero p f fac two pos below small = absurd (omega arith)
divide_loop-Cancels (suc fuel) p f fac two pos below small = elim (Bool-cases (fac % p == 0)) [
  | inl e ↦
      let r = fac / p in
      let split = whole fac p ((==_iff (fac % p) 0).0 e) in
      let r_pos = positive_part p r (omega (arith, split)) in
      let half = twice p r two in
      let room : f.denom * (p * r) < 2 ^ 64 = subst (λ a. f.denom * a < 2 ^ 64) split small in
      let first =
        subst (λ a. Cancels f (divide_step p f) a r) (sym split)
          (step-Cancels p r f r_pos two room) in
      let small' = Cancels-small f (divide_step p f) fac r first small in
      let (f', fac', run, later, left, less) =
        divide_loop-Cancels fuel p (divide_step p f) r two r_pos (omega (arith, split)) small' in
      (
        f',
        fac',
        rw e run,
        Cancels-trans f (divide_step p f) f' fac r fac' first later,
        left,
        omega (arith, split),
      )
  | inr e ↦ (f, fac, rw e refl, Cancels-refl f fac, pos, omega arith)
]

limit_64 : limit 64 ≡ 2 ^ 64
unfolding limit
limit_64 = refl

divide_primes-Cancels :
    (ps : List ℕ)
    → All (λ p. 2 ≤ p) ps
    → (f : Frac) (fac : ℕ) → 0 < fac
    → fac < 2 ^ 64
    → f.denom * fac < 2 ^ 64
    → (f' : Frac) × (fac' : ℕ) × (divide_primes 64 ps f fac ≡ some (f', fac'))
      × Cancels f f' fac fac'
unfolding divide_primes
divide_primes-Cancels [] two f fac pos below small = (f, fac, refl, Cancels-refl f fac)
divide_primes-Cancels (p ∷ ps) (two, twos) f fac pos below small =
    let (f₁, fac₁, run, first, left, less) =
      divide_loop-Cancels 64 p f fac two pos (subst (λ l. fac < l) (sym limit_64) below) small in
    let (f₂, fac₂, run', later) =
      divide_primes-Cancels ps twos f₁ fac₁ left (omega arith)
        (Cancels-small f f₁ fac fac₁ first small) in
    (f₂, fac₂, rw (run, run') refl, Cancels-trans f f₁ f₂ fac fac₁ fac₂ first later)

primes_two : All (λ p. 2 ≤ p) primes
primes_two = ground arith

-- `_divide_frac` ends for every factor but 0, with 64 passes of each of its loops being enough, and
-- gives the fraction divided by the factor, cancelled by a common divisor, if the denominator times
-- the factor stays below 2^64.
pub divide_frac_lem :
    (f : Frac) (fac : ℕ)
    → 0 < fac
    → fac < 2 ^ 64
    → f.denom * fac < 2 ^ 64
    → (f' : Frac) × (divide_frac f fac ≡ some f')
      × ((g : ℕ) × (0 < g) × (f.numer ≡ g * f'.numer) × (f.denom * fac ≡ g * f'.denom))
unfolding divide_frac
divide_frac_lem f fac pos below small =
    let (f', fac', run, c) = divide_primes-Cancels primes primes_two f fac pos below small in
    let kept : f'.denom * fac' % 2 ^ 64 ≡ f'.denom * fac' =
      omega (arith, Cancels-small f f' fac fac' c small) in
    (
      record f' { denom = f'.denom * fac' % 2 ^ 64 },
      rw run refl,
      (c.by, c.positive, c.numer, rw kept c.denom),
    )

divide_loop_zero : (fuel : ℕ) (f : Frac) → divide_loop fuel 7 f 0 ≡ none
unfolding divide_loop
divide_loop_zero zero f = refl
divide_loop_zero (suc fuel) f = divide_loop_zero fuel (divide_step 7 f)

-- With the factor 0 no number of passes is enough: the loop on the first prime does not end.
pub divide_primes_zero : (fuel : ℕ) (f : Frac) → divide_primes fuel primes f 0 ≡ none
unfolding divide_primes
divide_primes_zero fuel f = rw (divide_loop_zero fuel f) refl
