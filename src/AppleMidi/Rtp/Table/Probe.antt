-- ===== src/AppleMidi/Rtp/Table/Probe.antt =====
-- What the probe of a table finds.
use cmidid_kerneldriver.Base.{
  ℕ, zero, suc, Bool, true, false, Option, none, some, ◌+◌, ◌-◌, ◌%◌, ◌<◌, ◌≡◌, arith,
}
use cmidid_kerneldriver.AppleMidi.Rtp.Table.{Slots, slot, probe}

module _ (test : Option ℕ → Bool) (slots : Slots) (off : ℕ) where
  pub probe-some :
      (left i p : ℕ)
      → probe test slots off left i ≡ some p
      → (p < 16) × (test (slot slots p) ≡ true)
  unfolding probe
  probe-some zero i p e = absurd (cc)
  probe-some (suc left) i p e =
      let b : (i + off) % 16 < 16 = omega arith in ground (arith, probe-some left (i + 1) p)

  probe-none :
      (left i : ℕ)
      → probe test slots off left i ≡ none
      → (j : ℕ) → j < left
      → test (slot slots ((i + j + off) % 16)) ≡ false
  unfolding probe
  probe-none zero i e j h = absurd (omega arith)
  probe-none (suc left) i e zero h =
      let z : i + 0 + off ≡ i + off = omega arith in rw z (ground arith)
  probe-none (suc left) i e (suc j) h =
      let z : i + suc j + off ≡ i + 1 + j + off = omega arith in
      rw z (ground (arith, probe-none left (i + 1) _ j))

  -- The probe passes over a slot only if the test fails there.
  pub probe_full : probe test slots off 16 0 ≡ none → (p : ℕ) → p < 16 → test (slot slots p) ≡ false
  probe_full e p h =
      let z : (0 + (p + 16 - off % 16) % 16 + off) % 16 ≡ p = omega arith in
      rw z at (probe-none 16 0 e ((p + 16 - off % 16) % 16) (omega arith))
