-- ===== src/AppleMidi/RtpMidi/VarLen.antt =====
-- Numbers of variable length against a reader of the format.
use cmidid_kerneldriver.Base.{
  ℕ, true, false, List, [], ◌∷◌, ◌++◌, Option, none, some, ◌+◌, ◌*◌, ◌/◌, ◌%◌, ◌^◌, ◌<◌, ◌≤◌, ◌≡◌,
  refl, ◌∙◌, ◌==◌, ltb, if◌then◌else◌, length, arith, inl, inr, ◌⊎◌,
}
use cmidid_kerneldriver.Base.Bits.{bit_or_top, bit_or_zero}
use cmidid_kerneldriver.AppleMidi.RtpMidi.{var_len_loop, write_var_len}

-- The reader: seven bits of each byte, up to a byte below 128.
pub read_var_len : ℕ → List ℕ → Option (ℕ × List ℕ)
read_var_len acc [] = none
read_var_len acc (b ∷ bytes) =
    let rest = read_var_len (acc * 128 + b % 128) bytes in
    if ltb b 128 then some (acc * 128 + b % 128, bytes) else rest

-- The bytes of a number below 2^28.
pub var_len : ℕ → List ℕ
var_len v =
    if ltb v 128
    then v ∷ []
    else if ltb v 16384
    then (128 + v / 128) ∷ v % 128 ∷ []
    else if ltb v 2097152
    then (128 + v / 16384) ∷ (128 + v / 128 % 128) ∷ v % 128 ∷ []
    else (128 + v / 2097152) ∷ (128 + v / 16384 % 128) ∷ (128 + v / 128 % 128) ∷ v % 128 ∷ []

var_len-cases :
    (v : ℕ) → (v < 128) ⊎ ((128 ≤ v) × (v < 16384)) ⊎ ((16384 ≤ v) × (v < 2097152)) ⊎ (2097152 ≤ v)
var_len-cases v = ground arith

write_var_len-var_len :
    (v size : ℕ)
    → v < 2 ^ 28
    → write_var_len v size ≡ (if ltb size (length (var_len v)) then none else some (var_len v))
unfolding write_var_len var_len_loop var_len
write_var_len-var_len v size l =
    let m : v % 268435456 ≡ v = omega arith in
    let z = bit_or_zero (v % 128) (omega arith) in
    let t1 = bit_or_top (v / 128 % 128) (omega arith) in
    let t2 = bit_or_top (v / 16384 % 128) (omega arith) in
    let t3 = bit_or_top (v / 2097152 % 128) (omega arith) in
    let d2 : v / 128 / 128 ≡ v / 16384 = omega arith in
    let d3 : v / 16384 / 128 ≡ v / 2097152 = omega arith in
    elim (var_len-cases v) [
      | inl h ↦
          let a1 : ltb v 128 ≡ true = ground arith in
          let q1 : (v / 128 == 0) ≡ true = ground arith in
          let r : v % 128 ≡ v = omega arith in rw (m, a1, q1, z, r) refl
      | inr (inl (g, h)) ↦
          let a1 : ltb v 128 ≡ false = ground arith in
          let a2 : ltb v 16384 ≡ true = ground arith in
          let q1 : (v / 128 == 0) ≡ false = ground arith in
          let q2 : (v / 16384 == 0) ≡ true = ground arith in
          let r : v / 128 % 128 ≡ v / 128 = omega arith in rw (m, a1, a2, d2, q1, q2, z, t1, r) refl
      | inr (inr (inl (g, h))) ↦
          let a1 : ltb v 128 ≡ false = ground arith in
          let a2 : ltb v 16384 ≡ false = ground arith in
          let a3 : ltb v 2097152 ≡ true = ground arith in
          let q1 : (v / 128 == 0) ≡ false = ground arith in
          let q2 : (v / 16384 == 0) ≡ false = ground arith in
          let q3 : (v / 2097152 == 0) ≡ true = ground arith in
          let r : v / 16384 % 128 ≡ v / 16384 = omega arith in
          rw (m, a1, a2, a3, d2, d3, q1, q2, q3, z, t1, t2, r) refl
      | inr (inr (inr g)) ↦
          let a1 : ltb v 128 ≡ false = ground arith in
          let a2 : ltb v 16384 ≡ false = ground arith in
          let a3 : ltb v 2097152 ≡ false = ground arith in
          let q1 : (v / 128 == 0) ≡ false = ground arith in
          let q2 : (v / 16384 == 0) ≡ false = ground arith in
          let q3 : (v / 2097152 == 0) ≡ false = ground arith in
          let r : v / 2097152 % 128 ≡ v / 2097152 = omega arith in
          rw (m, a1, a2, a3, d2, d3, q1, q2, q3, z, t1, t2, t3, r) (ground arith)
    ]

pub write_var_len-fits :
    (v size : ℕ) → v < 2 ^ 28 → length (var_len v) ≤ size → write_var_len v size ≡ some (var_len v)
write_var_len-fits v size l fit =
    let f : ltb size (length (var_len v)) ≡ false = ground arith in
    rw (write_var_len-var_len v size l, f) refl

read_last :
    (acc b v : ℕ) (rest : List ℕ)
    → b < 128
    → acc * 128 + b ≡ v
    → read_var_len acc (b ∷ rest) ≡ some (v, rest)
unfolding read_var_len
read_last acc b v rest l e =
    let m : b % 128 ≡ b = omega arith in
    let t : ltb b 128 ≡ true = ground arith in rw (t, m, e) refl

read_more :
    (acc b a : ℕ) (rest : List ℕ)
    → b < 128
    → acc * 128 + b ≡ a
    → read_var_len acc ((128 + b) ∷ rest) ≡ read_var_len a rest
unfolding read_var_len
read_more acc b a rest l e =
    let m : (128 + b) % 128 ≡ b = omega arith in
    let t : ltb (128 + b) 128 ≡ false = ground arith in rw (t, m, e) refl

pub read_var_len-var_len :
    (v : ℕ) (rest : List ℕ) → v < 2 ^ 28 → read_var_len 0 (var_len v ++ rest) ≡ some (v, rest)
unfolding var_len
read_var_len-var_len v rest l = elim (var_len-cases v) [
  | inl h ↦
      let a1 : ltb v 128 ≡ true = ground arith in
      rw a1 (read_last 0 v v rest (omega arith) (omega arith))
  | inr (inl (g, h)) ↦
      let a1 : ltb v 128 ≡ false = ground arith in
      let a2 : ltb v 16384 ≡ true = ground arith in
      rw (a1, a2)
        (read_more 0 (v / 128) (v / 128) _ (omega arith) (omega arith)
          ∙ read_last _ (v % 128) v rest (omega arith) (omega arith))
  | inr (inr (inl (g, h))) ↦
      let a1 : ltb v 128 ≡ false = ground arith in
      let a2 : ltb v 16384 ≡ false = ground arith in
      let a3 : ltb v 2097152 ≡ true = ground arith in
      rw (a1, a2, a3)
        (read_more 0 (v / 16384) (v / 16384) _ (omega arith) (omega arith)
          ∙ read_more _ (v / 128 % 128) (v / 128) _ (omega arith) (omega arith)
          ∙ read_last _ (v % 128) v rest (omega arith) (omega arith))
  | inr (inr (inr g)) ↦
      let a1 : ltb v 128 ≡ false = ground arith in
      let a2 : ltb v 16384 ≡ false = ground arith in
      let a3 : ltb v 2097152 ≡ false = ground arith in
      rw (a1, a2, a3)
        (read_more 0 (v / 2097152) (v / 2097152) _ (omega arith) (omega arith)
          ∙ read_more _ (v / 16384 % 128) (v / 16384) _ (omega arith) (omega arith)
          ∙ read_more _ (v / 128 % 128) (v / 128) _ (omega arith) (omega arith)
          ∙ read_last _ (v % 128) v rest (omega arith) (omega arith))
]

pub length-var_len : (v : ℕ) → (1 ≤ length (var_len v)) × (length (var_len v) ≤ 4)
unfolding var_len
length-var_len v = ground arith

-- A number below 2^28 is written, where four bytes are free, to one to four bytes, from which and
-- whatever follows the reader of the format takes the number and leaves the rest.
pub read_var_len-write_var_len :
    (v size : ℕ)
    → v < 2 ^ 28
    → 4 ≤ size
    → (rest : List ℕ)
    → (bytes : List ℕ) × (write_var_len v size ≡ some bytes)
      × (1 ≤ length bytes)
      × (length bytes ≤ 4)
      × (read_var_len 0 (bytes ++ rest) ≡ some (v, rest))
read_var_len-write_var_len v size l room rest =
    let (lo, hi) = length-var_len v in
    (var_len v, write_var_len-fits v size l (omega arith), lo, hi, read_var_len-var_len v rest l)
