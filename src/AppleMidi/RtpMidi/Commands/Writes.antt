-- ===== src/AppleMidi/RtpMidi/Commands/Writes.antt =====
-- What a write at a cursor does to the buffer.
use cmidid_kerneldriver.Base.{
  ℕ, zero, suc, List, [], ◌∷◌, ◌++◌, some, ◌+◌, ◌^◌, ◌<◌, ◌≤◌, ◌≡◌, refl, sym, ap, ◌∙◌, arith,
  length, length-set, length-append, set, take, append_assoc, append-nil,
}
use cmidid_kerneldriver.AppleMidi.RtpMidi.{Cursor, write_bytes, put, advance}

take-set : (xs : List ℕ) (i b : ℕ) → i < length xs → take (i + 1) (set xs i b) ≡ take i xs ++ b ∷ []
take-set [] i b l = absurd (omega arith)
take-set (x ∷ xs) zero b l = refl
take-set (x ∷ xs) (suc i) b l =
    let e : suc i + 1 ≡ suc (i + 1) = omega arith in
    rw e (ap (x ∷◌) (take-set xs i b (omega arith)))

length-write_bytes : (bytes xs : List ℕ) (i : ℕ) → length (write_bytes xs i bytes) ≡ length xs
unfolding write_bytes
length-write_bytes [] xs i = refl
length-write_bytes (b ∷ bytes) xs i =
    length-write_bytes bytes (set xs i b) (i + 1) ∙ length-set xs i b

pub take-write_bytes :
    (bytes xs : List ℕ) (i : ℕ)
    → i + length bytes ≤ length xs
    → take (i + length bytes) (write_bytes xs i bytes) ≡ take i xs ++ bytes
unfolding write_bytes
take-write_bytes [] xs i l = let e : i + 0 ≡ i = omega arith in rw e (sym (append-nil (take i xs)))
take-write_bytes (b ∷ bytes) xs i l =
    let e : i + 1 + length bytes ≡ i + suc (length bytes) = omega arith in
    let len = length-set xs i b in
    let step = take-write_bytes bytes (set xs i b) (i + 1) (omega (arith, len)) in
    (rw e at step)
    ∙ ap (λ zs. zs ++ bytes) (take-set xs i b (omega arith))
    ∙ append_assoc (take i xs) (b ∷ []) bytes

-- The second cursor is the first after the bytes are written.
pub record Appends (c c' : Cursor) (bytes : List ℕ) : Type 0 where
  pub moved : c'.position ≡ c.position + length bytes
  pub shrunk : c'.size + length bytes ≡ c.size
  pub wrote : take c'.position c'.buffer ≡ take c.position c.buffer ++ bytes
  pub kept : length c'.buffer ≡ length c.buffer

-- The size that is left is in the buffer.
pub record IsHeld (c : Cursor) : Type 0 where
  pub word : c.size < 2 ^ 32
  pub inside : c.position + c.size ≤ length c.buffer

pub Appends-put :
    (c : Cursor) (bytes : List ℕ)
    → IsHeld c
    → length bytes ≤ c.size
    → Appends c (advance (put c (some bytes))) bytes
Appends-put c bytes held l = record {
  moved = refl;
  shrunk = omega (arith, held.word);
  wrote = take-write_bytes bytes c.buffer c.position (omega (arith, held.inside));
  kept = length-write_bytes bytes c.buffer c.position;
}

pub Appends-refl : (c : Cursor) → Appends c c []
Appends-refl c = record {
  moved = omega arith;
  shrunk = omega arith;
  wrote = sym (append-nil (take c.position c.buffer));
  kept = refl;
}

pub Appends-trans :
    (c c' c'' : Cursor) (xs ys : List ℕ)
    → Appends c c' xs
    → Appends c' c'' ys
    → Appends c c'' (xs ++ ys)
Appends-trans c c' c'' xs ys a b =
    let l = length-append xs ys in
    record {
      moved = omega (arith, a.moved, b.moved, l);
      shrunk = omega (arith, a.shrunk, b.shrunk, l);
      wrote = b.wrote ∙ ap (λ zs. zs ++ ys) a.wrote ∙ append_assoc (take c.position c.buffer) xs ys;
      kept = b.kept ∙ a.kept;
    }

pub IsHeld-Appends : (c c' : Cursor) (bytes : List ℕ) → IsHeld c → Appends c c' bytes → IsHeld c'
IsHeld-Appends c c' bytes held a = record {
  word = omega (arith, held.word, a.shrunk);
  inside = omega (arith, held.inside, a.shrunk, a.moved, a.kept);
}
