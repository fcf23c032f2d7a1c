-- ===== src/AppleMidi/RtpMidi/CommandSection.antt =====
-- The header of the MIDI command section against a reader of the format that RFC 6295 gives.
use cmidid_kerneldriver.Base.{
  ℕ, Bool, List, [], ◌∷◌, ◌++◌, none, some, ◌+◌, ◌*◌, ◌/◌, ◌%◌, ◌^◌, ◌<◌, ◌≤◌, ◌≡◌, refl, ◌==◌, ltb,
  if◌then◌else◌, get_or, drop, length, arith, Bool-cases, inl, inr, ◌⊎◌,
}
use cmidid_kerneldriver.Base.Flags.{flag, is_set, flag-bit}
use cmidid_kerneldriver.AppleMidi.RtpMidi.{MidiInfo, encode_header}

-- The flags J, Z and P, the length of the list of commands, and what follows.
pub record Section : Type 0 where
  pub has_journal : Bool
  pub has_zero : Bool
  pub has_phantom : Bool
  pub len : ℕ
  pub rest : List ℕ

pub read_section : List ℕ → Section
read_section bytes =
    let b = get_or bytes 0 0 in
    let long = b / 128 == 1 in
    record {
      has_journal = b / 64 % 2 == 1;
      has_zero = b / 32 % 2 == 1;
      has_phantom = b / 16 % 2 == 1;
      len = if long then b % 16 * 256 + get_or bytes 1 0 else b % 16;
      rest = if long then drop 2 bytes else drop 1 bytes;
    }

top_bit : (top : ℕ) → (top ≡ 0) ⊎ (top ≡ 128) → (y : ℕ) × (y ≤ 1) × (top ≡ 128 * y)
top_bit top (inl e) = (0, omega arith, omega arith)
top_bit top (inr e) = (1, omega arith, omega arith)

-- A byte whose flags are given.
section_byte :
    (j z p l top b : ℕ)
    → l < 16
    → (top ≡ 0) ⊎ (top ≡ 128)
    → b ≡ top + (flag j 0x40 + flag z 0x20 + flag p 0x10) + l
    → (b / 128 ≡ top / 128)
      × ((b / 64 % 2 == 1) ≡ is_set j)
      × ((b / 32 % 2 == 1) ≡ is_set z)
      × ((b / 16 % 2 == 1) ≡ is_set p)
      × (b % 16 ≡ l)
section_byte j z p l top b h t e =
    let (u, hu, eu, su) = flag-bit j 0x40 in
    let (v, hv, ev, sv) = flag-bit z 0x20 in
    let (w, hw, ew, sw) = flag-bit p 0x10 in
    let (y, hy, ty) = top_bit top t in
    let bu : b / 64 % 2 ≡ u = omega arith in
    let bv : b / 32 % 2 ≡ v = omega arith in
    let bw : b / 16 % 2 ≡ w = omega arith in
    (omega arith, rw bu su, rw bv sv, rw bw sw, omega arith)

-- What the members of the info stand for.
pub section : MidiInfo → List ℕ → Section
section info rest = record {
  has_journal = is_set info.journal;
  has_zero = is_set info.zero_delta;
  has_phantom = is_set info.phantom;
  len = info.len;
  rest = rest;
}

abbrev pub section_size : ℕ → ℕ
section_size len = if ltb 15 len then 2 else 1

abbrev flags : MidiInfo → ℕ
flags info = flag info.journal 0x40 + flag info.zero_delta 0x20 + flag info.phantom 0x10

abbrev long_bytes : MidiInfo → List ℕ
long_bytes info = (0x80 + flags info + info.len / 2 ^ 8 % 2 ^ 4) ∷ info.len % 2 ^ 8 ∷ []

abbrev short_bytes : MidiInfo → List ℕ
short_bytes info = (flags info + info.len % 2 ^ 4) ∷ []

long_section :
    (info : MidiInfo) (rest : List ℕ)
    → 15 < info.len
    → info.len < 2 ^ 12
    → read_section (long_bytes info ++ rest) ≡ section info rest
unfolding read_section section
long_section info rest lo hi =
    let (top, j, z, p, l) =
      section_byte info.journal info.zero_delta info.phantom (info.len / 2 ^ 8 % 2 ^ 4) 128 _
        (omega arith) (inr refl) refl in
    let len : info.len / 2 ^ 8 % 2 ^ 4 * 256 + info.len % 2 ^ 8 ≡ info.len = omega arith in
    rw (top, j, z, p, l, len) refl

short_section :
    (info : MidiInfo) (rest : List ℕ)
    → info.len < 16
    → read_section (short_bytes info ++ rest) ≡ section info rest
unfolding read_section section
short_section info rest hi =
    let b = flags info + info.len % 2 ^ 4 in
    let (top, j, z, p, l) =
      section_byte info.journal info.zero_delta info.phantom (info.len % 2 ^ 4) 0 b (omega arith)
        (inl refl) (omega arith) in
    let len : info.len % 2 ^ 4 ≡ info.len = omega arith in rw (top, j, z, p, l, len) refl

-- The header is refused if the length does not fit in 12 bits, or if the buffer is too small, two
-- bytes being needed for a length above 15. Else it is that one byte or these two bytes, from
-- which and whatever follows a reader of the format takes the members of the info.
pub read_section-encode_header :
    (info : MidiInfo) (size : ℕ) (rest : List ℕ)
    → (2 ^ 12 ≤ info.len → encode_header info size ≡ none)
      × (size < section_size info.len → encode_header info size ≡ none)
      × (info.len < 2 ^ 12
          → section_size info.len ≤ size
          → (bytes : List ℕ) × (encode_header info size ≡ some bytes)
            × (length bytes ≡ section_size info.len)
            × (read_section (bytes ++ rest) ≡ section info rest))
unfolding encode_header
read_section-encode_header info size rest = (
  λ l. ground arith,
  λ l. ground arith,
  λ l room. elim (Bool-cases (ltb 15 info.len)) [
    | inl e ↦ (long_bytes info, ground arith, rw e refl, long_section info rest (ground arith) l)
    | inr e ↦ (short_bytes info, ground arith, rw e refl, short_section info rest (ground arith))
  ],
)
