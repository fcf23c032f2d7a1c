-- ===== src/AppleMidi/Rtp/Packet/Header.antt =====
-- The RTP header against a reader of the format that RFC 3550 gives.
use cmidid_kerneldriver.Base.{
  ℕ, zero, suc, Bool, List, [], ◌∷◌, ◌++◌, none, some, ◌+◌, ◌*◌, ◌/◌, ◌%◌, ◌^◌, ◌≡◌, refl, ◌<◌, ◌≤◌,
  ◌==◌, length, get_or, take, drop, All, arith,
}
use cmidid_kerneldriver.Base.Flags.{flag, is_set, flag-bit}
use cmidid_kerneldriver.AppleMidi.Rtp.Packet.{PacketInfo, csrc_bytes, header_bytes, encode_header}

-- The fields of a header and what follows it.
pub record Header : Type 0 where
  pub version : ℕ
  pub has_padding : Bool
  pub has_extension : Bool
  pub marked : Bool
  pub payload_type : ℕ
  pub sequence : ℕ
  pub timestamp : ℕ
  pub ssrc : ℕ
  pub csrc : List ℕ
  pub rest : List ℕ

abbrev pub be16 : ℕ → ℕ → ℕ
be16 a b = a * 2 ^ 8 + b

abbrev pub be32 : ℕ → ℕ → ℕ → ℕ → ℕ
be32 a b c d = a * 2 ^ 24 + b * 2 ^ 16 + c * 2 ^ 8 + d

abbrev pub byte : List ℕ → ℕ → ℕ
byte bytes i = get_or bytes i 0

-- `n` words and what follows them.
read_words : ℕ → List ℕ → List ℕ × List ℕ
read_words zero bytes = ([], bytes)
read_words (suc n) bytes =
    let (words, rest) = read_words n (drop 4 bytes) in
    (be32 (byte bytes 0) (byte bytes 1) (byte bytes 2) (byte bytes 3) ∷ words, rest)

pub read_header : List ℕ → Header
read_header b =
    let (words, rest) = read_words (byte b 0 % 16) (drop 12 b) in
    record {
      version = byte b 0 / 64;
      has_padding = byte b 0 / 32 % 2 == 1;
      has_extension = byte b 0 / 16 % 2 == 1;
      marked = byte b 1 / 128 == 1;
      payload_type = byte b 1 % 128;
      sequence = be16 (byte b 2) (byte b 3);
      timestamp = be32 (byte b 4) (byte b 5) (byte b 6) (byte b 7);
      ssrc = be32 (byte b 8) (byte b 9) (byte b 10) (byte b 11);
      csrc = words;
      rest = rest;
    }

byte_0-parts :
    (p x c b : ℕ)
    → c < 16
    → b ≡ 0x80 + flag p 0x20 + flag x 0x10 + c % 2 ^ 4
    → (b / 64 ≡ 2) × ((b / 32 % 2 == 1) ≡ is_set p) × ((b / 16 % 2 == 1) ≡ is_set x) × (b % 16 ≡ c)
byte_0-parts p x c b l e =
    let (u, hu, eu, su) = flag-bit p 0x20 in
    let (v, hv, ev, sv) = flag-bit x 0x10 in
    let bu : b / 32 % 2 ≡ u = omega arith in
    let bv : b / 16 % 2 ≡ v = omega arith in (omega arith, rw bu su, rw bv sv, omega arith)

byte_1-parts :
    (t m b : ℕ)
    → t < 128
    → b ≡ t % 2 ^ 7 + flag m 0x80
    → ((b / 128 == 1) ≡ is_set m) × (b % 128 ≡ t)
byte_1-parts t m b l e =
    let (u, hu, eu, su) = flag-bit m 0x80 in
    let bu : b / 128 ≡ u = omega arith in (rw bu su, omega arith)

pub be32-word :
    (w : ℕ)
    → w < 2 ^ 32
    → be32 (w / 2 ^ 24 % 2 ^ 8) (w / 2 ^ 16 % 2 ^ 8) (w / 2 ^ 8 % 2 ^ 8) (w % 2 ^ 8) ≡ w
be32-word w l = omega arith

read_words-csrc_bytes :
    (csrc : List ℕ) (n : ℕ) (rest : List ℕ)
    → n ≤ length csrc
    → All (λ w. w < 2 ^ 32) csrc
    → read_words n (csrc_bytes csrc n ++ rest) ≡ (take n csrc, rest)
unfolding read_words csrc_bytes
read_words-csrc_bytes csrc zero rest l a = refl
read_words-csrc_bytes [] (suc n) rest l a = absurd (omega arith)
read_words-csrc_bytes (w ∷ csrc) (suc n) rest l (h, a) =
    rw (be32-word w h, read_words-csrc_bytes csrc n rest (omega arith) a) refl

-- The fields that the members of a packet info stand for.
unfoldable pub fields : PacketInfo → List ℕ → Header
fields info rest = record {
  version = 2;
  has_padding = is_set info.padding;
  has_extension = is_set info.extension;
  marked = is_set info.marker;
  payload_type = info.payload_type;
  sequence = info.sequence_number;
  timestamp = info.timestamp;
  ssrc = info.ssrc;
  csrc = take info.csrc_count info.csrc;
  rest = rest;
}

-- The members are in the ranges of the header's fields.
pub record IsInRange (info : PacketInfo) : Type 0 where
  pub counted : info.csrc_count < 16
  pub held : info.csrc_count ≤ length info.csrc
  pub typed : info.payload_type < 2 ^ 7
  pub numbered : info.sequence_number < 2 ^ 16
  pub timed : info.timestamp < 2 ^ 32
  pub sourced : info.ssrc < 2 ^ 32
  pub contributed : All (λ w. w < 2 ^ 32) info.csrc

length-csrc_bytes : (csrc : List ℕ) (n : ℕ) → length (csrc_bytes csrc n) ≡ n * 4
unfolding csrc_bytes
length-csrc_bytes csrc zero = refl
length-csrc_bytes [] (suc n) = omega (arith, length-csrc_bytes [] n)
length-csrc_bytes (w ∷ csrc) (suc n) = omega (arith, length-csrc_bytes csrc n)

read_header-header_bytes :
    (info : PacketInfo) (rest : List ℕ)
    → IsInRange info
    → read_header (header_bytes info ++ rest) ≡ fields info rest
unfolding read_header header_bytes fields
read_header-header_bytes info rest r =
    let (v, p, x, c) = byte_0-parts info.padding info.extension info.csrc_count _ r.counted refl in
    let (m, t) = byte_1-parts info.payload_type info.marker _ r.typed refl in
    let n : be16 (info.sequence_number / 256 % 256) (info.sequence_number % 256)
        ≡ info.sequence_number =
      omega arith in
    let w = read_words-csrc_bytes info.csrc info.csrc_count rest r.held r.contributed in
    rw (v, p, x, c, m, t, n, be32-word info.timestamp r.timed, be32-word info.ssrc r.sourced, w)
      refl

length-header_bytes : (info : PacketInfo) → length (header_bytes info) ≡ 12 + info.csrc_count * 4
unfolding header_bytes
length-header_bytes info = omega (arith, length-csrc_bytes info.csrc info.csrc_count)

-- A buffer of less than 12 + 4 * csrc_count bytes is refused. Else the header has that many bytes,
-- and what a reader of the format takes from it and whatever follows it are the members of the
-- packet info, if they are in the ranges of their fields.
pub read_header-encode_header :
    (info : PacketInfo) (size : ℕ)
    → IsInRange info
    → (size < 12 + info.csrc_count * 4 → encode_header info size ≡ none)
      × (12 + info.csrc_count * 4 ≤ size
          → (rest : List ℕ)
          → (bytes : List ℕ) × (encode_header info size ≡ some bytes)
            × (length bytes ≡ 12 + info.csrc_count * 4)
            × (read_header (bytes ++ rest) ≡ fields info rest))
unfolding encode_header
read_header-encode_header info size r = (
  λ l. ground arith,
  λ l rest. (
    header_bytes info,
    ground arith,
    length-header_bytes info,
    read_header-header_bytes info rest r,
  ),
)
