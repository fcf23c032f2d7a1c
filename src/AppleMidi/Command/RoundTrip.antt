-- ===== src/AppleMidi/Command/RoundTrip.antt =====
-- A command that is sent is the one that is received.
use cmidid_kerneldriver.Base.{
  ℕ, zero, suc, false, List, [], ◌∷◌, ◌++◌, ◌+◌, ◌*◌, ◌/◌, ◌%◌, ◌^◌, ◌<◌, ◌≤◌, ◌≡◌, ◌≢◌, refl, ap,
  ◌∙◌, ◌==◌, ltb, length, length-append, take, All, arith,
}
use cmidid_kerneldriver.AppleMidi.Rtp.Packet.{word_bytes}
use cmidid_kerneldriver.AppleMidi.Rtp.Packet.Header.{be32-word}
use cmidid_kerneldriver.AppleMidi.Command.{
  SessionType, invitation, accepted, rejected, end_session, SessionData, Command, session, sync,
  feedback, unknown, built, build_command, c_string, parsed, parse_command, parse_session,
  received_name, session_code, with_name,
}

-- The members fit into the fields of the datagram, and the name, which has no 0, into the array.
unfoldable pub IsSendable : Command → Type 0
IsSendable (session type d) =
    (d.version < 2 ^ 32)
    × (d.token < 2 ^ 32)
    × (d.ssrc < 2 ^ 32)
    × (length d.name < 48)
    × All (λ c. c ≢ 0) d.name
IsSendable (sync d) =
    (d.ssrc < 2 ^ 32)
    × (d.count < 2 ^ 8)
    × (d.timestamp1 < 2 ^ 64)
    × (d.timestamp2 < 2 ^ 64)
    × (d.timestamp3 < 2 ^ 64)
IsSendable (feedback d) = (d.ssrc < 2 ^ 32) × (d.seqnum < 2 ^ 32)
IsSendable (unknown type) = ⊥

abbrev pub name_after : List ℕ → List ℕ → List ℕ
name_after old [] = old
name_after old (c ∷ cs) = c ∷ cs

-- A command without a name leaves the name that the receiver held.
unfoldable pub expected : List ℕ → Command → Command
expected old (session type d) = session type (record d { name = name_after old d.name })
expected old (sync d) = sync d
expected old (feedback d) = feedback d
expected old (unknown type) = unknown type

c_string-name : (cs rest : List ℕ) → All (λ c. c ≢ 0) cs → c_string (cs ++ 0 ∷ rest) ≡ cs
unfolding c_string
c_string-name [] rest a = refl
c_string-name (c ∷ cs) rest (n, a) =
    let e : (c == 0) ≡ false = ground arith in rw (e, c_string-name cs rest a) refl

long_parts : (t : ℕ) → t < 2 ^ 64 → (t / 2 ^ 32 < 2 ^ 32) × (t / 2 ^ 32 * 2 ^ 32 + t % 2 ^ 32 ≡ t)
long_parts t l = (omega arith, omega arith)

-- Sixteen bytes counted one by one.
sixteen :
    (n : ℕ)
    → suc
        (suc (suc (suc (suc (suc (suc (suc (suc (suc (suc (suc (suc (suc (suc (suc n)))))))))))))))
      ≡ 16 + n
sixteen n = omega arith

parse_session-words :
    (type : SessionType) (old : List ℕ) (a b c e : ℕ) (d : SessionData) (tail : List ℕ)
    → d.version < 2 ^ 32
    → d.token < 2 ^ 32
    → d.ssrc < 2 ^ 32
    → parse_session type old (
        (a ∷ b ∷ c ∷ e ∷ [])
        ++ ((word_bytes d.version ++ (word_bytes d.token ++ word_bytes d.ssrc)) ++ tail))
      ≡ parsed (session type (record d { name = received_name old tail }))
parse_session-words type old a b c e d tail v t s =
    let enough : ltb (16 + length tail) 16 ≡ false = ground arith in
    rw
      (
        sixteen (length tail),
        enough,
        be32-word d.version v,
        be32-word d.token t,
        be32-word d.ssrc s,
      )
      refl

-- The bytes of a session command and of its name.
abbrev session_bytes : SessionType → SessionData → List ℕ → List ℕ
session_bytes type d tail =
    word_bytes (0xffff * 2 ^ 16 + session_code type)
    ++ ((word_bytes d.version ++ (word_bytes d.token ++ word_bytes d.ssrc)) ++ tail)

short_session :
    (type : SessionType) (d : SessionData) (tail : List ℕ)
    → length tail ≤ 48
    → ltb 64 (length (session_bytes type d tail)) ≡ false
short_session type d tail few =
    let short : ltb 64 (16 + length tail) ≡ false = ground arith in rw (sixteen (length tail)) short

parse_command-session_bytes :
    (old : List ℕ) (type : SessionType) (d : SessionData) (tail : List ℕ)
    → d.version < 2 ^ 32
    → d.token < 2 ^ 32
    → d.ssrc < 2 ^ 32
    → length tail ≤ 48
    → parse_command old (session_bytes type d tail)
      ≡ parsed (session type (record d { name = received_name old tail }))
unfolding parse_command
parse_command-session_bytes old invitation d tail v t s few =
    rw (short_session invitation d tail few)
      (parse_session-words invitation old 255 255 0x49 0x4e d tail v t s)
parse_command-session_bytes old accepted d tail v t s few =
    rw (short_session accepted d tail few)
      (parse_session-words accepted old 255 255 0x4f 0x4b d tail v t s)
parse_command-session_bytes old rejected d tail v t s few =
    rw (short_session rejected d tail few)
      (parse_session-words rejected old 255 255 0x4e 0x4f d tail v t s)
parse_command-session_bytes old end_session d tail v t s few =
    rw (short_session end_session d tail few)
      (parse_session-words end_session old 255 255 0x42 0x59 d tail v t s)

take_all : (n : ℕ) (xs : List ℕ) → length xs ≤ n → take n xs ≡ xs
take_all zero [] l = refl
take_all zero (x ∷ xs) l = absurd (omega arith)
take_all (suc n) [] l = refl
take_all (suc n) (x ∷ xs) l = ap (x ∷◌) (take_all n xs (omega arith))

-- The words before the name.
abbrev words : SessionType → SessionData → List ℕ
words type d =
    word_bytes (0xffff * 2 ^ 16 + session_code type)
    ++ (word_bytes d.version ++ (word_bytes d.token ++ word_bytes d.ssrc))

with_name-session :
    (old : List ℕ) (type : SessionType) (d : SessionData) (name : List ℕ)
    → d.version < 2 ^ 32
    → d.token < 2 ^ 32
    → d.ssrc < 2 ^ 32
    → length name < 48
    → All (λ c. c ≢ 0) name
    → (bytes : List ℕ) × (with_name (words type d) name ≡ built bytes)
      × (parse_command old bytes ≡ parsed (session type (record d { name = name_after old name })))
with_name-session old type d [] v t s few none_zero =
    (session_bytes type d [], refl, parse_command-session_bytes old type d [] v t s (omega arith))
with_name-session old type d (c ∷ cs) v t s few none_zero =
    let tail = c ∷ cs ++ 0 ∷ [] in
    let len = length-append (c ∷ cs) (0 ∷ []) in
    let fits : ltb 48 (length (c ∷ cs) + 1) ≡ false = ground arith in
    let string =
      ap c_string (take_all 63 tail (omega (arith, len))) ∙ c_string-name (c ∷ cs) [] none_zero in
    (
      session_bytes type d tail,
      rw fits refl,
      parse_command-session_bytes old type d tail v t s (omega (arith, len))
          ∙ ap (λ n. parsed (session type (record d { name = n }))) string,
    )

-- What is built from a command of a known type, whose members fit into their fields and whose name
-- has less than 48 bytes and no 0, is received as the same command, except that one without a name
-- gets the name that the receiver's command held before.
pub parse_command-build_command :
    (old : List ℕ) (c : Command)
    → IsSendable c
    → (bytes : List ℕ) × (build_command c ≡ built bytes)
      × (parse_command old bytes ≡ parsed (expected old c))
unfolding IsSendable expected build_command parse_command
parse_command-build_command old (session type d) (v, t, s, few, none_zero) =
    with_name-session old type d d.name v t s few none_zero
parse_command-build_command old (sync d) (a, b, t1, t2, t3) =
    let c : d.count * 16777216 % 4294967296 / 16777216 ≡ d.count = omega arith in
    (
      _,
      refl,
      rw
          (
            be32-word d.ssrc a,
            be32-word (d.count * 16777216 % 4294967296) (omega arith),
            c,
            be32-word (d.timestamp1 / 4294967296) (omega arith),
            be32-word (d.timestamp1 % 4294967296) (omega arith),
            be32-word (d.timestamp2 / 4294967296) (omega arith),
            be32-word (d.timestamp2 % 4294967296) (omega arith),
            be32-word (d.timestamp3 / 4294967296) (omega arith),
            be32-word (d.timestamp3 % 4294967296) (omega arith),
            (long_parts d.timestamp1 t1).1,
            (long_parts d.timestamp2 t2).1,
            (long_parts d.timestamp3 t3).1,
          )
          refl,
    )
parse_command-build_command old (feedback d) (a, b) =
    (_, refl, rw (be32-word d.ssrc a, be32-word d.seqnum b) refl)
parse_command-build_command old (unknown type) fits = elim fits [ ]
