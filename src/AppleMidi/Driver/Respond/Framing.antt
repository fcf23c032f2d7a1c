-- ===== src/AppleMidi/Driver/Respond/Framing.antt =====
-- `_test_applemidi` against the commands that are built, and the path of a command from one driver
-- to the response of another.
use cmidid_kerneldriver.Base.{
  ℕ, true, false, List, [], ◌∷◌, ◌++◌, pos, ◌≡◌, inl, inr, refl, ap, ◌+◌, subst, ltb, Bool-cases,
  arith, length, ◌||◌,
}
use cmidid_kerneldriver.AppleMidi.Rtp.Peer.{SockAddr}
use cmidid_kerneldriver.AppleMidi.Command.RoundTrip.{
  IsSendable, expected, parse_command-build_command,
}
use cmidid_kerneldriver.AppleMidi.Command.{
  SessionType, invitation, accepted, rejected, end_session, Command, session, sync, feedback,
  unknown, built, build_command, head_bytes, session_code, with_name,
}
use cmidid_kerneldriver.AppleMidi.Driver.{AppleMidiDriver}
use cmidid_kerneldriver.AppleMidi.Driver.Respond.{
  Moment, test_applemidi, receive, respond, respond_parsed, unlocked,
}

starts : (b0 b1 b2 b3 : ℕ) (rest : List ℕ) → ltb (length (b0 ∷ b1 ∷ b2 ∷ b3 ∷ rest)) 4 ≡ false
starts b0 b1 b2 b3 rest = ground arith

-- A datagram that begins like a command of some type.
abbrev IsFramed : List ℕ → Type 0
IsFramed b = (ltb (length b) 4 ≡ false) × (test_applemidi b ≡ pos 0)

session-IsFramed :
    (type : SessionType) (rest : List ℕ) → IsFramed (head_bytes (session_code type) ++ rest)
unfolding test_applemidi
session-IsFramed invitation rest = let s = starts 255 255 0x49 0x4e rest in (s, rw s refl)
session-IsFramed accepted rest = let s = starts 255 255 0x4f 0x4b rest in (s, rw s refl)
session-IsFramed rejected rest = let s = starts 255 255 0x4e 0x4f rest in (s, rw s refl)
session-IsFramed end_session rest = let s = starts 255 255 0x42 0x59 rest in (s, rw s refl)

pub built-eq : {b c : List ℕ} → built b ≡ built c → b ≡ c
built-eq e = cc

with_name-IsFramed :
    (type : SessionType) (rest name bytes : List ℕ)
    → with_name (head_bytes (session_code type) ++ rest) name ≡ built bytes
    → IsFramed bytes
with_name-IsFramed type rest [] bytes e = subst IsFramed (built-eq e) (session-IsFramed type rest)
with_name-IsFramed type rest (c ∷ name) bytes e =
    elim (Bool-cases (ltb 48 (length (c ∷ name) + 1))) [
      | inl f ↦ absurd (ground arith)
      | inr f ↦
          subst IsFramed (built-eq (rw f at e))
            (session-IsFramed type (rest ++ (c ∷ name ++ 0 ∷ [])))
    ]

-- Every command that is built passes the test of the first words.
build_command-IsFramed :
    (c : Command) (bytes : List ℕ) → build_command c ≡ built bytes → IsFramed bytes
unfolding build_command test_applemidi
build_command-IsFramed (session type d) bytes e = with_name-IsFramed type _ d.name bytes e
build_command-IsFramed (sync d) bytes e = subst IsFramed (built-eq e) (refl, refl)
build_command-IsFramed (feedback d) bytes e = subst IsFramed (built-eq e) (refl, refl)
build_command-IsFramed (unknown type) bytes e = absurd (cc)

-- A command that another driver built, in a packet that meets a free lock: the driver responds to it
-- as it was sent, with the lock held, and gives the lock back. The command's members fit into their
-- fields, and its name has less than 48 bytes and no 0; one without a name is given the name that
-- the driver's command held.
pub receive-build_command :
    (d : AppleMidiDriver) (sk : ℕ) (m : Moment) (from : SockAddr) (c : Command)
    → d.locked ≡ false
    → m.busy ≡ false
    → IsSendable c
    → (bytes : List ℕ) × (build_command c ≡ built bytes)
      × (receive d sk m (record { from = from; payload = bytes })
          ≡ unlocked (
              respond
                (record d { locked = true })
                sk
                from
                m.now
                m.sent
                m.memory
                (expected m.old_name c)))
unfolding receive
receive-build_command d sk m from c free idle fits =
    let (bytes, b, p) = parse_command-build_command m.old_name c fits in
    let (long_enough, passes) = build_command-IsFramed c bytes b in
    let lock_free : (d.locked || m.busy) ≡ false = ground arith in
    (
      bytes,
      b,
      rw (long_enough, passes, lock_free)
          (ap
            (λ r.
              unlocked
                (respond_parsed (record d { locked = true }) sk from m.now m.sent m.memory r))
            p),
    )
