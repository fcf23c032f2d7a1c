-- ===== src/AppleMidi/Driver/Respond/Usable.antt =====
-- What a short datagram is parsed to.
use cmidid_kerneldriver.Base.{
  ℕ, Bool, true, false, List, [], ◌∷◌, ◌<◌, ◌≤◌, ◌≡◌, inl, inr, ◌==◌, ltb, Bool-cases, arith,
  length, length-drop, length-take_le, take, drop, if◌then◌else◌,
}
use cmidid_kerneldriver.AppleMidi.Rtp.Packet.Header.{be16, byte}
use cmidid_kerneldriver.AppleMidi.Command.{
  SessionType, invitation, accepted, rejected, end_session, Command, session, sync, feedback,
  unknown, c_string, received_name, Parsed, parsed, bad, parse_command, parse_session, parse_sync,
  parse_feedback, parse_type,
}

-- The name of the command and the 0 after it fit into the array of a datagram.
abbrev pub IsShort : Command → Type 0
IsShort (session type d) = length d.name < 48
IsShort (sync d) = Unit {0}
IsShort (feedback d) = Unit {0}
IsShort (unknown type) = Unit {0}

-- What a parsed datagram may be for the driver to go on.
pub data IsUsable : Parsed → Type 0 where
  refused_datagram : IsUsable bad
  usable : (c : Command) → IsShort c → IsUsable (parsed c)

length-c_string_le : (cs : List ℕ) → length (c_string cs) ≤ length cs
unfolding c_string
length-c_string_le [] = omega arith
length-c_string_le (c ∷ cs) = let ih = length-c_string_le cs in ground arith

received_name-short :
    (old cs : List ℕ) → length old < 48 → length cs < 48 → length (received_name old cs) < 48
received_name-short old [] o l = o
received_name-short old (c ∷ cs) o l =
    let a = length-c_string_le (take 63 (c ∷ cs)) in
    let b = length-take_le 63 (c ∷ cs) in omega (arith, a, b, l)

if-IsUsable : (b : Bool) (p q : Parsed) → IsUsable p → IsUsable q → IsUsable (if b then p else q)
if-IsUsable true p q u v = u
if-IsUsable false p q u v = v

parse_session-IsUsable :
    (type : SessionType) (old b : List ℕ)
    → length b ≤ 63
    → length old < 48
    → IsUsable (parse_session type old b)
parse_session-IsUsable type old b l o = elim (Bool-cases (ltb (length b) 16)) [
  | inl e ↦ rw e refused_datagram
  | inr e ↦
      rw e (usable _ (received_name-short old (drop 16 b) o (omega (arith, length-drop 16 b, l))))
]

parse_sync-IsUsable : (b : List ℕ) → IsUsable (parse_sync b)
parse_sync-IsUsable b = elim (Bool-cases (length b == 36)) [
  | inl e ↦ rw e (usable _ _)
  | inr e ↦ rw e refused_datagram
]

parse_feedback-IsUsable : (b : List ℕ) → IsUsable (parse_feedback b)
parse_feedback-IsUsable b = elim (Bool-cases (length b == 12)) [
  | inl e ↦ rw e (usable _ _)
  | inr e ↦ rw e refused_datagram
]

parse_type-IsUsable :
    (type : ℕ) (old b : List ℕ) → length b ≤ 63 → length old < 48 → IsUsable (parse_type type old b)
parse_type-IsUsable type old b l o =
    let of_type = λ (t : SessionType). parse_session-IsUsable t old b l o in
    let others = if-IsUsable (type == 0x5253) _ _ (parse_feedback-IsUsable b) refused_datagram in
    let synced = if-IsUsable (type == 0x434b) _ _ (parse_sync-IsUsable b) others in
    let ended = if-IsUsable (type == 0x4259) _ _ (of_type end_session) synced in
    let refusing = if-IsUsable (type == 0x4e4f) _ _ (of_type rejected) ended in
    let accepting = if-IsUsable (type == 0x4f4b) _ _ (of_type accepted) refusing in
    if-IsUsable (type == 0x494e) _ _ (of_type invitation) accepting

-- What a datagram of at most 63 bytes is parsed to, if the name that was there before was short.
pub parse_command-IsUsable :
    (old b : List ℕ) → length b ≤ 63 → length old < 48 → IsUsable (parse_command old b)
unfolding parse_command
parse_command-IsUsable old b l o =
    let few : ltb 64 (length b) ≡ false = ground arith in
    rw few (parse_type-IsUsable (be16 (byte b 2) (byte b 3)) old b l o)
