-- ===== src/AppleMidi/Command.antt =====
-- The session commands of applemidi/applemidi.c as datagrams. The machine is little-endian, so a
-- word that `htonl` turns lies in memory with its high byte first.
pub mod RoundTrip
use cmidid_kerneldriver.Base.{
  ℕ, zero, suc, Bool, true, false, List, [], ◌∷◌, ◌++◌, Option, none, some, ◌+◌, ◌-◌, ◌*◌, ◌/◌, ◌%◌,
  ◌^◌, ◌==◌, ltb, not, if◌then◌else◌, length, get_or, take, drop,
}
use cmidid_kerneldriver.AppleMidi.Rtp.Packet.{word_bytes}
use cmidid_kerneldriver.AppleMidi.Rtp.Packet.Header.{be32, be16, byte}

-- The types of the commands that carry session data.
pub data SessionType : Type 0 where
  invitation accepted rejected end_session : SessionType

-- The member `session` of the union; `name` is the string, without its 0.
pub record SessionData : Type 0 where
  pub version : ℕ
  pub token : ℕ
  pub ssrc : ℕ
  pub name : List ℕ

-- The member `sync`.
pub record SyncData : Type 0 where
  pub ssrc : ℕ
  pub count : ℕ
  pub timestamp1 : ℕ
  pub timestamp2 : ℕ
  pub timestamp3 : ℕ

-- The member `feedback`.
pub record FeedbackData : Type 0 where
  pub ssrc : ℕ
  pub seqnum : ℕ

-- `struct AppleMIDICommand` without its address: the type and the member that it selects.
pub data Command : Type 0 where
  session : SessionType → SessionData → Command
  sync : SyncData → Command
  feedback : FeedbackData → Command
  unknown : ℕ → Command

abbrev pub session_code : SessionType → ℕ
session_code invitation = 0x494e
session_code accepted = 0x4f4b
session_code rejected = 0x4e4f
session_code end_session = 0x4259

-- The first word: APPLEMIDI_PROTOCOL_SIGNATURE and the type.
abbrev pub head_bytes : ℕ → List ℕ
head_bytes type = word_bytes (0xffff * 2 ^ 16 + type)

abbrev timestamp_bytes : ℕ → List ℕ
timestamp_bytes t = word_bytes (t / 2 ^ 32) ++ word_bytes (t % 2 ^ 32)

-- What is put into `msg`: its first bytes, the code 1, or a name that does not fit into the array
-- of 16 words.
pub data Built : Type 0 where
  built : List ℕ → Built
  refused overflow : Built

abbrev pub with_name : List ℕ → List ℕ → Built
with_name words [] = built words
with_name words (c ∷ name) =
    if ltb 48 (length (c ∷ name) + 1) then overflow else built (words ++ (c ∷ name ++ 0 ∷ []))

-- The part of `_applemidi_send_command` that builds the datagram.
unfoldable pub build_command : Command → Built
build_command (session type d) =
    with_name
      (head_bytes (session_code type)
        ++ (word_bytes d.version ++ (word_bytes d.token ++ word_bytes d.ssrc)))
      d.name
build_command (sync d) = built (
    head_bytes 0x434b
    ++ (word_bytes d.ssrc
        ++ (word_bytes (d.count * 2 ^ 24 % 2 ^ 32)
            ++ (timestamp_bytes d.timestamp1
                ++ (timestamp_bytes d.timestamp2 ++ timestamp_bytes d.timestamp3)))))
build_command (feedback d) = built (head_bytes 0x5253 ++ (word_bytes d.ssrc ++ word_bytes d.seqnum))
build_command (unknown type) = refused

-- A word of the message from the byte `i` on, as `ntohl` reads it.
abbrev pub word_at : List ℕ → ℕ → ℕ
word_at b i = be32 (byte b i) (byte b (i + 1)) (byte b (i + 2)) (byte b (i + 3))

abbrev pub long_at : List ℕ → ℕ → ℕ
long_at b i = word_at b i * 2 ^ 32 + word_at b (i + 4)

-- A string in C: the bytes before the first 0.
unfoldable pub c_string : List ℕ → List ℕ
c_string [] = []
c_string (c ∷ cs) = let rest = c_string cs in if c == 0 then [] else c ∷ rest

-- The name of a received command: at most 63 bytes; if there are none, the string that the member
-- held before stays.
abbrev pub received_name : List ℕ → List ℕ → List ℕ
received_name old [] = old
received_name old (c ∷ cs) = c_string (take 63 (c ∷ cs))

-- What is taken from a datagram: a command, the code 1, or one that does not fit into the array.
pub data Parsed : Type 0 where
  parsed : Command → Parsed
  bad too_long : Parsed

abbrev pub parse_session : SessionType → List ℕ → List ℕ → Parsed
parse_session type old b =
    if ltb (length b) 16
    then bad
    else parsed (
        session type (record {
          version = word_at b 4;
          token = word_at b 8;
          ssrc = word_at b 12;
          name = received_name old (drop 16 b);
        }))

abbrev pub parse_sync : List ℕ → Parsed
parse_sync b =
    if length b == 36
    then parsed (
        sync (record {
          ssrc = word_at b 4;
          count = word_at b 8 / 2 ^ 24;
          timestamp1 = long_at b 12;
          timestamp2 = long_at b 20;
          timestamp3 = long_at b 28;
        }))
    else bad

abbrev pub parse_feedback : List ℕ → Parsed
parse_feedback b =
    if length b == 12
    then parsed (feedback (record { ssrc = word_at b 4; seqnum = word_at b 8 }))
    else bad

-- The switch on the type.
abbrev pub parse_type : ℕ → List ℕ → List ℕ → Parsed
parse_type type old b =
    if type == 0x494e
    then parse_session invitation old b
    else if type == 0x4f4b
    then parse_session accepted old b
    else if type == 0x4e4f
    then parse_session rejected old b
    else if type == 0x4259
    then parse_session end_session old b
    else if type == 0x434b
    then parse_sync b
    else if type == 0x5253
    then parse_feedback b
    else bad

-- `_applemidi_recv_command` on the payload of a datagram; `old` is the name that the command held
-- before. The copy into the array of 16 words is not bounded. Bytes past the payload read as 0.
unfoldable pub parse_command : List ℕ → List ℕ → Parsed
parse_command old b =
    if ltb 64 (length b) then too_long else parse_type (be16 (byte b 2) (byte b 3)) old b
