-- ===== src/AppleMidi/Driver/Respond.antt =====
-- What the driver does with a datagram, applemidi/applemidi.c: `_applemidi_respond`,
-- `_test_applemidi` and `_socket_callback`.
pub mod Invitation
pub mod Goodbye
pub mod Usable
pub mod Returns
pub mod Socket
pub mod Framing
use cmidid_kerneldriver.Base.{
  ℕ, Bool, true, false, List, [], ◌∷◌, ◌++◌, Option, none, some, ℤ, pos, negsuc, ◌==◌, ◌&&◌, ◌||◌,
  not, ltb, if◌then◌else◌, length,
}
use cmidid_kerneldriver.Base.Int.{is_zero}
use cmidid_kerneldriver.AppleMidi.Rtp.Peer.{SockAddr, Heap, new_peer, create_peer, release_peer}
use cmidid_kerneldriver.AppleMidi.Rtp.Table.{
  Slots, Changed, add_peer, remove_peer, find_peer_by_ssrc,
}
use cmidid_kerneldriver.AppleMidi.Rtp.Packet.{Session, get_ssrc}
use cmidid_kerneldriver.AppleMidi.Rtp.Packet.Header.{be16, byte}
use cmidid_kerneldriver.AppleMidi.Command.{
  SessionType, invitation, accepted, rejected, end_session, SessionData, Command, session, sync,
  feedback, unknown, SyncData, Parsed, parsed, bad, too_long, parse_command,
}
use cmidid_kerneldriver.AppleMidi.Sync.{Driver, Outcome, sends, code, Synced, sync_command}
use cmidid_kerneldriver.AppleMidi.Driver.{
  AppleMidiDriver, sync_part, CommandDatagram, Answered, silent, send_command, with_sockets,
}

-- The table and the heap of the driver's RTP session.
abbrev pub with_peers : AppleMidiDriver → Changed → AppleMidiDriver
with_peers d c = record d { rtp = record d.rtp { peers = c.slots }; heap = c.heap }

-- `RTPPeerCreate`, `RTPSessionAddPeer` and `RTPPeerRelease`; no code is looked at. The size is that
-- of `struct sockaddr_in`.
abbrev pub admitted : Slots → ℕ × Heap → Changed
admitted slots (h, heap) =
    let added = add_peer slots heap h in record added { heap = release_peer added.heap h }

abbrev pub admitting : AppleMidiDriver → Option (ℕ × Heap) → Option AppleMidiDriver
admitting d none = none
admitting d (some created) = some (with_peers d (admitted d.rtp.peers created))

-- `memory` is what `RTPPeerCreate` meets.
unfoldable pub admit_peer : Bool → AppleMidiDriver → ℕ → SockAddr → Option AppleMidiDriver
admit_peer memory d ssrc from = admitting d (create_peer memory d.heap ssrc 16 from)

-- The driver that has admitted the peer.
unfoldable pub joined_driver : AppleMidiDriver → ℕ → SockAddr → AppleMidiDriver
joined_driver d ssrc from = with_peers d (admitted d.rtp.peers (new_peer d.heap ssrc 16 from))

abbrev pub accept_with : Option AppleMidiDriver → ℕ → SockAddr → ℤ → SessionData → Option Answered
accept_with none sk from sent s = none
accept_with (some d) sk from sent s = send_command d sk (some from) sent (session accepted s)

-- The answer to an invitation, to a driver that has both sockets.
abbrev pub answer_invitation :
    AppleMidiDriver → ℕ → ℕ → SockAddr → ℤ → Bool → SessionData → Option Answered
answer_invitation d rtp sk from sent memory s =
    let s' : SessionData = record s { ssrc = get_ssrc d.rtp } in
    if d.accept == 0
    then send_command d sk (some from) sent (session rejected s')
    else accept_with (if sk == rtp then admit_peer memory d s.ssrc from else some d) sk from sent s'

-- The control socket is read in any case.
abbrev respond_invitation :
    AppleMidiDriver → ℕ → SockAddr → ℤ → Bool → SessionData → Option Answered
respond_invitation d sk from sent memory s =
    with_sockets d.control_socket d.rtp_socket
      (λ control rtp. answer_invitation d rtp sk from sent memory s)

abbrev pub removed : AppleMidiDriver → Option ℕ → AppleMidiDriver
removed d none = d
removed d (some h) = with_peers d (remove_peer d.rtp.peers d.heap h)

abbrev respond_session :
    SessionType → AppleMidiDriver → ℕ → SockAddr → ℤ → Bool → SessionData → Option Answered
respond_session invitation d sk from sent memory s = respond_invitation d sk from sent memory s
respond_session accepted d sk from sent memory s = some (silent d 0)
respond_session rejected d sk from sent memory s = some (silent d 0)
respond_session end_session d sk from sent memory s =
    some (silent (removed d (find_peer_by_ssrc d.rtp.peers d.heap s.ssrc)) 0)

abbrev pub after_sync : AppleMidiDriver → Synced → AppleMidiDriver
after_sync d s = record d { sync_state = s.driver.sync_state; peer = s.driver.peer }

-- The end of `_applemidi_sync`, where the command may be sent.
abbrev pub finish_sync : AppleMidiDriver → ℕ → SockAddr → ℤ → Synced → Outcome → Option Answered
finish_sync d sk to sent s sends = send_command (after_sync d s) sk (some to) sent s.command
finish_sync d sk to sent s (code n) = some (silent (after_sync d s) n)

-- `_applemidi_respond` to a command that was received from the address `from`, with the time on the
-- clock, what `sock_sendmsg` answers, and whether there is memory for a peer.
unfoldable pub respond : AppleMidiDriver → ℕ → SockAddr → ℕ → ℤ → Bool → Command → Option Answered
respond d sk from now sent memory (session type s) = respond_session type d sk from sent memory s
respond d sk from now sent memory (sync t) =
    let s = sync_command (sync_part d) now t (sync t) in finish_sync d sk from sent s s.outcome
respond d sk from now sent memory (feedback f) = some (silent d 0)
respond d sk from now sent memory (unknown type) = some (silent d 1)

abbrev pub is_type : ℕ → Bool
is_type type =
    (type == 0x494e)
    || ((type == 0x4f4b)
        || ((type == 0x4e4f) || ((type == 0x5253) || ((type == 0x434b) || (type == 0x4259)))))

-- `_test_applemidi`.
unfoldable pub test_applemidi : List ℕ → ℤ
test_applemidi b =
    if ltb (length b) 4
    then negsuc 0
    else if (be16 (byte b 0) (byte b 1) == 0xffff) && is_type (be16 (byte b 2) (byte b 3))
    then pos 0
    else pos 1

-- A buffer of the receive queue: the address and the payload of a datagram. The kernel keeps the
-- payload at the length that the UDP header says, less 8.
pub record Packet : Type 0 where
  pub from : SockAddr
  pub payload : List ℕ

-- What a packet meets: whether another context holds the lock, the time on the clock, what
-- `sock_sendmsg` answers, whether there is memory for a peer, and the name that the driver's command
-- holds.
pub record Moment : Type 0 where
  pub busy : Bool
  pub now : ℕ
  pub sent : ℤ
  pub memory : Bool
  pub old_name : List ℕ

-- The lock is given back.
abbrev pub unlocked : Option Answered → Option Answered
unlocked none = none
unlocked (some a) = some (record a { driver = record a.driver { locked = false } })

abbrev pub respond_parsed : AppleMidiDriver → ℕ → SockAddr → ℕ → ℤ → Bool → Parsed → Option Answered
respond_parsed d sk from now sent memory too_long = none
respond_parsed d sk from now sent memory bad = some (silent d 1)
respond_parsed d sk from now sent memory (parsed c) = respond d sk from now sent memory c

-- A packet that is not a command: it is only tested whether it came on the RTP socket, which is
-- undefined if there is none.
abbrev pub not_command : AppleMidiDriver → Option ℕ → Option Answered
not_command d none = none
not_command d (some rtp) = some (silent d 0)

-- The body of the loop: a packet that is not a command, or that comes while the lock is taken, is
-- dropped. The code has no meaning.
unfoldable pub receive : AppleMidiDriver → ℕ → Moment → Packet → Option Answered
receive d sk m p =
    if ltb (length p.payload) 4
    then some (silent d 0)
    else if is_zero (test_applemidi p.payload)
    then if d.locked || m.busy
      then some (silent d 0)
      else unlocked (
          respond_parsed (record d { locked = true }) sk p.from m.now m.sent m.memory
            (parse_command m.old_name p.payload))
    else not_command d d.rtp_socket

abbrev pub more_datagrams : List CommandDatagram → Option Answered → Option Answered
more_datagrams ds none = none
more_datagrams ds (some a) = some (record a { datagrams = ds ++ a.datagrams })

abbrev pub after_packet : Option Answered → (AppleMidiDriver → Option Answered) → Option Answered
after_packet none next = none
after_packet (some a) next = more_datagrams a.datagrams (next a.driver)

-- `_socket_callback`: the packets that are in the queue when it is called, in order.
unfoldable pub socket_callback : AppleMidiDriver → ℕ → List (Moment × Packet) → Option Answered
socket_callback d sk [] = some (silent d 0)
socket_callback d sk ((m, p) ∷ queue) =
    after_packet (receive d sk m p) (λ d'. socket_callback d' sk queue)
