-- ===== src/AppleMidi/Driver/Connect.antt =====
-- The sockets of the driver, applemidi/applemidi.c: `_applemidi_connect`, `_applemidi_endsession`,
-- `_applemidi_disconnect_peer` and `_applemidi_disconnect`.
pub mod Sockets
pub mod Disconnect
use cmidid_kerneldriver.Base.{
  ℕ, zero, suc, Bool, true, false, List, [], ◌∷◌, ◌++◌, Option, none, some, ℤ, pos, negsuc, ◌+◌,
  ◌%◌, ◌^◌, ◌==◌, not, if◌then◌else◌,
}
use cmidid_kerneldriver.Base.Int.{is_zero}
use cmidid_kerneldriver.AppleMidi.Rtp.Peer.{SockAddr, get_address}
use cmidid_kerneldriver.AppleMidi.Rtp.Table.{first_peer, remove_peer}
use cmidid_kerneldriver.AppleMidi.Rtp.Packet.{get_ssrc}
use cmidid_kerneldriver.AppleMidi.Command.{end_session, SessionData, Command, session}
use cmidid_kerneldriver.AppleMidi.Driver.{
  AppleMidiDriver, CommandDatagram, Answered, silent, send_command,
}
use cmidid_kerneldriver.AppleMidi.Driver.Respond.{with_peers, after_packet}

-- The calls about sockets. `sock_create` has the socket that it made, or `none` for an error, and
-- `set_callback` stands for the store to `sk_data_ready`.
pub data SocketCall : Type 0 where
  sock_create : Option ℕ → SocketCall
  bind : ℕ → ℕ → ℤ → SocketCall
  set_callback : ℕ → SocketCall
  sock_release : ℕ → SocketCall

-- What the kernel answers.
pub record SocketAnswers : Type 0 where
  pub control : Option ℕ
  pub control_bind : ℤ
  pub rtp : Option ℕ
  pub rtp_bind : ℤ

-- The code, the driver and the calls made.
pub record Connected : Type 0 where
  pub code : ℤ
  pub driver : AppleMidiDriver
  pub calls : List SocketCall

abbrev release_if : Option ℕ → List SocketCall
release_if none = []
release_if (some s) = sock_release s ∷ []

-- The label `control_fail`.
abbrev control_fail : AppleMidiDriver → ℤ → List SocketCall → Connected
control_fail d code calls = record {
  code = code;
  driver = record d { control_socket = none };
  calls = calls ++ release_if d.control_socket;
}

abbrev bind_rtp : AppleMidiDriver → ℕ → ℤ → List SocketCall → Connected
bind_rtp d s code calls =
    let asked = calls ++ (sock_create (some s) ∷ bind s ((d.port + 1) % 2 ^ 16) code ∷ []) in
    if is_zero code
    then record {
      code = code;
      driver = record d { rtp_socket = some s };
      calls = asked ++ set_callback s ∷ [];
    }
    else control_fail (record d { rtp_socket = none }) code (asked ++ sock_release s ∷ [])

abbrev pub create_rtp : ℤ → AppleMidiDriver → List SocketCall → Option ℕ → Connected
create_rtp code d calls none = control_fail d (pos 0) (calls ++ sock_create none ∷ [])
create_rtp code d calls (some s) = bind_rtp d s code calls

-- The second half, where the result so far is 0.
abbrev pub connect_rtp : SocketAnswers → AppleMidiDriver → List SocketCall → Option ℕ → Connected
connect_rtp k d calls (some s) = record { code = pos 0; driver = d; calls = calls }
connect_rtp k d calls none = create_rtp k.rtp_bind d calls k.rtp

abbrev pub bind_control : SocketAnswers → AppleMidiDriver → ℕ → Connected
bind_control k d s =
    let asked = sock_create (some s) ∷ bind s d.port k.control_bind ∷ [] in
    let d' : AppleMidiDriver = record d { control_socket = some s } in
    if is_zero k.control_bind
    then connect_rtp k d' (asked ++ set_callback s ∷ []) d'.rtp_socket
    else control_fail d' k.control_bind asked

abbrev pub create_control : SocketAnswers → AppleMidiDriver → Option ℕ → Connected
create_control k d none = record { code = negsuc 4; driver = d; calls = sock_create none ∷ [] }
create_control k d (some s) = bind_control k d s

abbrev pub connect_control : SocketAnswers → AppleMidiDriver → Option ℕ → Connected
connect_control k d (some s) = connect_rtp k d [] d.rtp_socket
connect_control k d none = create_control k d k.control

-- `_applemidi_connect`. The port is an `unsigned short`.
unfoldable pub connect : SocketAnswers → AppleMidiDriver → Connected
connect k d = connect_control k d d.control_socket

-- `_applemidi_endsession`, the address as for `send_command`.
unfoldable pub endsession : AppleMidiDriver → ℕ → Option SockAddr → ℤ → Option Answered
endsession d sk to sent = send_command d sk to sent (
    session end_session
      (record { version = 2; token = d.token; ssrc = get_ssrc d.rtp; name = d.name }))

-- What a pass of the loop meets: the address that is read in place of the peer's, since the code
-- hands on the address of its local pointer to it, and what `sock_sendmsg` answers.
pub record Pass : Type 0 where
  pub garbage : Option SockAddr
  pub sent : ℤ

abbrev pub without_peer : ℕ → Option Answered → Option Answered
without_peer h none = none
without_peer h (some a) =
    some
      (record a { driver = with_peers a.driver (remove_peer a.driver.rtp.peers a.driver.heap h) })

abbrev pub goodbye : AppleMidiDriver → ℕ → Pass → Option (ℕ × SockAddr) → Option ℕ → Option Answered
goodbye d h pass none control = none
goodbye d h pass (some address) none = none
goodbye d h pass (some address) (some control) =
    without_peer h (endsession d control pass.garbage pass.sent)

-- `_applemidi_disconnect_peer`; `none` for a peer that was freed, or no control socket.
unfoldable pub disconnect_peer : AppleMidiDriver → ℕ → Pass → Option Answered
disconnect_peer d h pass = goodbye d h pass (get_address d.heap h) d.control_socket

abbrev pub disconnect_next :
    Option ℕ → AppleMidiDriver → Pass → (AppleMidiDriver → Option Answered) → Option Answered
disconnect_next none d pass next = some (silent d 0)
disconnect_next (some h) d pass next = after_packet (disconnect_peer d h pass) next

-- The loop, which always takes the first peer; `none` also where the fuel does not suffice.
unfoldable pub disconnect_loop : ℕ → AppleMidiDriver → (ℕ → Pass) → Option Answered
disconnect_loop zero d passes = none
disconnect_loop (suc fuel) d passes =
    disconnect_next (first_peer d.rtp.peers) d (passes fuel) (λ d'. disconnect_loop fuel d' passes)

-- The driver, the datagrams, and the calls about sockets.
pub record Disconnected : Type 0 where
  pub driver : AppleMidiDriver
  pub datagrams : List CommandDatagram
  pub calls : List SocketCall

-- `sock == socket || sock == NULL`.
abbrev is_meant : Option ℕ → Option ℕ → Bool
is_meant none socket = true
is_meant (some s) none = false
is_meant (some s) (some socket) = s == socket

abbrev pub close : Option ℕ → Option Answered → Option Disconnected
close sock none = none
close sock (some a) =
    let d = a.driver in
    let closes_control = is_meant sock d.control_socket in
    let closes_rtp = is_meant sock d.rtp_socket in
    some (record {
      driver = record d {
        control_socket = if closes_control then none else d.control_socket;
        rtp_socket = if closes_rtp then none else d.rtp_socket;
      };
      datagrams = a.datagrams;
      calls =
          (if closes_control then release_if d.control_socket else [])
          ++ (if closes_rtp then release_if d.rtp_socket else []);
    })

-- `_applemidi_disconnect`: 17 passes are enough for the 16 slots.
unfoldable pub disconnect : AppleMidiDriver → Option ℕ → (ℕ → Pass) → Option Disconnected
disconnect d sock passes = close sock (disconnect_loop 17 d passes)
