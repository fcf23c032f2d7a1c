-- ===== src/AppleMidi/Driver.antt =====
-- The driver of applemidi/applemidi.c: `struct MIDIDriverAppleMIDI` and the sending of a command.
-- The command that the structure holds is set by every function before it is read, so that it is
-- an argument here; what is left in it of an earlier command comes with the answers of the kernel.
pub mod Sending
pub mod Respond
pub mod Members
pub mod Connect
pub mod Timer
use cmidid_kerneldriver.Base.{
  ℕ, Bool, true, false, List, [], ◌∷◌, Option, none, some, ℤ, pos, negsuc, ◌==◌, if◌then◌else◌,
  length,
}
use cmidid_kerneldriver.AppleMidi.Rtp.Peer.{SockAddr, Heap}
use cmidid_kerneldriver.AppleMidi.Rtp.Packet.{Session, get_ssrc}
use cmidid_kerneldriver.AppleMidi.Command.{Command, Built, built, refused, overflow, build_command}
use cmidid_kerneldriver.AppleMidi.Sync.{Driver}

-- `locked` is the spin lock. A socket is named by a number, as is its `sk`.
pub record AppleMidiDriver : Type 0 where
  pub locked : Bool
  pub control_socket : Option ℕ
  pub rtp_socket : Option ℕ
  pub port : ℕ
  pub accept : ℕ
  pub sync_state : ℕ
  pub token : ℕ
  pub name : List ℕ
  pub peer : Option ℕ
  pub rtp : Session
  pub heap : Heap

-- What the synchronisation works on.
abbrev pub sync_part : AppleMidiDriver → Driver
sync_part d = record {
  sync_state = d.sync_state;
  peer = d.peer;
  ssrc = get_ssrc d.rtp;
  peers = d.rtp.peers;
  heap = d.heap;
}

-- A datagram as it is handed to `sock_sendmsg`.
pub record CommandDatagram : Type 0 where
  pub socket : ℕ
  pub to : SockAddr
  pub bytes : List ℕ

-- The code of a function, the driver, and the datagrams that it sends.
pub record Answered : Type 0 where
  pub code : ℕ
  pub driver : AppleMidiDriver
  pub datagrams : List CommandDatagram

abbrev pub silent : AppleMidiDriver → ℕ → Answered
silent d code = record { code = code; driver = d; datagrams = [] }

-- `sentbytes` is compared with the length as an `int`.
abbrev took_all : ℤ → ℕ → Bool
took_all (pos n) len = n == len
took_all (negsuc n) len = false

abbrev pub send_on : AppleMidiDriver → ℕ → SockAddr → ℤ → List ℕ → Answered
send_on d socket to sent bytes = record {
  code = if took_all sent (length bytes) then 0 else 1;
  driver = d;
  datagrams = record { socket = socket; to = to; bytes = bytes } ∷ [];
}

-- Sockets are read one after the other: `none` if one that is read is NULL.
abbrev pub choose_socket : Option ℕ → Option ℕ → ℕ → Option (Option ℕ)
choose_socket none rtp sk = none
choose_socket (some control) none sk = if control == sk then some (some control) else none
choose_socket (some control) (some rtp) sk =
    if control == sk then some (some control) else if rtp == sk then some (some rtp) else some none

-- Without a socket nothing is sent, and 0 bytes are not the length.
abbrev pub send_from : AppleMidiDriver → SockAddr → ℤ → List ℕ → Option (Option ℕ) → Option Answered
send_from d to sent bytes none = none
send_from d to sent bytes (some none) = some (silent d 1)
send_from d to sent bytes (some (some socket)) = some (send_on d socket to sent bytes)

abbrev pub send_built : AppleMidiDriver → ℕ → Option SockAddr → ℤ → Built → Option Answered
send_built d sk to sent overflow = none
send_built d sk to sent refused = some (silent d 1)
send_built d sk none sent (built bytes) = some (silent d 1)
send_built d sk (some to) sent (built bytes) =
    send_from d to sent bytes (choose_socket d.control_socket d.rtp_socket sk)

-- `_applemidi_send_command`, with what `sock_sendmsg` answers. The address is `none` if its family
-- is not AF_INET. The result is `none` where the behaviour is undefined: a name that does not fit,
-- and a socket that is NULL.
unfoldable pub send_command : AppleMidiDriver → ℕ → Option SockAddr → ℤ → Command → Option Answered
send_command d sk to sent c = send_built d sk to sent (build_command c)

-- What reads both sockets, and is undefined if one is NULL.
abbrev pub with_sockets : Option ℕ → Option ℕ → (ℕ → ℕ → Option Answered) → Option Answered
with_sockets (some control) (some rtp) next = next control rtp
with_sockets _ _ next = none
