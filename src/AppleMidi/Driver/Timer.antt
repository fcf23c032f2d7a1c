-- ===== src/AppleMidi/Driver/Timer.antt =====
-- `_applemidi_idle_timeout` of applemidi/applemidi.c, which starts a synchronisation with the next
-- peer of the table.
pub mod Rounds
pub mod Dangling
use cmidid_kerneldriver.Base.{
  ℕ, Bool, true, false, List, [], ◌∷◌, Option, none, some, ℤ, ◌==◌, ◌||◌, if◌then◌else◌,
}
use cmidid_kerneldriver.AppleMidi.Rtp.Peer.{SockAddr, get_address}
use cmidid_kerneldriver.AppleMidi.Rtp.Table.{Slots, next_peer}
use cmidid_kerneldriver.AppleMidi.Command.{SyncData}
use cmidid_kerneldriver.AppleMidi.Sync.{start_sync}
use cmidid_kerneldriver.AppleMidi.Driver.{AppleMidiDriver, Answered, silent, sync_part}
use cmidid_kerneldriver.AppleMidi.Driver.Respond.{finish_sync, unlocked, after_packet}

-- What a timeout meets: whether another context holds the lock, the time on the clock, what
-- `sock_sendmsg` answers, and the synchronisation data that the driver's command holds.
pub record Tick : Type 0 where
  pub busy : Bool
  pub now : ℕ
  pub sent : ℤ
  pub union : SyncData

-- `RTPSessionNextPeer` leaves the pointer as it is if it is not in the table.
abbrev pub next_or_kept : Option ℕ → Option (Option ℕ) → Option ℕ
next_or_kept kept none = kept
next_or_kept kept (some next) = next

abbrev pub start_with : AppleMidiDriver → Tick → SockAddr → Option ℕ → Option Answered
start_with d t to none = none
start_with d t to (some rtp) =
    let s = start_sync (sync_part d) t.now t.union in finish_sync d rtp to t.sent s s.outcome

abbrev pub start_at : AppleMidiDriver → Tick → Option (ℕ × SockAddr) → Option Answered
start_at d t none = none
start_at d t (some (size, to)) = start_with d t to d.rtp_socket

abbrev pub start_peer : AppleMidiDriver → Tick → Option ℕ → Option Answered
start_peer d t none = some (silent d 0)
start_peer d t (some h) =
    if d.sync_state == 0 then start_at d t (get_address d.heap h) else some (silent d 0)

-- The driver with the next peer.
abbrev pub moved_on : AppleMidiDriver → Option (Option ℕ) → AppleMidiDriver
moved_on d next = record d { peer = next_or_kept d.peer next }

-- With the lock held.
abbrev pub timeout_locked : AppleMidiDriver → Tick → Option (Option ℕ) → Option Answered
timeout_locked d t next = start_peer (moved_on d next) t (next_or_kept d.peer next)

-- What the timer is set to, in milliseconds, and the rest of the function.
pub record TimedOut : Type 0 where
  pub delay : ℕ
  pub answered : Option Answered

-- `_applemidi_idle_timeout`; the code has no meaning. `none` is a peer that was freed, or no RTP
-- socket.
unfoldable pub idle_timeout : AppleMidiDriver → Tick → TimedOut
idle_timeout d t = record {
  delay = 1500;
  answered =
      if d.locked || t.busy
      then some (silent d 0)
      else (let held : AppleMidiDriver = record d { locked = true } in
          unlocked (timeout_locked held t (next_peer held.rtp.peers held.peer)));
}

-- Timeouts one after another, with no packet between them.
unfoldable pub timeouts : AppleMidiDriver → List Tick → Option Answered
timeouts d [] = some (silent d 0)
timeouts d (t ∷ ts) = after_packet (idle_timeout d t).answered (λ d'. timeouts d' ts)
