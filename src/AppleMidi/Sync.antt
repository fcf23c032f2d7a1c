-- ===== src/AppleMidi/Sync.antt =====
-- The clock synchronisation of applemidi/applemidi.c. The differences of timestamps that it
-- computes are not used, and are left out.
pub mod Exchange
use cmidid_kerneldriver.Base.{
  ℕ, zero, suc, Bool, true, false, Option, none, some, ◌+◌, ◌==◌, ltb, ◌||◌, if◌then◌else◌,
}
use cmidid_kerneldriver.AppleMidi.Rtp.Peer.{Heap}
use cmidid_kerneldriver.AppleMidi.Rtp.Table.{Slots, find_peer_by_ssrc}
use cmidid_kerneldriver.AppleMidi.Command.{Command, SyncData, session, sync, feedback, unknown}

-- The members of `struct MIDIDriverAppleMIDI` that the synchronisation uses, with the SSRC, the
-- peers and the heap of its RTP session.
pub record Driver : Type 0 where
  pub sync_state : ℕ
  pub peer : Option ℕ
  pub ssrc : ℕ
  pub peers : Slots
  pub heap : Heap

-- The driver, the command, and what the function returns: the result of sending the command, or a
-- code.
pub data Outcome : Type 0 where
  sends : Outcome
  code : ℕ → Outcome

pub record Synced : Type 0 where
  pub driver : Driver
  pub command : Command
  pub outcome : Outcome

-- The first branch: a new synchronisation. The timestamps that are not set hold what is in the
-- union.
abbrev pub start_data : Driver → ℕ → SyncData → SyncData
start_data driver now d = record d { ssrc = driver.ssrc; count = 0; timestamp1 = now }

abbrev pub start_new : Driver → ℕ → SyncData → Synced
start_new driver now d = record {
  driver = record driver { sync_state = 1 };
  command = sync (start_data driver now d);
  outcome = sends;
}

-- `RTPSessionFindPeerBySSRC` stores a peer only if it finds one.
abbrev or_kept : Option ℕ → Option ℕ → Option ℕ
or_kept kept none = kept
or_kept kept (some h) = some h

abbrev pub found : Driver → ℕ → Driver
found driver ssrc = record driver {
  peer = or_kept driver.peer (find_peer_by_ssrc driver.peers driver.heap ssrc);
}

-- The second branch, by the count of the command.
abbrev continue_sync : Driver → ℕ → SyncData → Synced
continue_sync driver now d =
    let driver' = found driver d.ssrc in
    if d.count == 2
    then record {
      driver = record driver' { sync_state = 0 };
      command = sync (record d { ssrc = driver.ssrc; count = 3 });
      outcome = code 0;
    }
    else if d.count == 1
    then record {
      driver = record driver' { sync_state = 0 };
      command = sync (record d { ssrc = driver.ssrc; count = 2; timestamp3 = now });
      outcome = sends;
    }
    else if d.count == 0
    then record {
      driver = record driver' { sync_state = 2 };
      command = sync (record d { ssrc = driver.ssrc; count = 1; timestamp2 = now });
      outcome = sends;
    }
    else record { driver = driver'; command = sync d; outcome = code 1 }

-- `_applemidi_sync`, with the time on the clock. `union` is what a command of another type holds as
-- synchronisation data.
unfoldable pub sync_command : Driver → ℕ → SyncData → Command → Synced
sync_command driver now union (session type d) = start_new driver now union
sync_command driver now union (feedback d) = start_new driver now union
sync_command driver now union (unknown type) = start_new driver now union
sync_command driver now union (sync d) =
    if (d.ssrc == driver.ssrc) || ltb 2 d.count
    then start_new driver now d
    else continue_sync driver now d

-- `_applemidi_start_sync`: the command is made one of this driver with the count 3. The address is
-- left out.
unfoldable pub start_sync : Driver → ℕ → SyncData → Synced
start_sync driver now union =
    sync_command driver now union (sync (record union { ssrc = driver.ssrc; count = 3 }))
