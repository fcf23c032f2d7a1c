-- ===== src/Tests/Driver.antt =====
-- The network driver with two peers in its table, applemidi/applemidi.c.
use cmidid_kerneldriver.Base.{
  ℕ, zero, suc, true, false, List, [], ◌∷◌, ◌++◌, none, some, pos, negsuc, ◌≡◌, ◌<◌, ◌⊎◌, inl, inr,
  refl, arith, replicate, set, map,
}
use cmidid_kerneldriver.AppleMidi.Rtp.Peer.{SockAddr, Peer, Heap, get_peer, create_peer, fresh_peer}
use cmidid_kerneldriver.AppleMidi.Rtp.Table.{Slots, slot, has_ssrc, find_peer_by_ssrc, probe}
use cmidid_kerneldriver.AppleMidi.Rtp.Table.Laws.{IsFull}
use cmidid_kerneldriver.AppleMidi.Rtp.Table.Walk.{IsDistinct, pointers}
use cmidid_kerneldriver.AppleMidi.Rtp.Table.Tidy.{IsTidy}
use cmidid_kerneldriver.AppleMidi.Rtp.Packet.{get_ssrc}
use cmidid_kerneldriver.AppleMidi.Command.{
  invitation, accepted, end_session, SessionData, session, built, build_command, parsed,
  parse_command,
}
use cmidid_kerneldriver.AppleMidi.Command.RoundTrip.{IsSendable, expected}
use cmidid_kerneldriver.AppleMidi.Driver.{AppleMidiDriver, Answered, silent}
use cmidid_kerneldriver.AppleMidi.Driver.Sending.{HasSockets}
use cmidid_kerneldriver.AppleMidi.Driver.Respond.{
  Packet, Moment, admit_peer, joined_driver, respond, receive, unlocked, socket_callback,
}
use cmidid_kerneldriver.AppleMidi.Driver.Respond.Invitation.{respond-invitation}
use cmidid_kerneldriver.AppleMidi.Driver.Respond.Goodbye.{respond-admit_peer}
use cmidid_kerneldriver.AppleMidi.Driver.Respond.Returns.{Returns}
use cmidid_kerneldriver.AppleMidi.Driver.Members.{Steps, members_of, heard}
use cmidid_kerneldriver.AppleMidi.Driver.Members.Refines.{socket_callback-Steps}
use cmidid_kerneldriver.AppleMidi.Driver.Respond.Framing.{receive-build_command}
use cmidid_kerneldriver.AppleMidi.Driver.Connect.{
  SocketAnswers, connect, Disconnected, sock_release, disconnect,
}
use cmidid_kerneldriver.AppleMidi.Driver.Connect.Sockets.{HasAllOrNone, connect_lem}
use cmidid_kerneldriver.AppleMidi.Driver.Connect.Disconnect.{disconnect-empties}
use cmidid_kerneldriver.AppleMidi.Driver.Timer.{Tick, idle_timeout, timeouts}
use cmidid_kerneldriver.AppleMidi.Driver.Timer.Rounds.{
  rounds, receivers, AreStarts, rounds-addresses,
}
use cmidid_kerneldriver.AppleMidi.Driver.Timer.Dangling.{timeouts-open, idle_timeout-end_session}

abbrev pub sock : ℕ → SockAddr
sock port = record { sin_addr = 0x0a000001; sin_port = port }

abbrev pub heap : Heap
heap = some (fresh_peer 19 16 (sock 5005)) ∷ some (fresh_peer 35 16 (sock 5007)) ∷ []

abbrev pub slots : Slots
slots = some 0 ∷ some 1 ∷ replicate 14 none

abbrev pub driver : AppleMidiDriver
driver = record {
  locked = false;
  control_socket = some 3;
  rtp_socket = some 4;
  port = 5008;
  accept = 0xff;
  sync_state = 0;
  token = 9;
  name = 112 ∷ 105 ∷ [];
  peer = none;
  rtp = record {
    refs = 2;
    socket = 4;
    self = record { ssrc = 4096; size = 16; addr = sock 0 };
    peers = slots;
    buflen = 512;
  };
  heap = heap;
}

driver-HasSockets : HasSockets driver 3 4
driver-HasSockets = record { has_control = refl; has_rtp = refl }

pub slots-IsDistinct : IsDistinct slots
slots-IsDistinct = ground arith

-- What stands in a slot.
slots_two : (p h : ℕ) → slot slots p ≡ some h → ((p ≡ 0) × (h ≡ 0)) ⊎ ((p ≡ 1) × (h ≡ 1))
slots_two zero h e = inl (refl, cc)
slots_two (suc zero) h e = inr (refl, cc)
slots_two (suc (suc p)) h e = absurd (cc (nulls 14 p, e))
  where
    nulls : (n p : ℕ) → slot (replicate n none) p ≡ none
    nulls zero p = refl
    nulls (suc n) zero = refl
    nulls (suc n) (suc p) = nulls n p

slots-owned :
    (h : ℕ) (peer : Peer)
    → get_peer heap h ≡ some peer
    → (p : ℕ) × (slot slots p ≡ some h) × (peer.refs ≡ 1)
slots-owned zero peer e = (0, refl, cc)
slots-owned (suc zero) peer e = (1, refl, cc)
slots-owned (suc (suc h)) peer e = absurd (cc)

slots-live : (p h : ℕ) → slot slots p ≡ some h → (peer : Peer) × (get_peer heap h ≡ some peer)
slots-live p h e = elim (slots_two p h e) [
  | inl (at, is) ↦ (fresh_peer 19 16 (sock 5005), rw is refl)
  | inr (at, is) ↦ (fresh_peer 35 16 (sock 5007), rw is refl)
]

slots-once : (p q h : ℕ) → slot slots p ≡ some h → slot slots q ≡ some h → p ≡ q
slots-once p q h e f = elim (slots_two p h e) [
  | inl (at, is) ↦ elim (slots_two q h f) [
    | inl (at', is') ↦ omega arith
    | inr (at', is') ↦ absurd (omega arith)
  ]
  | inr (at, is) ↦ elim (slots_two q h f) [
    | inl (at', is') ↦ absurd (omega arith)
    | inr (at', is') ↦ omega arith
  ]
]

slots-IsTidy : IsTidy slots heap
slots-IsTidy = record {
  sound = record { full_length = refl; live = slots-live; once = slots-once };
  owned = slots-owned;
}

abbrev hello : SessionData
hello = record { version = 2; token = 77; ssrc = 51; name = 109 ∷ [] }

abbrev welcome : SessionData
welcome = record { version = 2; token = 77; ssrc = 4096; name = 109 ∷ [] }

welcome-IsSendable : IsSendable (session accepted welcome)
unfolding IsSendable
welcome-IsSendable = (omega arith, omega arith, omega arith, omega arith, ((λ e. omega arith), _))

respond-invitation_example :
    (respond driver 4 (sock 5009) 100 (pos 18) false (session invitation hello) ≡ none)
    × (a : Answered) × (respond driver 4 (sock 5009) 100 (pos 18) true (session invitation hello)
        ≡ some a)
    × ((bytes : List ℕ) × (a.datagrams ≡ record { socket = 4; to = sock 5009; bytes = bytes } ∷ [])
        × (parse_command [] bytes ≡ parsed (expected [] (session accepted welcome))))
    × ((IsFull slots × (a.driver ≡ record driver { heap = heap ++ none ∷ [] }))
        ⊎ ((p : ℕ) × (p < 16)
            × (slot slots p ≡ none)
            × (a.driver ≡ record driver {
              rtp = record driver.rtp { peers = set slots p (some 2) };
              heap = heap ++ some (fresh_peer 51 16 (sock 5009)) ∷ [];
            })))
unfolding get_ssrc
respond-invitation_example =
    respond-invitation driver 3 4 (sock 5009) 100 (pos 18) hello [] driver-HasSockets
      (λ e. omega arith) welcome-IsSendable

slots-stranger : (p : ℕ) → p < 16 → has_ssrc heap 51 (slot slots p) ≡ false
slots-stranger p l = ground arith

slots-within : (p h : ℕ) → slot slots p ≡ some h → h < 2
slots-within p h e = elim (slots_two p h e) [
  | inl (at, is) ↦ omega arith
  | inr (at, is) ↦ omega arith
]

respond-admit_peer_example :
    respond
      (joined_driver driver 51 (sock 5009))
      3
      (sock 6000)
      200
      (negsuc 0)
      false
      (session end_session hello)
    ≡ some (silent (record driver { heap = heap ++ none ∷ [] }) 0)
unfolding admit_peer create_peer joined_driver
respond-admit_peer_example =
    respond-admit_peer driver (joined_driver driver 51 (sock 5009)) 51 (sock 5009) true refl refl
      slots-within slots-stranger 3 (sock 6000) 200 (negsuc 0) false hello refl

abbrev pub moment : Moment
moment = record { busy = false; now = 100; sent = pos 18; memory = true; old_name = [] }

receive-build_command_example :
    (bytes : List ℕ) × (build_command (session accepted welcome) ≡ built bytes)
    × (receive driver 3 moment (record { from = sock 5009; payload = bytes })
        ≡ unlocked (
            respond
              (record driver { locked = true })
              3
              (sock 5009)
              100
              (pos 18)
              true
              (expected [] (session accepted welcome))))
receive-build_command_example =
    receive-build_command driver 3 moment (sock 5009) (session accepted welcome) refl refl
      welcome-IsSendable

-- A goodbye of the peer 19, and a packet that is too short.
abbrev pub queue : List (Moment × Packet)
queue =
    (
      moment,
      record { from = sock 5005; payload = 255 ∷ 255 ∷ 0x42 ∷ 0x59 ∷ replicate 11 0 ++ 19 ∷ [] },
    )
    ∷ (moment, record { from = sock 5007; payload = 255 ∷ [] })
    ∷ []

-- An invitation of the peer 51 to the RTP port, and the goodbye.
abbrev visits : List (Moment × Packet)
visits =
    (
      moment,
      record { from = sock 5009; payload = 255 ∷ 255 ∷ 0x49 ∷ 0x4e ∷ replicate 11 0 ++ 51 ∷ [] },
    )
    ∷ queue

socket_callback-Steps_example :
    (a : Answered) × (socket_callback driver 4 visits ≡ some a)
    × Steps (members_of driver) (map (heard 4 0xff 4) visits) (members_of a.driver)
socket_callback-Steps_example =
    socket_callback-Steps 3 4 4 driver driver-HasSockets slots-IsTidy refl visits
      (omega arith, (omega arith, (omega arith, tt)))
      (omega arith, (omega arith, (omega arith, tt))) (refl, (refl, (refl, tt)))

abbrev closed_driver : AppleMidiDriver
closed_driver = record driver { control_socket = none; rtp_socket = none }

-- The second port is in use.
abbrev port_in_use : SocketAnswers
port_in_use = record { control = some 3; control_bind = pos 0; rtp = some 4; rtp_bind = negsuc 97 }

connect_example : HasAllOrNone (some 4) (connect port_in_use closed_driver)
connect_example = connect_lem port_in_use closed_driver refl refl

disconnect-empties_example :
    (r : Disconnected) × (disconnect driver none (λ left. record { garbage = none; sent = pos 0 })
      ≡ some r)
    × (pointers r.driver.rtp.peers ≡ [])
    × ((h : ℕ) → get_peer r.driver.heap h ≡ none)
    × (r.driver.rtp.refs ≡ 2)
    × (r.driver.control_socket ≡ none)
    × (r.driver.rtp_socket ≡ none)
    × (r.calls ≡ sock_release 3 ∷ sock_release 4 ∷ [])
disconnect-empties_example =
    disconnect-empties 3 4 driver (λ left. record { garbage = none; sent = pos 0 })
      driver-HasSockets (omega arith) slots-IsTidy

abbrev tick : ℕ → Tick
tick now = record {
  busy = false;
  now = now;
  sent = pos 36;
  union = record { ssrc = 0; count = 0; timestamp1 = 0; timestamp2 = 0; timestamp3 = 0 };
}

rounds-addresses_example :
    (a : Answered) × (rounds driver (tick 10 ∷ tick 15010 ∷ []) ≡ some a)
    × (receivers a.datagrams ≡ some (sock 5005) ∷ some (sock 5007) ∷ [])
    × AreStarts 4 4096 (tick 10 ∷ tick 15010 ∷ []) a.datagrams
unfolding pointers get_ssrc
rounds-addresses_example =
    rounds-addresses 3 4 driver (tick 10 ∷ tick 15010 ∷ []) slots-IsDistinct
      ((fresh_peer 19 16 (sock 5005), refl), ((fresh_peer 35 16 (sock 5007), refl), tt))
      (record {
        sockets = driver-HasSockets;
        unlocked_now = refl;
        synced = refl;
        known = omega arith;
      })
      refl refl
      (
        (refl, omega arith, omega arith, omega arith),
        ((refl, omega arith, omega arith, omega arith), tt),
      )

timeouts-open_example :
    (a : Answered) × (timeouts (record driver { sync_state = 1 }) (tick 10 ∷ tick 15010 ∷ [])
      ≡ some a)
    × (a.datagrams ≡ [])
    × (a.driver.sync_state ≡ 1)
timeouts-open_example =
    timeouts-open (record driver { sync_state = 1 }) (tick 10 ∷ tick 15010 ∷ []) (λ e. omega arith)

idle_timeout-end_session_example :
    (a : Answered) × (respond
        (record driver { peer = some 0 })
        3
        (sock 5005)
        100
        (pos 0)
        true
        (session end_session (record hello { ssrc = 19 }))
      ≡ some a)
    × (a.driver.peer ≡ some 0)
    × ((idle_timeout a.driver (tick 200)).answered ≡ none)
unfolding find_peer_by_ssrc probe
idle_timeout-end_session_example =
    idle_timeout-end_session (record driver { peer = some 0 }) 0 (fresh_peer 19 16 (sock 5005))
      (record hello { ssrc = 19 }) (tick 200) slots-IsTidy.sound refl refl refl refl refl refl refl
      3 (sock 5005) 100 (pos 0) true
