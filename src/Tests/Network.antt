-- ===== src/Tests/Network.antt =====
-- The ALSA port and the life of the network driver, applemidi/alsa.c and applemidi/applemidi.c.
use cmidid_kerneldriver.Base.{
  ℕ, true, false, List, [], ◌∷◌, ◌++◌, none, some, pos, negsuc, ◌≡◌, inl, refl, arith, All,
  replicate, length-replicate,
}
use cmidid_kerneldriver.AppleMidi.Clock.{
  Clock, Clocks, provide_clock, retain_clock, release_clock, get_now, real_time,
}
use cmidid_kerneldriver.AppleMidi.Rtp.Peer.{get_peer}
use cmidid_kerneldriver.AppleMidi.Rtp.Table.Walk.{pointers}
use cmidid_kerneldriver.AppleMidi.Rtp.Packet.{Answer, Datagram}
use cmidid_kerneldriver.AppleMidi.RtpMidi.{MidiInfo, MidiSession}
use cmidid_kerneldriver.AppleMidi.RtpMidi.Session.Visits.{names}
use cmidid_kerneldriver.AppleMidi.Driver.{AppleMidiDriver, Answered, silent}
use cmidid_kerneldriver.AppleMidi.Driver.Respond.Socket.{IsDropped}
use cmidid_kerneldriver.AppleMidi.Driver.Respond.{Moment, Packet, socket_callback}
use cmidid_kerneldriver.AppleMidi.Driver.Timer.{Tick, idle_timeout}
use cmidid_kerneldriver.AppleMidi.Driver.Connect.Sockets.{opened, closed}
use cmidid_kerneldriver.AppleMidi.Alsa.{SeqEvent, stuck, returned, alsa_input, ClientAnswers}
use cmidid_kerneldriver.AppleMidi.Alsa.Wire.{IsRead, alsa_input-note}
use cmidid_kerneldriver.AppleMidi.Alsa.Lock.{alsa_input_stray}
use cmidid_kerneldriver.AppleMidi.Alsa.Clients.{Resource, takes, frees, total}
use cmidid_kerneldriver.AppleMidi.Module.{
  Whole, Created, Destroyed, create_apple_midi, destroy_apple_midi,
}
use cmidid_kerneldriver.AppleMidi.Module.Lifecycle.{answers, create-destroy}
use cmidid_kerneldriver.Tests.Driver.{driver, sock, queue, slots-IsDistinct}

abbrev nothing : MidiInfo
nothing = record { journal = 0; zero_delta = 0; phantom = 0; len = 0 }

abbrev midi : MidiSession
midi = record { refs = 1; midi_info = nothing; size = 512; buffer = replicate 512 0 }

-- A note on of the pitch 60, on the channel 2.
abbrev strike : SeqEvent
strike = record { type = 6; channel = 2; note = 60; velocity = 90 }

abbrev accepts : ℕ → Answer
accepts h = record { sent = pos 16; flags = 0 }

alsa_input-note_example :
    (d : AppleMidiDriver) × (s : MidiSession) × (ds : List Datagram) × (alsa_input driver midi
        strike 0 accepts
      ≡ returned 0 d s ds)
    × (d.locked ≡ false)
    × (names ds ≡ some (sock 5005) ∷ some (sock 5007) ∷ [])
    × All (IsRead driver.rtp (3 ∷ 0x92 ∷ 60 ∷ 90 ∷ [])) ds
unfolding pointers
alsa_input-note_example =
    alsa_input-note driver 1 nothing (replicate 512 0) strike 0x90 0 accepts refl (inl (refl, refl))
      (length-replicate {A = ℕ} 512 0) (omega arith) (omega arith) refl slots-IsDistinct
      ((_, refl), ((_, refl), tt))

abbrev control_change : SeqEvent
control_change = record { type = 10; channel = 2; note = 7; velocity = 0 }

alsa_input_stray_example :
    (d : AppleMidiDriver) × (alsa_input driver midi control_change 0 accepts ≡ returned 1 d midi [])
    × ((sk : ℕ) (packets : List (Moment × Packet)) → IsDropped d (socket_callback d sk packets))
    × ((t : Tick) → (idle_timeout d t).answered ≡ some (silent d 0))
    × ((ev : SeqEvent) (w : ℕ) → alsa_input d midi ev w accepts ≡ stuck)
alsa_input_stray_example =
    alsa_input_stray driver midi control_change 0 accepts refl (λ e. omega arith) (λ e. omega arith)

abbrev ticking : Clock
ticking = record { refs = 2; offset = 0; rate = 10000; frac = record { numer = 1; denom = 100000 } }

abbrev clocks : Clocks
clocks = record { heap = some ticking ∷ []; global = some 0 }

abbrev retained : Clocks
retained = record { heap = some (record ticking { refs = 3 }) ∷ []; global = some 0 }

provided : provide_clock true 10000 50 clocks ≡ some (0, retained)
unfolding provide_clock retain_clock
provided = refl

told : get_now (record ticking { refs = 3 }) 700000 ≡ some 7
unfolding get_now real_time
told = refl

-- The client cannot be created.
abbrev no_client : ClientAnswers
no_client = record {
  card_create = pos 0;
  card = some 1;
  client = negsuc 11;
  client_ctl = pos 0;
  card_register = pos 0;
}

create-destroy_example :
    (c : Created) × (w : Whole) × (a : Answered) × (r : Destroyed) × (create_apple_midi
        (answers no_client 50 700000 3 4 4096 [])
        5008
        (112 ∷ 105 ∷ [])
        clocks
      ≡ some c)
    × (c.whole ≡ some w)
    × (socket_callback w.driver 3 queue ≡ some a)
    × (destroy_apple_midi
          (record w { driver = a.driver })
          (λ left. record { garbage = none; sent = pos 0 })
        ≡ some r)
    × (r.midi ≡ none)
    × (r.rtp ≡ none)
    × ((g : ℕ) → get_peer r.heap g ≡ none)
    × (r.timer ≡ none)
    × (opened (c.socket_calls ++ r.socket_calls) ≡ closed (c.socket_calls ++ r.socket_calls))
    × (r.clocks ≡ release_clock retained 0)
    × ((x : Resource)
        → total (frees x) (c.alsa_calls ++ r.alsa_calls)
          ≡ total (takes x) (c.alsa_calls ++ r.alsa_calls))
create-destroy_example =
    create-destroy no_client 50 700000 3 4 4096 [] 5008 (112 ∷ 105 ∷ []) clocks retained 0 7 1
      (record ticking { refs = 3 }) provided refl told refl refl 3 queue
      (omega arith, (omega arith, tt)) (omega arith, (omega arith, tt)) (refl, (refl, tt))
      (λ left. record { garbage = none; sent = pos 0 })
