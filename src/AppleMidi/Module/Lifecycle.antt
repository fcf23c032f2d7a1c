-- ===== src/AppleMidi/Module/Lifecycle.antt =====
-- The driver is created, receives packets, and is destroyed.
use cmidid_kerneldriver.Base.{
  ℕ, zero, suc, true, false, List, [], ◌∷◌, ◌++◌, none, some, pos, ◌+◌, ◌%◌, ◌^◌, ◌<◌, ◌≤◌, ◌≡◌,
  refl, ap, ◌∙◌, arith, ◌==◌, length, take, All, replicate,
}
use cmidid_kerneldriver.Base.Int.{is_zero}
use cmidid_kerneldriver.AppleMidi.Clock.{
  Clocks, Clock, get_clock, provide_clock, release_clock, get_now,
}
use cmidid_kerneldriver.AppleMidi.Rtp.Peer.{Heap, get_peer}
use cmidid_kerneldriver.AppleMidi.Rtp.Table.{Slots, slot}
use cmidid_kerneldriver.AppleMidi.Rtp.Table.Walk.{pointers}
use cmidid_kerneldriver.AppleMidi.Rtp.Table.Tidy.{IsTidy}
use cmidid_kerneldriver.AppleMidi.Rtp.Packet.{
  Session, new_session, create_session, retain_session, release_session, release_all,
}
use cmidid_kerneldriver.AppleMidi.RtpMidi.{MidiSession}
use cmidid_kerneldriver.AppleMidi.RtpMidi.Session as MidiSessions
use cmidid_kerneldriver.AppleMidi.Driver.{AppleMidiDriver, Answered}
use cmidid_kerneldriver.AppleMidi.Driver.Sending.{HasSockets}
use cmidid_kerneldriver.AppleMidi.Driver.Respond.{Moment, Packet, socket_callback}
use cmidid_kerneldriver.AppleMidi.Driver.Respond.Socket.{
  IsShortPacket, HoldsShortName, HasMemory, socket_callback-Returns,
}
use cmidid_kerneldriver.AppleMidi.Driver.Connect.{
  connect, Pass, sock_create, bind, set_callback, sock_release,
}
use cmidid_kerneldriver.AppleMidi.Driver.Connect.Sockets.{opened, closed}
use cmidid_kerneldriver.AppleMidi.Driver.Connect.Disconnect.{disconnect-empties}
use cmidid_kerneldriver.AppleMidi.Alsa.{
  ClientAnswers, register_client, registered_client, delete_client,
}
use cmidid_kerneldriver.AppleMidi.Alsa.Clients.{
  Resource, takes, frees, total, registered_client-delete_client,
}
use cmidid_kerneldriver.AppleMidi.Module.{
  CreateAnswers, Whole, Created, Destroyed, init_driver, create_apple_midi, release_sessions,
  release_driver, destroy_driver, destroy_on, destroy_disconnected, destroy_apple_midi, unconnected,
  clock_rate,
}

release_all-empty :
    (slots : Slots) (heap : Heap) → pointers slots ≡ [] → release_all slots heap ≡ heap
unfolding pointers release_all
release_all-empty [] heap e = refl
release_all-empty (none ∷ slots) heap e = release_all-empty slots heap e
release_all-empty (some h ∷ slots) heap e = absurd (cc)

-- Both references to the RTP session are given back, one by the MIDI session.
release_sessions-both :
    (midi : MidiSession) (rtp : Session) (heap : Heap)
    → midi.refs ≡ 1
    → rtp.refs ≡ 2
    → pointers rtp.peers ≡ []
    → release_sessions (some midi) rtp heap ≡ some (none, none, heap)
unfolding MidiSessions.release release_session
release_sessions-both midi rtp heap one two empty =
    let last : ((midi.refs + 4294967295) % 4294967296 == 0) ≡ true = ground arith in
    let first : ((rtp.refs + 4294967295) % 4294967296 == 0) ≡ false = ground arith in
    let second : (((rtp.refs + 4294967295) % 4294967296 + 4294967295) % 4294967296 == 0) ≡ true =
      ground arith in
    rw (last, first, second, release_all-empty rtp.peers heap empty) refl

null_slots : (n p : ℕ) → slot (replicate n none) p ≡ none
null_slots zero p = refl
null_slots (suc n) zero = refl
null_slots (suc n) (suc p) = null_slots n p

-- The table of a new session.
new-IsTidy : IsTidy (replicate 16 none) []
new-IsTidy = record {
  sound = record {
    full_length = refl;
    live = λ p h e. absurd (cc (null_slots 16 p, e));
    once = λ p q h e f. absurd (cc (null_slots 16 p, e));
  };
  owned = λ h peer e. absurd (cc);
}

length-take_le_count : (n : ℕ) (xs : List ℕ) → length (take n xs) ≤ n
length-take_le_count zero xs = omega arith
length-take_le_count (suc n) [] = omega arith
length-take_le_count (suc n) (x ∷ xs) = omega (arith, length-take_le_count n xs)

module _ (alsa : ClientAnswers) (clock_time token_time control rtp random : ℕ)
    (buffer : List ℕ) where
  -- What the kernel answers if all goes well: both sockets are created and bound, and all memory
  -- is allocated.
  abbrev pub answers : CreateAnswers
  answers = record {
    allocated = true;
    alsa_memory = true;
    alsa = alsa;
    clock_memory = true;
    clock_time = clock_time;
    sockets = record {
      control = some control;
      control_bind = pos 0;
      rtp = some rtp;
      rtp_bind = pos 0;
    };
    random = random;
    rtp_memory = true;
    rtp_buffer = true;
    midi_allocated = true;
    midi_buffer = some buffer;
    token_time = token_time;
  }

  -- The driver that is created, with the MIDI session.
  abbrev fresh_driver : ℕ → List ℕ → ℕ → AppleMidiDriver
  fresh_driver port name now = record (unconnected answers port name) {
    control_socket = some control;
    rtp_socket = some rtp;
    rtp = record (new_session rtp random true) { refs = 2 };
    token = now % 2 ^ 32;
  }

  abbrev fresh_midi : MidiSession
  fresh_midi = record {
    refs = 1;
    midi_info = record { journal = 0; zero_delta = 0; phantom = 0; len = 0 };
    size = 512;
    buffer = take 512 buffer;
  }

  abbrev fresh_whole : ℕ → List ℕ → ℕ → ℕ → Clocks → Whole
  fresh_whole port name now h clocks = record {
    driver = fresh_driver port name now;
    base = record { refs = 1; port = (registered_client alsa).0; clock = some h };
    midi = some fresh_midi;
    clocks = clocks;
    timer = some 5000;
  }

  abbrev fresh : ℕ → List ℕ → ℕ → ℕ → Clocks → Created
  fresh port name now h clocks = record {
    whole = some (fresh_whole port name now h clocks);
    alsa_calls = (registered_client alsa).1;
    socket_calls =
        sock_create (some control)
        ∷ bind control port (pos 0)
        ∷ set_callback control
        ∷ sock_create (some rtp)
        ∷ bind rtp ((port + 1) % 2 ^ 16) (pos 0)
        ∷ set_callback rtp
        ∷ [];
  }

  create-fresh :
      (port : ℕ) (name : List ℕ) (clocks clocks' : Clocks) (h now : ℕ) (clock : Clock)
      → provide_clock true 10000 clock_time clocks ≡ some (h, clocks')
      → get_clock clocks' h ≡ some clock
      → get_now clock token_time ≡ some now
      → create_apple_midi answers port name clocks ≡ some (fresh port name now h clocks')
  unfolding create_apple_midi init_driver connect create_session new_session register_client
      MidiSessions.create retain_session
  create-fresh port name clocks clocks' h now clock provided known told =
      rw (provided, known, told) refl

  -- The driver `d` in place of the one that was created.
  abbrev with_driver : Whole → AppleMidiDriver → Whole
  with_driver w d = record w { driver = d }

  destroy-fresh :
      (port : ℕ) (name : List ℕ) (now h : ℕ) (clocks : Clocks) (d : AppleMidiDriver)
      (passes : ℕ → Pass)
      → HasSockets d control rtp
      → length d.name < 48
      → IsTidy d.rtp.peers d.heap
      → d.rtp.refs ≡ 2
      → (r : Destroyed) × (destroy_apple_midi
            (with_driver (fresh_whole port name now h clocks) d)
            passes
          ≡ some r)
        × (r.midi ≡ none)
        × (r.rtp ≡ none)
        × ((g : ℕ) → get_peer r.heap g ≡ none)
        × (r.clocks ≡ release_clock clocks h)
        × (r.timer ≡ none)
        × (r.alsa_calls ≡ delete_client (registered_client alsa).0)
        × (r.socket_calls ≡ sock_release control ∷ sock_release rtp ∷ [])
  unfolding destroy_apple_midi release_driver destroy_driver
  destroy-fresh port name now h clocks d passes has short tidy refs =
      let w = with_driver (fresh_whole port name now h clocks) d in
      let (x, e, empty, freed, same, no_control, no_rtp, calls) =
        disconnect-empties control rtp d passes has short tidy in
      let gone =
        release_sessions-both fresh_midi x.driver.rtp x.driver.heap refl (same ∙ refs) empty in
      (
        record {
          midi = none;
          rtp = none;
          heap = x.driver.heap;
          clocks = release_clock clocks h;
          timer = none;
          alsa_calls = delete_client (registered_client alsa).0;
          socket_calls = x.calls;
        },
        ap (destroy_disconnected w) e ∙ ap (destroy_on w x) gone,
        refl,
        refl,
        freed,
        refl,
        refl,
        refl,
        calls,
      )

-- A driver that is created with everything allocated and both sockets bound, handles any queue of
-- packets of at most 63 bytes on any socket, and is destroyed: it is all defined, no peer, session,
-- timer or socket is left, the clock is given back, and what was taken from ALSA is too, be the
-- client registered or not. The conditions: at each packet there is memory for a peer, and the name
-- that the driver's command holds has less than 48 bytes; the clock is provided and tells the time;
-- ALSA stores a card, if it creates one, and gives no client the number 0.
pub create-destroy :
    (alsa : ClientAnswers) (clock_time token_time control rtp random : ℕ) (buffer : List ℕ)
    → let k = answers alsa clock_time token_time control rtp random buffer in
      (port : ℕ) (name : List ℕ) (clocks clocks' : Clocks) (h now card : ℕ) (clock : Clock)
      → provide_clock true clock_rate clock_time clocks ≡ some (h, clocks')
      → get_clock clocks' h ≡ some clock
      → get_now clock token_time ≡ some now
      → alsa.card ≡ some card
      → is_zero alsa.client ≡ false
      → (sk : ℕ) (queue : List (Moment × Packet)) → All IsShortPacket queue
      → All HoldsShortName queue
      → All HasMemory queue
      → (passes : ℕ → Pass)
      → (c : Created) × (w : Whole) × (a : Answered) × (r : Destroyed) × (create_apple_midi k port
            name clocks
          ≡ some c)
        × (c.whole ≡ some w)
        × (socket_callback w.driver sk queue ≡ some a)
        × (destroy_apple_midi (record w { driver = a.driver }) passes ≡ some r)
        × (r.midi ≡ none)
        × (r.rtp ≡ none)
        × ((g : ℕ) → get_peer r.heap g ≡ none)
        × (r.timer ≡ none)
        × (opened (c.socket_calls ++ r.socket_calls) ≡ closed (c.socket_calls ++ r.socket_calls))
        × (r.clocks ≡ release_clock clocks' h)
        × ((x : Resource)
            → total (frees x) (c.alsa_calls ++ r.alsa_calls)
              ≡ total (takes x) (c.alsa_calls ++ r.alsa_calls))
unfolding new_session
create-destroy alsa clock_time token_time control rtp random buffer port name clocks clocks' h now
      card clock provided known told stored named sk queue short old memory passes =
    let d = fresh_driver alsa clock_time token_time control rtp random buffer port name now in
    let w =
      fresh_whole alsa clock_time token_time control rtp random buffer port name now h clocks' in
    let made =
      create-fresh alsa clock_time token_time control rtp random buffer port name clocks clocks' h
        now clock provided known told in
    let has : HasSockets d control rtp = record { has_control = refl; has_rtp = refl } in
    let (a, handled, k) = socket_callback-Returns control rtp sk d has queue short old memory in
    let has' : HasSockets a.driver control rtp = record {
      has_control = k.control_kept;
      has_rtp = k.rtp_kept;
    } in
    let named_short : length a.driver.name < 48 =
      omega (arith, ap (length {A = ℕ}) k.name_kept, length-take_le_count 31 name) in
    let (r, destroyed, midi, gone, freed, clocks'', timer, alsa_calls, socket_calls) =
      destroy-fresh alsa clock_time token_time control rtp random buffer port name now h clocks'
        a.driver passes has' named_short (k.tidy_kept new-IsTidy) k.refs_kept in
    (
      fresh alsa clock_time token_time control rtp random buffer port name now h clocks',
      w,
      a,
      r,
      made,
      refl,
      handled,
      destroyed,
      midi,
      gone,
      freed,
      timer,
      rw socket_calls refl,
      clocks'',
      λ x. rw alsa_calls (registered_client-delete_client alsa card stored named x),
    )
