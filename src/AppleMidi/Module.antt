-- ===== src/AppleMidi/Module.antt =====
-- The life of the network driver: applemidi/midi.c, and `MIDIDriverAppleMIDICreate`,
-- `MIDIDriverAppleMIDIDestroy`, `mod_init` and `mod_exit` of applemidi/applemidi.c.
pub mod Lifecycle
use cmidid_kerneldriver.Base.{
  ℕ, Bool, true, false, List, [], ◌∷◌, ◌++◌, Option, none, some, ℤ, ◌+◌, ◌%◌, ◌^◌, ◌==◌,
  if◌then◌else◌, take,
}
use cmidid_kerneldriver.AppleMidi.Clock.{
  Clocks, Clock, get_clock, provide_clock, release_clock, get_now,
}
use cmidid_kerneldriver.AppleMidi.Rtp.Peer.{Heap}
use cmidid_kerneldriver.AppleMidi.Rtp.Packet.{Session, new_session, create_session, release_session}
use cmidid_kerneldriver.AppleMidi.RtpMidi.{MidiSession}
use cmidid_kerneldriver.AppleMidi.RtpMidi.Session as MidiSessions
use cmidid_kerneldriver.AppleMidi.Driver.{AppleMidiDriver}
use cmidid_kerneldriver.AppleMidi.Driver.Connect.{
  SocketCall, SocketAnswers, Connected, connect, Pass, Disconnected, disconnect,
}
use cmidid_kerneldriver.AppleMidi.Alsa.{
  AlsaCall, ClientAnswers, AlsaDriver, register_client, delete_client,
}

-- `struct MIDIDriver`. A clock is an index of the heap of clocks.
pub record MidiDriver : Type 0 where
  pub refs : ℕ
  pub port : Option AlsaDriver
  pub clock : Option ℕ

-- A driver with the clocks, and the calls made.
pub record Based : Type 0 where
  pub base : MidiDriver
  pub clocks : Clocks
  pub calls : List AlsaCall

abbrev pub based : Option (Option AlsaDriver × List AlsaCall) → Option (ℕ × Clocks) → Option Based
based none provided = none
based (some registered) none = none
based (some (port, calls)) (some (clock, clocks)) = some (record {
  base = record { refs = 1; port = port; clock = some clock };
  clocks = clocks;
  calls = calls;
})

-- `MIDIDriverInit`, with whether there is memory for the client and for the clock, what ALSA answers,
-- and what `ktime_get` returns; `none` as for the clock and the client.
unfoldable pub init_driver : Bool → Bool → ClientAnswers → ℕ → ℕ → Clocks → Option Based
init_driver alsa_memory clock_memory k rate t clocks =
    based (register_client alsa_memory k) (provide_clock clock_memory rate t clocks)

abbrev release_known : Clocks → Option ℕ → Clocks
release_known clocks none = clocks
release_known clocks (some h) = release_clock clocks h

-- `MIDIDriverDestroy`.
unfoldable pub destroy_driver : MidiDriver → Clocks → Based
destroy_driver d clocks = record {
  base = d;
  clocks = release_known clocks d.clock;
  calls = delete_client d.port;
}

-- `MIDIDriverRetain`.
unfoldable pub retain_driver : MidiDriver → MidiDriver
retain_driver d = record d { refs = (d.refs + 1) % 2 ^ 32 }

-- `MIDIDriverRelease`.
unfoldable pub release_driver : MidiDriver → Clocks → Based
release_driver d clocks =
    let d' : MidiDriver = record d { refs = (d.refs + 0xffffffff) % 2 ^ 32 } in
    if d'.refs == 0
    then destroy_driver d' clocks
    else record { base = d'; clocks = clocks; calls = [] }

-- `APPLEMIDI_CLOCK_RATE`.
abbrev pub clock_rate : ℕ
clock_rate = 10000

-- What the kernel answers to the creation of a driver: its blocks of memory, the times that
-- `ktime_get` returns, and the random SSRC.
pub record CreateAnswers : Type 0 where
  pub allocated : Bool
  pub alsa_memory : Bool
  pub alsa : ClientAnswers
  pub clock_memory : Bool
  pub clock_time : ℕ
  pub sockets : SocketAnswers
  pub random : ℕ
  pub rtp_memory : Bool
  pub rtp_buffer : Bool
  pub midi_allocated : Bool
  pub midi_buffer : Option (List ℕ)
  pub token_time : ℕ

-- The driver with its base, its MIDI session and the clocks; and the delay that its timer is set
-- to, `none` if there is no timer.
pub record Whole : Type 0 where
  pub driver : AppleMidiDriver
  pub base : MidiDriver
  pub midi : Option MidiSession
  pub clocks : Clocks
  pub timer : Option ℕ

-- `driver` is NULL if it cannot be allocated.
pub record Created : Type 0 where
  pub whole : Option Whole
  pub alsa_calls : List AlsaCall
  pub socket_calls : List SocketCall

-- A socket that is NULL is 0.
abbrev or_null : Option ℕ → ℕ
or_null none = 0
or_null (some s) = s

-- The driver before it is connected; the sessions are not there yet.
abbrev pub unconnected : CreateAnswers → ℕ → List ℕ → AppleMidiDriver
unconnected k port name = record {
  locked = false;
  control_socket = none;
  rtp_socket = none;
  port = port;
  accept = 0xff;
  sync_state = 0;
  token = 0;
  name = take 31 name;
  peer = none;
  rtp = new_session 0 k.random k.rtp_buffer;
  heap = [];
}

-- The RTP session, retained by the MIDI session if that is allocated.
abbrev pub with_midi : CreateAnswers → Option Session → Option (Option MidiSession × Session)
with_midi k none = none
with_midi k (some rtp) = some (elim (MidiSessions.create k.midi_allocated k.midi_buffer rtp) [
  | none ↦ (none, rtp)
  | some (midi, rtp') ↦ (some midi, rtp')
])

abbrev pub sessions : CreateAnswers → Option ℕ → Option (Option MidiSession × Session)
sessions k socket = with_midi k (create_session k.rtp_memory (or_null socket) k.random k.rtp_buffer)

abbrev clock_at : Based → Option Clock
clock_at b = elim b.base.clock [ none ↦ none | some h ↦ get_clock b.clocks h ]

abbrev token_of : ℕ → Option Clock → Option ℕ
token_of t none = none
token_of t (some c) = get_now c t

abbrev pub create_on :
    CreateAnswers
    → ℕ
    → List ℕ
    → Based
    → Connected
    → Option (Option MidiSession × Session)
    → Option ℕ
    → Option Created
create_on k port name b c none now = none
create_on k port name b c (some (midi, rtp)) none = none
create_on k port name b c (some (midi, rtp)) (some now) = some (record {
  whole = some (record {
    driver = record c.driver { rtp = rtp; token = now % 2 ^ 32 };
    base = b.base;
    midi = midi;
    clocks = b.clocks;
    timer = some 5000;
  });
  alsa_calls = b.calls;
  socket_calls = c.calls;
})

abbrev pub create_based : CreateAnswers → ℕ → List ℕ → Option Based → Option Created
create_based k port name none = none
create_based k port name (some b) =
    let c = connect k.sockets (unconnected k port name) in
    create_on k port name b c (sessions k c.driver.rtp_socket) (token_of k.token_time (clock_at b))

-- `MIDIDriverAppleMIDICreate`. The code of `_applemidi_connect` is not looked at. `none` is a
-- division by zero in the clock, and a block of memory that is not there and written to.
unfoldable pub create_apple_midi : CreateAnswers → ℕ → List ℕ → Clocks → Option Created
create_apple_midi k port name clocks =
    if k.allocated
    then create_based k port name
        (init_driver k.alsa_memory k.clock_memory k.alsa clock_rate k.clock_time clocks)
    else some (record { whole = none; alsa_calls = []; socket_calls = [] })

-- What is left when the driver is destroyed, and the calls.
pub record Destroyed : Type 0 where
  pub midi : Option MidiSession
  pub rtp : Option Session
  pub heap : Heap
  pub clocks : Clocks
  pub timer : Option ℕ
  pub alsa_calls : List AlsaCall
  pub socket_calls : List SocketCall

-- `RTPSessionRelease` after `RTPMIDISessionRelease`, which has released the session too.
abbrev release_rtp :
    Option MidiSession × Option Session × Heap → Option MidiSession × Option Session × Heap
release_rtp (midi, none, heap) = (midi, none, heap)
release_rtp (midi, some rtp, heap) =
    let (rtp', heap') = release_session rtp heap in (midi, rtp', heap')

abbrev pub release_sessions :
    Option MidiSession → Session → Heap → Option (Option MidiSession × Option Session × Heap)
release_sessions none rtp heap = none
release_sessions (some midi) rtp heap = some (release_rtp (MidiSessions.release midi rtp heap))

abbrev pub destroy_on :
    Whole → Disconnected → Option (Option MidiSession × Option Session × Heap) → Option Destroyed
destroy_on w d none = none
destroy_on w d (some (midi, rtp, heap)) =
    let b = release_driver w.base w.clocks in
    some (record {
      midi = midi;
      rtp = rtp;
      heap = heap;
      clocks = b.clocks;
      timer = none;
      alsa_calls = b.calls;
      socket_calls = d.calls;
    })

abbrev pub destroy_disconnected : Whole → Option Disconnected → Option Destroyed
destroy_disconnected w none = none
destroy_disconnected w (some d) =
    destroy_on w d (release_sessions w.midi d.driver.rtp d.driver.heap)

-- `MIDIDriverAppleMIDIDestroy`. `none` where a disconnect is undefined, and for a MIDI session that
-- is NULL, which is read.
unfoldable pub destroy_apple_midi : Whole → (ℕ → Pass) → Option Destroyed
destroy_apple_midi w passes = destroy_disconnected w (disconnect w.driver none passes)

-- "kernel".
abbrev kernel_name : List ℕ
kernel_name = 0x6b ∷ 0x65 ∷ 0x72 ∷ 0x6e ∷ 0x65 ∷ 0x6c ∷ []

-- `mod_init` with the module's parameter `port`: the code and `raspi`. `none` as for
-- `create_apple_midi`.
unfoldable pub mod_init : CreateAnswers → ℕ → Clocks → Option (ℕ × Created)
mod_init k port clocks = elim (create_apple_midi k (port % 2 ^ 16) kernel_name clocks) [
  | none ↦ none
  | some c ↦ elim c.whole [ none ↦ some (1, c) | some w ↦ some (0, c) ]
]

-- `mod_exit` with `raspi`; nothing is destroyed if it is NULL.
unfoldable pub mod_exit : Option Whole → (ℕ → Pass) → Option (Option Destroyed)
mod_exit none passes = some none
mod_exit (some w) passes = elim (destroy_apple_midi w passes) [
  | none ↦ none
  | some d ↦ some (some d)
]
