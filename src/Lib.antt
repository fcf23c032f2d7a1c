-- ===== src/Lib.antt =====
-- cmidid: a Linux kernel driver for a keyboard made of buttons on the GPIO pins of a Raspberry Pi,
-- and a driver that sends MIDI over the network as AppleMIDI.
--
-- The keyboard driver is the module of module/. An interrupt of a button starts a timer, the timer
-- reads the button once it has settled, and the key's state machine sends note events to the ALSA
-- sequencer, with a velocity from the time between the two buttons of the key. An ioctl interface
-- calibrates the times, chooses the velocity curve and transposes. Its parts:
--
--   Keyboard/Kernel, Trace     the calls of the kernel as a trace, with what they answer
--   Keyboard/Midi              module/cmidid_midi.c: note events, transposition, set-up, clean-up
--   Keyboard/Gpio/State        module/cmidid_gpio.c: `struct key`, `struct cmidid_gpio_state`
--   Keyboard/Gpio/Velocity     `time_to_velocity` and its curves, on 32-bit arithmetic
--   Keyboard/Gpio/Buttons      `handle_button_event`; Alternation is about runs of events
--   Keyboard/Gpio/Irq          `irq_handler`, `timer_irq` and their searches; Debounce has the step
--                              relation of interrupts and timers
--   Keyboard/Gpio/Setup        `is_valid`, `cmidid_gpio_init`, `cmidid_gpio_exit`; Body and Loop follow
--                              the loop over the mapping, Outcome, Balance and Release its end
--   Keyboard/Module            module/cmidid_main.c: `cmidid_init`, `cmidid_exit`, `cmidid_ioctl`
--
-- The network driver is that of applemidi/. Its callback for the ALSA sequencer makes a note event a
-- MIDI message (alsa.c), which is encoded with running status (message.c) after its time difference;
-- the list of messages becomes the command section of a packet (rtpmidi.c), and the packet is sent to
-- every peer of the session's table (rtp.c). Peers join and leave by commands on two sockets, and a
-- timer synchronises the clocks with one peer after another (applemidi.c). A spin lock keeps the
-- three apart.
--
--   AppleMidi/Message          applemidi/message.c: encoding, decoding, properties of note messages
--   AppleMidi/Clock            applemidi/clock.c: fractions of 64 bits, clocks and the global clock
--   AppleMidi/Rtp/Peer         applemidi/rtp.c: peers with their reference counts, on a heap
--   AppleMidi/Rtp/Table        the table of 16 slots: add, remove, find, next; Sound and Tidy are about
--                              its pointers and the references that it holds, Roster about its
--                              addresses
--   AppleMidi/Rtp/Packet       the RTP header, sessions and `RTPSessionSendPacket`; Header has a reader
--                              of the format, Sequence the numbers of the packets
--   AppleMidi/RtpMidi          applemidi/rtpmidi.c: numbers of variable length (VarLen), the section
--                              header (CommandSection), the list of messages (Commands), sessions
--   AppleMidi/Command          applemidi/applemidi.c: session commands as datagrams, sent and received
--   AppleMidi/Sync             `_applemidi_sync`, `_applemidi_start_sync`; Exchange runs two drivers
--   AppleMidi/Driver           `struct MIDIDriverAppleMIDI`, the sending of a command
--   AppleMidi/Driver/Respond   `_applemidi_respond`, `_test_applemidi`, `_socket_callback`; Invitation
--                              and Goodbye are about a peer, Returns and Socket about any queue
--   AppleMidi/Driver/Members   what the peers see of the table: a multiset of addresses, which the
--                              handling of packets implements
--   AppleMidi/Driver/Connect   `_applemidi_connect`, `_applemidi_endsession`, `_applemidi_disconnect`
--   AppleMidi/Driver/Timer     `_applemidi_idle_timeout`, and its rounds through the table
--   AppleMidi/Alsa             applemidi/alsa.c: `_alsa_input` (Wire follows a note to the network, Lock
--                              the spin lock), `ALSARegisterClient`, `ALSADeleteClient`
--   AppleMidi/Module           applemidi/midi.c, and the driver's creation and destruction
--
-- Base holds what the models share, and Tests applies the theorems to concrete inputs.
--
-- Numbers are natural numbers, and the width of a C type is written out where the code can exceed
-- it: `% 2 ^ 8` for `unsigned char`, `% 2 ^ 32` for `unsigned int`, `unsigned long` and `size_t`,
-- as on the 32-bit ARM that the drivers are for. A `signed char` or a `ktime_t` is its bit pattern;
-- results and error codes of type `int` are of the type ℤ. Shifts and masks are quotients and
-- remainders. A pointer into an array is an index, a pointer to a peer an index of a heap. What is
-- undefined in C, a NULL pointer that is followed or a division by 0, is `none`.
--
-- The kernel is not part of the repository. What it answers (error codes, levels of GPIOs, the
-- time, memory, `sock_sendmsg`) is a parameter of the definitions, and any answer is allowed unless
-- a theorem says otherwise. Where the code writes through a block without a test, no memory for it
-- is `none`.
--
-- Loops are by recursion on the array, on the queue, or on the number of passes that are left: 16 for
-- the probe of the table of peers, 4 for the bytes of a number. The loops that divide by a prime have
-- 64 passes, enough for every number of 64 bits but 0. Only the loops of `RTPMIDISessionSend` and of
-- `_applemidi_disconnect` have other fuel: 17, one more than there are slots.
--
-- A handler of the network driver is one step: it holds the lock, or finds it taken. That another
-- context holds it is a parameter of the handlers that give up then. The driver's command is set by
-- every function before it is read; the members that keep older contents are arguments (the name of a
-- command without one, the data of a first synchronisation), as is what the stack holds where
-- `_applemidi_disconnect_peer` hands on the address of its local pointer.
--
-- Not modelled: the encoders of RTP extensions and padding, which no caller asks for and which write
-- through the address of a local pointer; interleavings inside a handler; the contents of port and client
-- names; log messages; the test program module/ioctl_test.c; and playground/, which is not part of
-- the drivers.
pub mod Base
pub mod Keyboard
pub mod AppleMidi
pub mod Tests
