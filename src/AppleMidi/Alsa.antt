-- ===== src/AppleMidi/Alsa.antt =====
-- The ALSA port of the network driver, applemidi/alsa.c.
pub mod Note
pub mod Wire
pub mod Lock
pub mod Clients
use cmidid_kerneldriver.Base.{
  ℕ, Bool, true, false, List, [], ◌∷◌, ◌++◌, Option, none, some, ℤ, pos, negsuc, ◌+◌, ◌%◌, ◌^◌,
  ◌==◌, not, if◌then◌else◌,
}
use cmidid_kerneldriver.Base.Int.{is_negative, is_zero}
use cmidid_kerneldriver.AppleMidi.Message.{MessageData, Message, detect_format}
use cmidid_kerneldriver.AppleMidi.Rtp.Packet.{Answer, Datagram}
use cmidid_kerneldriver.AppleMidi.RtpMidi.{MidiSession}
use cmidid_kerneldriver.AppleMidi.RtpMidi.Session.{SentAll, send}
use cmidid_kerneldriver.AppleMidi.Driver.{AppleMidiDriver}

-- The members of `struct snd_seq_event` that are read, each an `unsigned char`.
pub record SeqEvent : Type 0 where
  pub type : ℕ
  pub channel : ℕ
  pub note : ℕ
  pub velocity : ℕ

-- `_alsa_input` waits for ever for a lock that is not given back, does something undefined, or
-- returns.
pub data Input : Type 0 where
  stuck : Input
  undefined : Input
  returned : ℕ → AppleMidiDriver → MidiSession → List Datagram → Input

-- The message that is filled in. The event's type gives the status.
abbrev pub note_message : ℕ → SeqEvent → Message
note_message status ev = record {
  format = detect_format (status + ev.channel % 2 ^ 4);
  content = record { byte_0 = status + ev.channel % 2 ^ 4; byte_1 = ev.note; byte_2 = ev.velocity };
  timestamp = 0;
}

abbrev pub finish_input : AppleMidiDriver → MidiSession → Option SentAll → Input
finish_input d s none = undefined
finish_input d s (some all) =
    returned 0 (record d { locked = false; heap = all.heap }) s all.datagrams

-- `RTPMIDISessionSend` of the one message; the code is not looked at.
abbrev pub send_note : AppleMidiDriver → MidiSession → Message → ℕ → (ℕ → Answer) → Input
send_note d s m w answers =
    let sent = send s d.rtp d.heap m [] w answers in finish_input d sent.0 sent.1

-- The branches on the type, with the lock held.
abbrev pub input_locked : AppleMidiDriver → MidiSession → SeqEvent → ℕ → (ℕ → Answer) → Input
input_locked d s ev w answers =
    if ev.type == 6
    then send_note d s (note_message 0x90 ev) w answers
    else if ev.type == 7
    then send_note d s (note_message 0x80 ev) w answers
    else returned 1 d s []

-- `_alsa_input`. `w` is what the encoder's uninitialised count holds.
unfoldable pub alsa_input : AppleMidiDriver → MidiSession → SeqEvent → ℕ → (ℕ → Answer) → Input
alsa_input d s ev w answers =
    if d.locked then stuck else input_locked (record d { locked = true }) s ev w answers

-- The calls of the set-up and of the removal of the client.
pub data AlsaCall : Type 0 where
  kmalloc_driver kmalloc_priv kfree_driver kfree_priv : AlsaCall
  snd_card_create : ℤ → AlsaCall
  snd_card_register : ℤ → AlsaCall
  snd_card_free : Option ℕ → AlsaCall
  snd_seq_create_kernel_client : ℤ → AlsaCall
  snd_seq_delete_kernel_client : ℤ → AlsaCall
  snd_seq_kernel_client_ctl : ℤ → ℤ → AlsaCall

-- What ALSA answers; `card` is what is stored through the pointer argument, if a card is created.
pub record ClientAnswers : Type 0 where
  pub card_create : ℤ
  pub card : Option ℕ
  pub client : ℤ
  pub client_ctl : ℤ
  pub card_register : ℤ

-- `struct ALSADriver`, its `priv` being allocated.
pub record AlsaDriver : Type 0 where
  pub card : Option ℕ
  pub client : ℤ

-- `_create_port`: the code and the call.
unfoldable pub create_port : ℤ → ℤ → ℤ × AlsaCall
create_port client answer =
    (if is_negative answer then negsuc 0 else pos 0, snd_seq_kernel_client_ctl client answer)

-- The labels `fail_card`, `fail_client` and `fail_port`.
abbrev fail_card : List AlsaCall
fail_card = kfree_priv ∷ kfree_driver ∷ []

abbrev fail_client : ClientAnswers → List AlsaCall
fail_client k = snd_card_free k.card ∷ fail_card

abbrev fail_port : ClientAnswers → List AlsaCall
fail_port k = snd_seq_delete_kernel_client k.client ∷ fail_client k

-- `ALSARegisterClient` with both blocks allocated: the driver, or NULL, and the calls.
unfoldable pub registered_client : ClientAnswers → Option AlsaDriver × List AlsaCall
registered_client k =
    let created = kmalloc_driver ∷ kmalloc_priv ∷ snd_card_create k.card_create ∷ [] in
    let asked = created ++ (snd_seq_create_kernel_client k.client ∷ []) in
    let (code, call) = create_port k.client k.client_ctl in
    let registered = asked ++ (call ∷ snd_card_register k.card_register ∷ []) in
    if is_negative k.card_create
    then (none, created ++ fail_card)
    else if is_negative k.client
    then (none, asked ++ fail_client k)
    else if is_negative code
    then (none, asked ++ (call ∷ fail_port k))
    else if is_negative k.card_register
    then (none, registered ++ fail_port k)
    else (some (record { card = k.card; client = k.client }), registered)

-- `ALSARegisterClient`, with whether `kmalloc` has memory for both blocks, which are written through
-- without a test.
unfoldable pub register_client : Bool → ClientAnswers → Option (Option AlsaDriver × List AlsaCall)
register_client memory k = if memory then some (registered_client k) else none

abbrev free_card : Option ℕ → List AlsaCall
free_card none = []
free_card (some card) = snd_card_free (some card) ∷ []

-- `ALSADeleteClient`.
unfoldable pub delete_client : Option AlsaDriver → List AlsaCall
delete_client none = []
delete_client (some d) =
    (if is_zero d.client then [] else snd_seq_delete_kernel_client d.client ∷ [])
    ++ (free_card d.card ++ (kfree_priv ∷ kfree_driver ∷ []))
