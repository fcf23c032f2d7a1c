-- ===== src/AppleMidi/Message.antt =====
-- MIDI messages with running status, applemidi/message.c. A pointer to the running status is
-- `none` for NULL, and 0 stands for no status; shifts and masks of bytes are quotients and
-- remainders.
pub mod Running
pub mod Properties
use cmidid_kerneldriver.Base.{
  ℕ, zero, suc, Bool, true, false, List, [], ◌∷◌, Option, none, some, ◌+◌, ◌*◌, ◌/◌, ◌%◌, ◌==◌, ltb,
  leb, ◌&&◌, ◌||◌, not, if◌then◌else◌, get_or, bit_and, bit_or,
}

-- The first three bytes of `struct MIDIMessageData`. The fourth, `size` and `data` are not used.
pub record MessageData : Type 0 where
  pub byte_0 : ℕ
  pub byte_1 : ℕ
  pub byte_2 : ℕ

abbrev pub RunningStatus : Type 0
RunningStatus = Option ℕ

abbrev pub between : ℕ → ℕ → ℕ → Bool
between lo hi b = leb lo b && leb b hi

-- `_check_encode_running_status`.
unfoldable pub check_encode_running_status : ℕ → RunningStatus → Bool
check_encode_running_status byte none = false
check_encode_running_status byte (some status) =
    if status == 0 then false else if between 0x80 0xef byte then byte == status else false

-- `_check_decode_running_status`.
unfoldable pub check_decode_running_status : ℕ → RunningStatus → Bool
check_decode_running_status byte none = false
check_decode_running_status byte (some status) = if status == 0 then false else ltb byte 0x80

-- `_update_running_status`: the code and the status.
unfoldable pub update_running_status : MessageData → RunningStatus → ℕ × RunningStatus
update_running_status m none = (0, none)
update_running_status m (some status) =
    if between 0x80 0xef m.byte_0
    then (0, some m.byte_0)
    else if between 0xf0 0xf7 m.byte_0
    then (0, some 0)
    else if between 0xf8 0xff m.byte_0
    then (0, some status)
    else (1, some status)

-- The code, the status, and the bytes written; `none` if the buffer and `*written` are left as
-- they are.
pub record Encoded : Type 0 where
  pub code : ℕ
  pub status : RunningStatus
  pub bytes : Option (List ℕ)

abbrev encode_whole : MessageData → ℕ → ℕ × RunningStatus → Encoded
encode_whole m size (updated, status) =
    if updated == 0
    then if ltb size 3
      then record { code = 1; status = status; bytes = none }
      else record { code = 0; status = status; bytes = some (m.byte_0 ∷ m.byte_1 ∷ m.byte_2 ∷ []) }
    else record { code = 0; status = status; bytes = none }

-- `_encode_three_bytes`.
unfoldable pub encode_three_bytes : MessageData → RunningStatus → ℕ → Encoded
encode_three_bytes m status size =
    if check_encode_running_status m.byte_0 status
    then if ltb size 2
      then record { code = 1; status = status; bytes = none }
      else record { code = 0; status = status; bytes = some (m.byte_1 ∷ m.byte_2 ∷ []) }
    else encode_whole m size (update_running_status m status)

-- The code, the status, and the message and the number of bytes read; `none` if they are left as
-- they are.
pub record Decoded : Type 0 where
  pub code : ℕ
  pub status : RunningStatus
  pub message : Option (MessageData × ℕ)

abbrev finish_decode : MessageData → ℕ → ℕ × RunningStatus → Decoded
finish_decode m read (code, status) = record {
  code = code;
  status = status;
  message = some (m, read);
}

abbrev or_zero : RunningStatus → ℕ
or_zero none = 0
or_zero (some status) = status

-- `_decode_three_bytes`: the buffer may hold fewer bytes than `size` says, and a read past its end
-- gives 0.
unfoldable pub decode_three_bytes : RunningStatus → ℕ → List ℕ → Decoded
decode_three_bytes status size buffer =
    let byte_0 = get_or buffer 0 0 in
    let byte_1 = get_or buffer 1 0 in
    let running : MessageData = record {
      byte_0 = or_zero status;
      byte_1 = byte_0;
      byte_2 = byte_1;
    } in
    let whole : MessageData = record {
      byte_0 = byte_0;
      byte_1 = byte_1;
      byte_2 = get_or buffer 2 0;
    } in
    if check_decode_running_status byte_0 status
    then if ltb size 2
      then record { code = 1; status = status; message = none }
      else finish_decode running 2 (update_running_status running status)
    else if ltb size 3
    then record { code = 1; status = status; message = none }
    else finish_decode whole 3 (update_running_status whole status)

-- `_test_note_off_on`, on the first byte of the buffer.
unfoldable pub test_note_off_on : ℕ → Bool
test_note_off_on byte = (bit_and byte 0xf0 == 0x80) || (bit_and byte 0xf0 == 0x90)

-- A `MIDIProperty`: the four that note messages have, and the others.
pub data Property : Type 0 where
  midi_status : Property
  midi_channel : Property
  midi_key : Property
  midi_velocity : Property
  midi_other : Property

-- `_set_note_off_on`: the message, or `none` for the code 1. `size` is the size of the memory
-- object, in which a value of one byte stands, as its bit pattern.
unfoldable pub set_note_off_on : MessageData → Property → ℕ → ℕ → Option MessageData
set_note_off_on m midi_status size value =
    if (size == 1) && (bit_and value 0x0f == value)
    then some (record m { byte_0 = bit_or (value * 16 % 256) (m.byte_0 % 16) })
    else none
set_note_off_on m midi_channel size value =
    if (size == 1) && (bit_and value 0x0f == value)
    then some (record m { byte_0 = bit_or (m.byte_0 / 16 * 16) (value % 16) })
    else none
set_note_off_on m midi_key size value =
    if (size == 1) && (bit_and value 0x7f == value)
    then some (record m { byte_1 = value })
    else none
set_note_off_on m midi_velocity size value =
    if (size == 1) && (bit_and value 0x7f == value)
    then some (record m { byte_2 = value })
    else none
set_note_off_on m midi_other size value = none

-- `_get_note_off_on`: the value, or `none` for the code 1.
unfoldable pub get_note_off_on : MessageData → Property → ℕ → Option ℕ
get_note_off_on m midi_status size = if size == 1 then some (m.byte_0 / 16 % 16) else none
get_note_off_on m midi_channel size = if size == 1 then some (m.byte_0 % 16) else none
get_note_off_on m midi_key size = if size == 1 then some m.byte_1 else none
get_note_off_on m midi_velocity size = if size == 1 then some m.byte_2 else none
get_note_off_on m midi_other size = none

-- `struct MIDIMessageFormat`: the one format that there is.
pub data Format : Type 0 where
  note_off_on : Format

-- `MIDIMessageFormatDetect`.
unfoldable pub detect_format : ℕ → Option Format
detect_format byte = if test_note_off_on byte then some note_off_on else none

-- `struct MIDIMessage`; a `MIDITimestamp` is its bit pattern below 2^64.
pub record Message : Type 0 where
  pub format : Option Format
  pub content : MessageData
  pub timestamp : ℕ

-- `MIDIMessageFormatEncodeRunningStatus`.
unfoldable pub format_encode_running_status :
    Option Format → MessageData → RunningStatus → ℕ → Encoded
format_encode_running_status none m status size = record { code = 1; status = status; bytes = none }
format_encode_running_status (some note_off_on) m status size = encode_three_bytes m status size

-- `MIDIMessageEncodeRunningStatus`.
unfoldable pub encode_running_status : Message → RunningStatus → ℕ → Encoded
encode_running_status m status size = format_encode_running_status m.format m.content status size

-- `MIDIMessageSetTimestamp` and `MIDIMessageGetTimestamp`.
unfoldable pub set_timestamp : Message → ℕ → Message
set_timestamp m timestamp = record m { timestamp = timestamp }

unfoldable pub get_timestamp : Message → ℕ
get_timestamp m = m.timestamp
