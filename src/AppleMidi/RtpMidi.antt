-- ===== src/AppleMidi/RtpMidi.antt =====
-- The MIDI payload of RTP packets, applemidi/rtpmidi.c. `size_t` has 32 bits. A buffer is a list of
-- bytes; shifts and masks are quotients and remainders, and `|` of operands that share no bit is a
-- sum.
pub mod VarLen
pub mod CommandSection
pub mod Commands
pub mod Session
use cmidid_kerneldriver.Base.{
  ℕ, zero, suc, Bool, true, false, List, [], ◌∷◌, Option, none, some, ◌+◌, ◌-◌, ◌/◌, ◌%◌, ◌^◌, ◌==◌,
  ltb, ◌&&◌, ◌||◌, not, if◌then◌else◌, get_or, set, drop, length, bit_or,
}
use cmidid_kerneldriver.Base.Flags.{flag}
use cmidid_kerneldriver.AppleMidi.Message.{
  Message, RunningStatus, Encoded, encode_running_status, get_timestamp,
}

-- `struct RTPMIDIInfo`.
pub record MidiInfo : Type 0 where
  pub journal : ℕ
  pub zero_delta : ℕ
  pub phantom : ℕ
  pub len : ℕ

-- The loop of `MIDIUtilWriteVarLen`: it ends after four passes, so `left` is 4 - p. The result is
-- `tmp` and the count p.
unfoldable pub var_len_loop : ℕ → ℕ → List ℕ → ℕ → List ℕ × ℕ
var_len_loop zero p tmp v = (tmp, p)
var_len_loop (suc left) p tmp v =
    let tmp' = set tmp (3 - p) (bit_or (get_or tmp (3 - p) 0) (v % 2 ^ 7)) in
    let rest = var_len_loop left (p + 1) tmp' (v / 2 ^ 7) in
    if not (v / 2 ^ 7 == 0) && ltb (p + 1) 4 then rest else (tmp', p + 1)

abbrev copy_out : ℕ → List ℕ × ℕ → Option (List ℕ)
copy_out size (tmp, p) = if ltb size p then none else some (drop (4 - p) tmp)

-- `MIDIUtilWriteVarLen`: the bytes written, or `none` for the code 1.
unfoldable pub write_var_len : ℕ → ℕ → Option (List ℕ)
write_var_len value size =
    copy_out size (var_len_loop 4 0 (0x80 ∷ 0x80 ∷ 0x80 ∷ 0x00 ∷ []) (value % 2 ^ 28))

-- `_rtpmidi_encode_header`: the bytes written, or `none` for the code 1.
unfoldable pub encode_header : MidiInfo → ℕ → Option (List ℕ)
encode_header info size =
    let flags = flag info.journal 0x40 + flag info.zero_delta 0x20 + flag info.phantom 0x10 in
    if ltb 0x0fff info.len
    then none
    else if ltb 0x0f info.len
    then if ltb size 2
      then none
      else some ((0x80 + flags + info.len / 2 ^ 8 % 2 ^ 4) ∷ info.len % 2 ^ 8 ∷ [])
    else if ltb size 1
    then none
    else some ((flags + info.len % 2 ^ 4) ∷ [])

-- A buffer with the place to write at, the size that is left, the last count written and the
-- running status.
pub record Cursor : Type 0 where
  pub buffer : List ℕ
  pub position : ℕ
  pub size : ℕ
  pub w : ℕ
  pub status : RunningStatus

unfoldable pub write_bytes : List ℕ → ℕ → List ℕ → List ℕ
write_bytes buffer position [] = buffer
write_bytes buffer position (b ∷ bytes) = write_bytes (set buffer position b) (position + 1) bytes

-- A write at the cursor: one that fails leaves the buffer and the count `w` as they are.
abbrev pub put : Cursor → Option (List ℕ) → Cursor
put c none = c
put c (some bytes) = record c { buffer = write_bytes c.buffer c.position bytes; w = length bytes }

-- `_advance_buffer` by the count `w`: the size wraps around.
abbrev pub advance : Cursor → Cursor
advance c = record c {
  position = c.position + c.w;
  size = (c.size + 2 ^ 32 - c.w % 2 ^ 32) % 2 ^ 32;
}

-- The codes of both writes are not looked at.
unfoldable pub put_var_len : ℕ → Cursor → Cursor
put_var_len value c = advance (put c (write_var_len value c.size))

unfoldable pub put_message : Message → Cursor → Cursor
put_message message c =
    let encoded = encode_running_status message c.status c.size in
    advance (record (put c encoded.bytes) { status = encoded.status })

unfoldable pub time_diff : ℕ → ℕ → ℕ
time_diff timestamp timestamp2 =
    if ltb timestamp timestamp2 then (timestamp2 - timestamp) % 2 ^ 32 else 0

-- The passes with m > 0: a time difference stands before every message.
unfoldable pub encode_rest : ℕ → List Message → Cursor → Cursor
encode_rest timestamp [] c = c
encode_rest timestamp (message ∷ messages) c =
    let difference = time_diff timestamp (get_timestamp message) in
    let rest : Cursor =
      encode_rest (get_timestamp message) messages
        (put_message message (put_var_len difference c)) in
    if c.size == 0 then c else rest

abbrev finish : MidiInfo → Cursor → MidiInfo × Cursor
finish info c = (record info { len = c.position }, c)

-- The pass with m = 0, where the flag tells whether there is a time difference.
abbrev pub encode_first : MidiInfo → ℕ → Message → List Message → Cursor → MidiInfo × Cursor
encode_first info timestamp message messages c =
    let difference = time_diff timestamp (get_timestamp message) in
    let info' : MidiInfo = record info { zero_delta = if difference == 0 then 0 else 1 } in
    let c' = if difference == 0 then c else put_var_len difference c in
    finish info' (encode_rest (get_timestamp message) messages (put_message message c'))

abbrev encode_all : MidiInfo → ℕ → List Message → Cursor → MidiInfo × Cursor
encode_all info timestamp [] c = finish info c
encode_all info timestamp (message ∷ messages) c = encode_first info timestamp message messages c

-- `_rtpmidi_encode_messages`, with a buffer and what the uninitialised `w` holds. The position is
-- the number of bytes written. No timestamp is negative.
unfoldable pub encode_messages : MidiInfo → ℕ → List Message → ℕ → List ℕ → ℕ → MidiInfo × Cursor
encode_messages info timestamp messages size buffer w =
    let c : Cursor = record {
      buffer = buffer;
      position = 0;
      size = size;
      w = w;
      status = some 0;
    } in
    if size == 0 then finish info c else encode_all info timestamp messages c

-- `struct RTPMIDISession`; the RTP session is the one that the driver has. The buffer is allocated
-- or NULL, with the size 0.
pub record MidiSession : Type 0 where
  pub refs : ℕ
  pub midi_info : MidiInfo
  pub size : ℕ
  pub buffer : List ℕ
