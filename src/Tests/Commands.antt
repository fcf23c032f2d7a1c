-- ===== src/Tests/Commands.antt =====
-- MIDI messages and their encodings, applemidi/message.c and applemidi/rtpmidi.c.
use cmidid_kerneldriver.Base.{ℕ, List, [], ◌∷◌, ◌++◌, some, ◌≡◌, ◌≤◌, arith, length, replicate}
use cmidid_kerneldriver.AppleMidi.Message.{
  MessageData, Message, RunningStatus, encode_three_bytes, decode_three_bytes, note_off_on,
}
use cmidid_kerneldriver.AppleMidi.Message.Running.{IsChannel, decode_three_bytes-encode_three_bytes}
use cmidid_kerneldriver.AppleMidi.RtpMidi.{MidiInfo, Cursor, write_var_len, encode_messages}
use cmidid_kerneldriver.AppleMidi.RtpMidi.VarLen.{read_var_len, read_var_len-write_var_len}

abbrev note : MessageData
note = record { byte_0 = 0x93; byte_1 = 60; byte_2 = 64 }

note-IsChannel : IsChannel note
note-IsChannel = record {
  status_low = omega arith;
  status_high = omega arith;
  data_1 = omega arith;
  data_2 = omega arith;
}

decode_three_bytes-encode_three_bytes_example :
    (bytes : List ℕ) × (status : RunningStatus) × (encode_three_bytes note (some 0x93) 512
      ≡ record { code = 0; status = status; bytes = some bytes })
    × (2 ≤ length bytes)
    × (length bytes ≤ 3)
    × ((rest : List ℕ)
        → decode_three_bytes (some 0x93) (length (bytes ++ rest)) (bytes ++ rest)
          ≡ record { code = 0; status = status; message = some (note, length bytes) })
decode_three_bytes-encode_three_bytes_example =
    decode_three_bytes-encode_three_bytes note (some 0x93) 512 note-IsChannel (omega arith)

read_var_len-write_var_len_example :
    (bytes : List ℕ) × (write_var_len 300 512 ≡ some bytes)
    × (1 ≤ length bytes)
    × (length bytes ≤ 4)
    × (read_var_len 0 (bytes ++ 0x90 ∷ []) ≡ some (300, 0x90 ∷ []))
read_var_len-write_var_len_example =
    read_var_len-write_var_len 300 512 (omega arith) (omega arith) (0x90 ∷ [])

abbrev info : MidiInfo
info = record { journal = 0; zero_delta = 1; phantom = 0; len = 20 }

abbrev message : ℕ → Message
message t = record { format = some note_off_on; content = note; timestamp = t }

abbrev written : MidiInfo × Cursor
written = encode_messages info 1000 (message 1000 ∷ message 1200 ∷ []) 512 (replicate 512 0) 0
