-- ===== src/AppleMidi/Message/Running.antt =====
-- Encoding and decoding with running status.
use cmidid_kerneldriver.Base.{
  ℕ, List, [], ◌∷◌, ◌++◌, none, some, ◌<◌, ◌≤◌, ◌≡◌, Bool-cases, inl, inr, arith, length,
}
use cmidid_kerneldriver.AppleMidi.Message.{
  MessageData, RunningStatus, check_encode_running_status, check_decode_running_status,
  update_running_status, encode_three_bytes, decode_three_bytes,
}

-- A channel message: a status byte below 0xf0 and two data bytes.
pub record IsChannel (m : MessageData) : Type 0 where
  pub status_low : 0x80 ≤ m.byte_0
  pub status_high : m.byte_0 < 0xf0
  pub data_1 : m.byte_1 < 0x80
  pub data_2 : m.byte_2 < 0x80

-- A channel message, with at least three bytes of room, is encoded, under any running status, to two or
-- three bytes; decoding these, with the same status and whatever follows, gives back the message,
-- reads exactly these bytes, and leaves the decoder with the encoder's status.
pub decode_three_bytes-encode_three_bytes :
    (m : MessageData) (s : RunningStatus) (size : ℕ)
    → IsChannel m
    → 3 ≤ size
    → (bytes : List ℕ) × (status : RunningStatus) × (encode_three_bytes m s size
        ≡ record { code = 0; status = status; bytes = some bytes })
      × (2 ≤ length bytes)
      × (length bytes ≤ 3)
      × ((rest : List ℕ)
          → decode_three_bytes s (length (bytes ++ rest)) (bytes ++ rest)
            ≡ record { code = 0; status = status; message = some (m, length bytes) })
unfolding encode_three_bytes decode_three_bytes check_encode_running_status
    check_decode_running_status update_running_status
decode_three_bytes-encode_three_bytes m none size c room = (
  m.byte_0 ∷ m.byte_1 ∷ m.byte_2 ∷ [],
  none,
  ground arith,
  omega arith,
  omega arith,
  λ rest. ground arith,
)
decode_three_bytes-encode_three_bytes m (some s) size c room =
    elim (Bool-cases (check_encode_running_status m.byte_0 (some s))) [
      | inl e ↦ (
        m.byte_1 ∷ m.byte_2 ∷ [],
        some s,
        ground arith,
        omega arith,
        omega arith,
        λ rest. ground arith,
      )
      | inr e ↦ (
        m.byte_0 ∷ m.byte_1 ∷ m.byte_2 ∷ [],
        some m.byte_0,
        ground arith,
        omega arith,
        omega arith,
        λ rest. ground arith,
      )
    ]
