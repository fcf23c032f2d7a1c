-- ===== src/AppleMidi/Message/Properties.antt =====
-- Setting and getting the properties of note messages.
use cmidid_kerneldriver.Base.{
  ℕ, true, false, none, some, ◌+◌, ◌*◌, ◌/◌, ◌%◌, ◌<◌, ◌≤◌, ◌≡◌, refl, sym, ◌≢◌, ◌⊎◌, inl, inr,
  ◌==◌, arith,
}
use cmidid_kerneldriver.Base.Bits.{bit_or_nibbles, and_low_nibble, and_low_seven}
use cmidid_kerneldriver.AppleMidi.Message.{
  MessageData, Property, midi_status, midi_channel, midi_key, midi_velocity, midi_other,
  set_note_off_on, get_note_off_on,
}

-- The range of a property's values.
pub bound : Property → ℕ
bound midi_status = 16
bound midi_channel = 16
bound midi_key = 128
bound midi_velocity = 128
bound midi_other = 0

others-byte_0 :
    (m : MessageData) (p q : Property) (b : ℕ)
    → (p ≡ midi_status) ⊎ (p ≡ midi_channel)
    → q ≢ p
    → (p ≡ midi_status → b % 16 ≡ m.byte_0 % 16)
    → (p ≡ midi_channel → b / 16 % 16 ≡ m.byte_0 / 16 % 16)
    → get_note_off_on (record m { byte_0 = b }) q 1 ≡ get_note_off_on m q 1
unfolding get_note_off_on
others-byte_0 m p midi_status b (inl e) n lo hi = absurd (n (sym e))
others-byte_0 m p midi_status b (inr e) n lo hi = rw (hi e) refl
others-byte_0 m p midi_channel b (inl e) n lo hi = rw (lo e) refl
others-byte_0 m p midi_channel b (inr e) n lo hi = absurd (n (sym e))
others-byte_0 m p midi_key b e n lo hi = refl
others-byte_0 m p midi_velocity b e n lo hi = refl
others-byte_0 m p midi_other b e n lo hi = refl

others-key :
    (m : MessageData) (q : Property) (b : ℕ)
    → q ≢ midi_key
    → get_note_off_on (record m { byte_1 = b }) q 1 ≡ get_note_off_on m q 1
unfolding get_note_off_on
others-key m midi_status b n = refl
others-key m midi_channel b n = refl
others-key m midi_key b n = absurd (n refl)
others-key m midi_velocity b n = refl
others-key m midi_other b n = refl

others-velocity :
    (m : MessageData) (q : Property) (b : ℕ)
    → q ≢ midi_velocity
    → get_note_off_on (record m { byte_2 = b }) q 1 ≡ get_note_off_on m q 1
unfolding get_note_off_on
others-velocity m midi_status b n = refl
others-velocity m midi_channel b n = refl
others-velocity m midi_key b n = refl
others-velocity m midi_velocity b n = absurd (n refl)
others-velocity m midi_other b n = refl

-- A property that is set is read back and no other property changes, if the value is in the
-- property's range; a value out of range, and a property that note messages do not have, is
-- refused. `value` and the first byte are bytes.
pub get_note_off_on-set_note_off_on :
    (m : MessageData) (p : Property) (value : ℕ)
    → m.byte_0 < 256
    → value < 256
    → (value < bound p
        → (m' : MessageData) × (set_note_off_on m p 1 value ≡ some m')
          × (get_note_off_on m' p 1 ≡ some value)
          × ((q : Property) → q ≢ p → get_note_off_on m' q 1 ≡ get_note_off_on m q 1))
      × (bound p ≤ value → set_note_off_on m p 1 value ≡ none)
unfolding bound set_note_off_on get_note_off_on
get_note_off_on-set_note_off_on m midi_status value b v =
    let low = and_low_nibble value v in
    (
      λ l.
          let fits : (value % 16 == value) ≡ true = ground arith in
          let shifted : value * 16 % 256 ≡ value * 16 = omega arith in
          let joined = bit_or_nibbles value (m.byte_0 % 16) l (omega arith) in
          let high : (value * 16 + m.byte_0 % 16) / 16 % 16 ≡ value = omega arith in
          let kept : (value * 16 + m.byte_0 % 16) % 16 ≡ m.byte_0 % 16 = omega arith in
          (
            record m { byte_0 = value * 16 + m.byte_0 % 16 },
            rw (low, fits, shifted, joined) refl,
            rw high refl,
            λ q n. others-byte_0 m midi_status q _ (inl refl) n (λ e. kept) (λ e. absurd (cc)),
          ),
      λ l. let out : (value % 16 == value) ≡ false = ground arith in rw (low, out) refl,
    )
get_note_off_on-set_note_off_on m midi_channel value b v =
    let low = and_low_nibble value v in
    (
      λ l.
          let fits : (value % 16 == value) ≡ true = ground arith in
          let same : value % 16 ≡ value = omega arith in
          let joined = bit_or_nibbles (m.byte_0 / 16) value (omega arith) l in
          let set_low : (m.byte_0 / 16 * 16 + value) % 16 ≡ value = omega arith in
          let kept : (m.byte_0 / 16 * 16 + value) / 16 % 16 ≡ m.byte_0 / 16 % 16 = omega arith in
          (
            record m { byte_0 = m.byte_0 / 16 * 16 + value },
            rw (low, fits, same, joined) refl,
            rw set_low refl,
            λ q n. others-byte_0 m midi_channel q _ (inr refl) n (λ e. absurd (cc)) (λ e. kept),
          ),
      λ l. let out : (value % 16 == value) ≡ false = ground arith in rw (low, out) refl,
    )
get_note_off_on-set_note_off_on m midi_key value b v =
    let low = and_low_seven value v in
    (
      λ l.
          let fits : (value % 128 == value) ≡ true = ground arith in
          (record m { byte_1 = value }, rw (low, fits) refl, refl, λ q n. others-key m q value n),
      λ l. let out : (value % 128 == value) ≡ false = ground arith in rw (low, out) refl,
    )
get_note_off_on-set_note_off_on m midi_velocity value b v =
    let low = and_low_seven value v in
    (
      λ l.
          let fits : (value % 128 == value) ≡ true = ground arith in
          (
            record m { byte_2 = value },
            rw (low, fits) refl,
            refl,
            λ q n. others-velocity m q value n,
          ),
      λ l. let out : (value % 128 == value) ≡ false = ground arith in rw (low, out) refl,
    )
get_note_off_on-set_note_off_on m midi_other value b v = (λ l. absurd (omega arith), λ l. refl)
