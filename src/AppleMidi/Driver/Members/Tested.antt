-- ===== src/AppleMidi/Driver/Members/Tested.antt =====
-- `_test_applemidi` drops no packet that has an effect.
use cmidid_kerneldriver.Base.{
  ℕ, Bool, true, false, List, some, pos, negsuc, ◌≤◌, ◌≡◌, ◌==◌, inl, inr, refl, if◌then◌else◌,
  Bool-cases, arith, length, ◌&&◌, ltb,
}
use cmidid_kerneldriver.Base.Int.{is_zero}
use cmidid_kerneldriver.AppleMidi.Rtp.Packet.Header.{be16, byte}
use cmidid_kerneldriver.AppleMidi.Command.{parse_type, bad, parse_command}
use cmidid_kerneldriver.AppleMidi.Driver.{AppleMidiDriver, silent}
use cmidid_kerneldriver.AppleMidi.Driver.Respond.{is_type, Moment, Packet, test_applemidi, receive}
use cmidid_kerneldriver.AppleMidi.Driver.Members.{keep, heard}

-- What is not sent on to the parser would be refused by it.
parse_type_unknown :
    (type : ℕ) (old b : List ℕ) → is_type type ≡ false → parse_type type old b ≡ bad
parse_type_unknown type old b e = ground arith

parse_type_short :
    (type : ℕ) (old b : List ℕ) → ltb (length b) 4 ≡ true → parse_type type old b ≡ bad
parse_type_short type old b e =
    let l : ltb (length b) 16 ≡ true = ground arith in
    let m : (length b == 36) ≡ false = ground arith in
    let n : (length b == 12) ≡ false = ground arith in rw (l, m, n) (ground arith)

verdict : Bool → Bool → Bool → Bool
verdict short signed typed =
    is_zero (if short then negsuc 0 else if signed && typed then pos 0 else pos 1)

refused_unknown : (typed : Bool) → verdict false true typed ≡ false → typed ≡ false
unfolding verdict
refused_unknown true e = absurd (cc)
refused_unknown false e = refl

passed_signed :
    (short signed typed : Bool)
    → verdict short signed typed ≡ true
    → (short ≡ false) × (signed ≡ true)
unfolding verdict
passed_signed true signed typed e = absurd (cc)
passed_signed false true typed e = (refl, refl)
passed_signed false false typed e = absurd (cc)

untested :
    (old b : List ℕ)
    → length b ≤ 63
    → is_zero (test_applemidi b) ≡ false
    → (be16 (byte b 0) (byte b 1) == 0xffff) ≡ true
    → parse_command old b ≡ bad
unfolding test_applemidi parse_command verdict
untested old b l e f =
    let type = be16 (byte b 2) (byte b 3) in
    let small : ltb 64 (length b) ≡ false = ground arith in
    elim (Bool-cases (ltb (length b) 4)) [
      | inl g ↦ rw small (parse_type_short type old b g)
      | inr g ↦
          rw small (parse_type_unknown type old b (refused_unknown (is_type type) (rw (g, f) at e)))
    ]

pub tested :
    (b : List ℕ)
    → is_zero (test_applemidi b) ≡ true
    → (ltb (length b) 4 ≡ false) × ((be16 (byte b 0) (byte b 1) == 0xffff) ≡ true)
unfolding test_applemidi verdict
tested b e = passed_signed _ _ (is_type (be16 (byte b 2) (byte b 3))) e

pub heard_untested :
    (rtp accept sk : ℕ) (m : Moment) (p : Packet)
    → length p.payload ≤ 63
    → is_zero (test_applemidi p.payload) ≡ false
    → heard rtp accept sk (m, p) ≡ keep
heard_untested rtp accept sk m p l e = elim (Bool-cases m.busy) [
  | inl b ↦ rw b refl
  | inr b ↦ elim (Bool-cases (be16 (byte p.payload 0) (byte p.payload 1) == 0xffff)) [
    | inl f ↦ rw (b, f, untested m.old_name p.payload l e f) refl
    | inr f ↦ rw (b, f) refl
  ]
]

pub receive_untested :
    (d : AppleMidiDriver) (sk : ℕ) (m : Moment) (p : Packet) (rtp : ℕ)
    → d.rtp_socket ≡ some rtp
    → is_zero (test_applemidi p.payload) ≡ false
    → receive d sk m p ≡ some (silent d 0)
unfolding receive
receive_untested d sk m p rtp has e = elim (Bool-cases (ltb (length p.payload) 4)) [
  | inl f ↦ rw f refl
  | inr f ↦ rw (f, e, has) refl
]
