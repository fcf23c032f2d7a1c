-- ===== src/AppleMidi/Driver/Connect/Sockets.antt =====
-- The sockets that `_applemidi_connect` opens and closes.
use cmidid_kerneldriver.Base.{
  ℕ, suc, true, List, [], ◌∷◌, Option, none, some, ℤ, pos, negsuc, ◌≡◌, ◌⊎◌, inl, inr, refl, sym,
  ap, subst, ==_iff, Bool-cases,
}
use cmidid_kerneldriver.Base.Int.{is_zero}
use cmidid_kerneldriver.AppleMidi.Driver.{AppleMidiDriver}
use cmidid_kerneldriver.AppleMidi.Driver.Sending.{HasSockets}
use cmidid_kerneldriver.AppleMidi.Driver.Connect.{
  SocketCall, sock_create, bind, set_callback, sock_release, SocketAnswers, Connected, connect,
  create_rtp, connect_rtp, create_control, connect_control,
}

-- The sockets that the calls open and close, counted.
abbrev pub opened : List SocketCall → ℕ
opened [] = 0
opened (sock_create (some s) ∷ calls) = suc (opened calls)
opened (sock_create none ∷ calls) = opened calls
opened (bind s port code ∷ calls) = opened calls
opened (set_callback s ∷ calls) = opened calls
opened (sock_release s ∷ calls) = opened calls

abbrev pub closed : List SocketCall → ℕ
closed [] = 0
closed (sock_release s ∷ calls) = suc (closed calls)
closed (sock_create s ∷ calls) = closed calls
closed (bind s port code ∷ calls) = closed calls
closed (set_callback s ∷ calls) = closed calls

-- How it ends if the kernel's answer for the RTP socket is `rtp`.
abbrev pub HasAllOrNone : Option ℕ → Connected → Type 0
HasAllOrNone rtp r =
    ((c : ℕ) × (s : ℕ) × HasSockets r.driver c s
      × (r.code ≡ pos 0)
      × (opened r.calls ≡ 2)
      × (closed r.calls ≡ 0))
    ⊎ ((r.driver.control_socket ≡ none)
        × (r.driver.rtp_socket ≡ none)
        × (opened r.calls ≡ closed r.calls)
        × (is_zero r.code ≡ true → rtp ≡ none))

zero-eq : (z : ℤ) → is_zero z ≡ true → z ≡ pos 0
zero-eq (pos n) e = ap pos ((==_iff n 0).0 e)
zero-eq (negsuc n) e = absurd (cc)

create_rtp-HasAllOrNone :
    (d : AppleMidiDriver) (c : ℕ) (code : ℤ) (control : ℤ) (rtp : Option ℕ)
    → d.rtp_socket ≡ none
    → HasAllOrNone rtp (
        create_rtp code
          (record d { control_socket = some c })
          (sock_create (some c) ∷ bind c d.port control ∷ set_callback c ∷ [])
          rtp)
create_rtp-HasAllOrNone d c code control none no_rtp = inr (refl, no_rtp, refl, λ e. refl)
create_rtp-HasAllOrNone d c code control (some s) no_rtp = elim (Bool-cases (is_zero code)) [
  | inl e ↦
      rw e (inl (c, s, record { has_control = refl; has_rtp = refl }, zero-eq code e, refl, refl))
  | inr e ↦ rw e (inr (refl, refl, refl, λ f. absurd (cc (e, f))))
]

create_control-HasAllOrNone :
    (k : SocketAnswers) (d : AppleMidiDriver) (control : Option ℕ)
    → d.control_socket ≡ none
    → d.rtp_socket ≡ none
    → HasAllOrNone k.rtp (create_control k d control)
create_control-HasAllOrNone k d none no_control no_rtp =
    inr (no_control, no_rtp, refl, λ e. absurd (cc))
create_control-HasAllOrNone k d (some c) no_control no_rtp =
    elim (Bool-cases (is_zero k.control_bind)) [
      | inl e ↦
          let made = sock_create (some c) ∷ bind c d.port k.control_bind ∷ set_callback c ∷ [] in
          rw e (
            subst
              (λ o.
                HasAllOrNone k.rtp (connect_rtp k (record d { control_socket = some c }) made o))
              (sym no_rtp) (create_rtp-HasAllOrNone d c k.rtp_bind k.control_bind k.rtp no_rtp))
      | inr e ↦ rw e (inr (refl, no_rtp, refl, λ f. absurd (cc (e, f))))
    ]

-- `_applemidi_connect`, for a driver without sockets: either it has both then, the code is 0, and
-- nothing was closed; or it has none, every socket that was opened is closed again, and the code is
-- 0 only if the RTP socket could not be created.
pub connect_lem :
    (k : SocketAnswers) (d : AppleMidiDriver)
    → d.control_socket ≡ none
    → d.rtp_socket ≡ none
    → HasAllOrNone k.rtp (connect k d)
unfolding connect
connect_lem k d no_control no_rtp =
    subst (λ o. HasAllOrNone k.rtp (connect_control k d o)) (sym no_control)
      (create_control-HasAllOrNone k d k.control no_control no_rtp)
