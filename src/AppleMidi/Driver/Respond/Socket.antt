-- ===== src/AppleMidi/Driver/Respond/Socket.antt =====
-- The queue of packets of `_socket_callback`: the lock is kept, and the driver survives every
-- queue of short packets.
use cmidid_kerneldriver.Base.{
  ℕ, Bool, true, false, List, [], ◌∷◌, Option, none, some, ℤ, ◌<◌, ◌≤◌, ◌≡◌, inl, inr, ◌⊎◌, refl,
  sym, ap, ◌∙◌, ltb, Bool-cases, Option-cases, length, ◌||◌, All,
}
use cmidid_kerneldriver.Base.Int.{is_zero}
use cmidid_kerneldriver.AppleMidi.Rtp.Peer.{SockAddr}
use cmidid_kerneldriver.AppleMidi.Command.{Parsed}
use cmidid_kerneldriver.AppleMidi.Driver.{AppleMidiDriver, Answered, silent}
use cmidid_kerneldriver.AppleMidi.Driver.Sending.{HasSockets}
use cmidid_kerneldriver.AppleMidi.Driver.Respond.{
  Packet, Moment, not_command, after_packet, test_applemidi, receive, socket_callback,
  respond_parsed, unlocked,
}
use cmidid_kerneldriver.AppleMidi.Driver.Respond.Usable.{
  IsUsable, refused_datagram, usable, parse_command-IsUsable,
}
use cmidid_kerneldriver.AppleMidi.Driver.Respond.Returns.{
  Returns, IsKept-refl, Returns-IsKept, respond-Returns,
}

-- What is dropped leaves the driver as it is; or a packet meets a driver without an RTP socket.
abbrev pub IsDropped : AppleMidiDriver → Option Answered → Type 0
IsDropped d r = (r ≡ some (silent d 0)) ⊎ ((d.rtp_socket ≡ none) × (r ≡ none))

more-IsDropped :
    (d : AppleMidiDriver) (r : Option Answered) (next : AppleMidiDriver → Option Answered)
    → IsDropped d r
    → IsDropped d (next d)
    → IsDropped d (after_packet r next)
more-IsDropped d r next (inl e) (inl f) = inl (rw (e, f) refl)
more-IsDropped d r next (inl e) (inr (n, f)) = inr (n, rw (e, f) refl)
more-IsDropped d r next (inr (n, e)) rest = inr (n, rw e refl)

not_command-IsDropped : (d : AppleMidiDriver) → IsDropped d (not_command d d.rtp_socket)
not_command-IsDropped d = elim (Option-cases d.rtp_socket) [
  | inl e ↦ inr (e, rw e refl)
  | inr (rtp, e) ↦ inl (rw e refl)
]

-- While the lock is held, every packet of the queue is dropped, or meets a driver without an RTP
-- socket.
pub socket_callback-locked :
    (d : AppleMidiDriver) (sk : ℕ) (queue : List (Moment × Packet))
    → d.locked ≡ true
    → IsDropped d (socket_callback d sk queue)
unfolding socket_callback receive
socket_callback-locked d sk [] held = inl refl
socket_callback-locked d sk ((m, p) ∷ queue) held =
    let rest = socket_callback-locked d sk queue held in
    more-IsDropped d _ (λ d'. socket_callback d' sk queue)
      (elim (Bool-cases (ltb (length p.payload) 4)) [
        | inl e ↦ inl (rw e refl)
        | inr e ↦ elim (Bool-cases (is_zero (test_applemidi p.payload))) [
          | inl f ↦ inl (simp (e, f, held))
          | inr f ↦ rw (e, f) (not_command-IsDropped d)
        ]
      ])
      rest

-- A packet of at most 63 bytes.
abbrev pub IsShortPacket : Moment × Packet → Type 0
IsShortPacket (m, p) = length p.payload ≤ 63

-- The driver's command holds a name of less than 48 bytes.
abbrev pub HoldsShortName : Moment × Packet → Type 0
HoldsShortName (m, p) = length m.old_name < 48

-- There is memory for a peer.
abbrev pub HasMemory : Moment × Packet → Type 0
HasMemory (m, p) = m.memory ≡ true

unlocked-Returns :
    (d : AppleMidiDriver) (r : Option Answered)
    → d.locked ≡ false
    → Returns (record d { locked = true }) r
    → Returns d (unlocked r)
unlocked-Returns d r free (a, e, k) = (
  _,
  ap unlocked e,
  record {
    control_kept = k.control_kept;
    rtp_kept = k.rtp_kept;
    accept_kept = k.accept_kept;
    lock_kept = sym free;
    name_kept = k.name_kept;
    refs_kept = k.refs_kept;
    tidy_kept = k.tidy_kept;
  },
)

respond_parsed-Returns :
    (d : AppleMidiDriver) (control rtp : ℕ)
    → HasSockets d control rtp
    → (sk : ℕ) (from : SockAddr) (now : ℕ) (sent : ℤ) {r : Parsed} → IsUsable r
    → Returns d (respond_parsed d sk from now sent true r)
respond_parsed-Returns d control rtp has sk from now sent refused_datagram =
    (_, refl, IsKept-refl d)
respond_parsed-Returns d control rtp has sk from now sent (usable c short) =
    respond-Returns control rtp d has sk from now sent c short

pub or_free : (b c : Bool) → (b || c) ≡ false → b ≡ false
or_free true c e = cc
or_free false c e = refl

module _ (control rtp sk : ℕ) where
  pub receive-Returns :
      (d : AppleMidiDriver)
      → HasSockets d control rtp
      → (m : Moment) (p : Packet) → IsShortPacket (m, p)
      → HoldsShortName (m, p)
      → HasMemory (m, p)
      → Returns d (receive d sk m p)
  unfolding receive
  receive-Returns d has m p short old memory =
      let dropped : Returns d (some (silent d 0)) = (_, refl, IsKept-refl d) in
      elim (Bool-cases (ltb (length p.payload) 4)) [
        | inl e ↦ rw e dropped
        | inr e ↦ elim (Bool-cases (is_zero (test_applemidi p.payload))) [
          | inr f ↦ rw (e, f) (_, ap (not_command d) has.has_rtp, IsKept-refl d)
          | inl f ↦ elim (Bool-cases (d.locked || m.busy)) [
            | inl g ↦ rw (e, f, g) dropped
            | inr g ↦
                let held : AppleMidiDriver = record d { locked = true } in
                let has' : HasSockets held control rtp = record {
                  has_control = has.has_control;
                  has_rtp = has.has_rtp;
                } in
                rw (e, f, g, memory)
                  (unlocked-Returns d _ (or_free d.locked m.busy g) (
                    respond_parsed-Returns held control rtp has' sk p.from m.now m.sent
                      (parse_command-IsUsable m.old_name p.payload short old)))
          ]
        ]
      ]

  pub socket_callback-Returns :
      (d : AppleMidiDriver)
      → HasSockets d control rtp
      → (queue : List (Moment × Packet)) → All IsShortPacket queue
      → All HoldsShortName queue
      → All HasMemory queue
      → Returns d (socket_callback d sk queue)
  unfolding socket_callback
  socket_callback-Returns d has [] short old memory = (_, refl, IsKept-refl d)
  socket_callback-Returns d has ((m, p) ∷ queue) (s, short) (o, old) (y, memory) =
      let (a, e, k) = receive-Returns d has m p s o y in
      let has' : HasSockets a.driver control rtp = record {
        has_control = k.control_kept ∙ has.has_control;
        has_rtp = k.rtp_kept ∙ has.has_rtp;
      } in
      let (b, f, k') = socket_callback-Returns a.driver has' queue short old memory in
      rw (e, f) (Returns-IsKept d a.driver _ k (_, refl, k'))
