-- ===== src/AppleMidi/Driver/Members/Refines.antt =====
-- The driver implements the steps of its members.
use cmidid_kerneldriver.Base.{
  ℕ, true, false, List, [], ◌∷◌, Option, some, ℤ, ◌<◌, ◌≡◌, ◌==◌, inl, inr, refl, sym, ap, ◌∙◌,
  subst, Bool-cases, length, map, All,
}
use cmidid_kerneldriver.Base.Int.{is_zero}
use cmidid_kerneldriver.AppleMidi.Rtp.Peer.{SockAddr, create_peer}
use cmidid_kerneldriver.AppleMidi.Rtp.Table.Tidy.{IsTidy}
use cmidid_kerneldriver.AppleMidi.Command.{
  invitation, accepted, rejected, end_session, SessionData, Command, session, sync, feedback,
  unknown, Parsed,
}
use cmidid_kerneldriver.AppleMidi.Sync.{Outcome, sends, code, Synced, sync_command}
use cmidid_kerneldriver.AppleMidi.Driver.{AppleMidiDriver, Answered, sync_part, send_command}
use cmidid_kerneldriver.AppleMidi.Driver.Sending.{HasSockets, with_sockets_lem}
use cmidid_kerneldriver.AppleMidi.Driver.Respond.Usable.{
  IsShort, IsUsable, refused_datagram, usable, parse_command-IsUsable,
}
use cmidid_kerneldriver.AppleMidi.Driver.Respond.Socket.{
  IsShortPacket, HoldsShortName, HasMemory, receive-Returns,
}
use cmidid_kerneldriver.AppleMidi.Driver.Respond.Returns.{
  IsKept, IsSyncing, sync_command-IsSyncing, send_command-driver,
}
use cmidid_kerneldriver.AppleMidi.Driver.Respond.{
  Moment, Packet, test_applemidi, receive, socket_callback, unlocked, respond_parsed, joined_driver,
  admit_peer, respond, answer_invitation, after_sync, finish_sync,
}
use cmidid_kerneldriver.AppleMidi.Driver.Members.{
  Effect, keep, Step, kept, effect, members_of, Steps, done, next, parsed_effect, heard,
}
use cmidid_kerneldriver.AppleMidi.Driver.Members.Tested.{tested, heard_untested, receive_untested}
use cmidid_kerneldriver.AppleMidi.Driver.Members.Requests.{joined_driver-Step, removed-Step}

-- The response to a command: what it does to the members is a step for the command's effect.
module _ (control rtp : ℕ) (d : AppleMidiDriver) (has : HasSockets d control rtp)
    (tidy : IsTidy d.rtp.peers d.heap) (sk : ℕ) (from : SockAddr) (now : ℕ) (sent : ℤ) where
  abbrev Responds : Effect → Option Answered → Type 0
  Responds e r = (a : Answered) × (r ≡ some a) × Step (members_of d) e (members_of a.driver)

  sending :
      (d' : AppleMidiDriver) (e : Effect) (c : Command)
      → HasSockets d' control rtp
      → IsShort c
      → Step (members_of d) e (members_of d')
      → Responds e (send_command d' sk (some from) sent c)
  sending d' e c has' short step =
      let (a, sent_on, same) =
        send_command-driver d' control rtp has' sk (some from) sent c short in
      (
        a,
        sent_on,
        subst (λ (x : AppleMidiDriver). Step (members_of d) e (members_of x)) (sym same) step,
      )

  has_still : (ssrc : ℕ) → HasSockets (joined_driver d ssrc from) control rtp
  unfolding joined_driver
  has_still ssrc = record { has_control = has.has_control; has_rtp = has.has_rtp }

  answering :
      (s : SessionData)
      → length s.name < 48
      → Responds
          (effect rtp d.accept sk from (session invitation s))
          (answer_invitation d rtp sk from sent true s)
  unfolding admit_peer create_peer joined_driver
  answering s short = elim (Bool-cases (d.accept == 0)) [
    | inl e ↦ rw e (sending d keep _ has short kept)
    | inr e ↦ elim (Bool-cases (sk == rtp)) [
      | inl f ↦
          rw (e, f)
            (sending _ _ _ (has_still s.ssrc) short (joined_driver-Step d s.ssrc from tidy.sound))
      | inr f ↦ rw (e, f) (sending d keep _ has short kept)
    ]
  ]

  finishing :
      (s : Synced) → IsSyncing s → (o : Outcome) → Responds keep (finish_sync d sk from sent s o)
  finishing s (t, e) sends =
      let has' : HasSockets (after_sync d s) control rtp = record {
        has_control = has.has_control;
        has_rtp = has.has_rtp;
      } in
      subst (λ (c : Command). Responds keep (send_command (after_sync d s) sk (some from) sent c))
        (sym e) (sending (after_sync d s) keep (sync t) has' _ kept)
  finishing s i (code n) = (_, refl, kept)

  pub respond-Step :
      (c : Command)
      → IsShort c
      → Responds (effect rtp d.accept sk from c) (respond d sk from now sent true c)
  unfolding respond
  respond-Step (session invitation s) short =
      subst (Responds (effect rtp d.accept sk from (session invitation s)))
        (sym (
          with_sockets_lem d.control_socket d.rtp_socket control rtp
            (λ c r. answer_invitation d r sk from sent true s) has.has_control has.has_rtp))
        (answering s short)
  respond-Step (session accepted s) short = (_, refl, kept)
  respond-Step (session rejected s) short = (_, refl, kept)
  respond-Step (session end_session s) short = (_, refl, removed-Step d s.ssrc tidy.sound)
  respond-Step (sync t) short =
      let s = sync_command (sync_part d) now t (sync t) in
      finishing s (sync_command-IsSyncing d now t) s.outcome
  respond-Step (feedback f) short = (_, refl, kept)
  respond-Step (unknown type) short = (_, refl, kept)

some-eq : {a b : Answered} → some a ≡ some b → a ≡ b
some-eq e = cc

module _ (control rtp sk : ℕ) where
  -- What the response does, once more with the lock held.
  parsed-Step :
      (d : AppleMidiDriver)
      → HasSockets d control rtp
      → IsTidy d.rtp.peers d.heap
      → (from : SockAddr) (now : ℕ) (sent : ℤ) {r : Parsed} → IsUsable r
      → (a : Answered) × (respond_parsed d sk from now sent true r ≡ some a)
        × Step (members_of d) (parsed_effect rtp d.accept sk from r) (members_of a.driver)
  parsed-Step d has tidy from now sent refused_datagram = (_, refl, kept)
  parsed-Step d has tidy from now sent (usable c short) =
      respond-Step control rtp d has tidy sk from now sent c short

  receive-Step :
      (d : AppleMidiDriver)
      → HasSockets d control rtp
      → IsTidy d.rtp.peers d.heap
      → d.locked ≡ false
      → (m : Moment) (p : Packet) → IsShortPacket (m, p)
      → HoldsShortName (m, p)
      → HasMemory (m, p)
      → (a : Answered) × (receive d sk m p ≡ some a)
        × Step (members_of d) (heard rtp d.accept sk (m, p)) (members_of a.driver)
  unfolding receive
  receive-Step d has tidy free m p short old memory =
      elim (Bool-cases (is_zero (test_applemidi p.payload))) [
        | inr e ↦
            rw (heard_untested rtp d.accept sk m p short e)
              (_, receive_untested d sk m p rtp has.has_rtp e, kept)
        | inl e ↦
            let (f, signed) = tested p.payload e in
            elim (Bool-cases m.busy) [
              | inl b ↦ rw (f, e, free, b) (_, refl, kept)
              | inr b ↦
                  let (a, answers, step) =
                    parsed-Step (record d { locked = true })
                      (record { has_control = has.has_control; has_rtp = has.has_rtp }) tidy p.from
                      m.now m.sent (parse_command-IsUsable m.old_name p.payload short old) in
                  rw (f, e, free, b, signed, memory) (_, ap unlocked answers, step)
            ]
      ]

  -- The callback of a driver with both sockets, a tidy table and a free lock implements the multiset
  -- of its members: for every queue of packets of at most 63 bytes each it ends and is defined, and
  -- the addresses in the table change, packet by packet, as the members may. An invitation to the
  -- RTP port joins if there are less than 16 members, and changes nothing at 16; the end of a session
  -- takes away a member with its SSRC, if there is one; all else changes nothing, as does a packet
  -- that meets a taken lock. At each packet there
  -- is memory for a peer, and the name that the driver's command holds has less than 48 bytes.
  pub socket_callback-Steps :
      (d : AppleMidiDriver)
      → HasSockets d control rtp
      → IsTidy d.rtp.peers d.heap
      → d.locked ≡ false
      → (queue : List (Moment × Packet)) → All IsShortPacket queue
      → All HoldsShortName queue
      → All HasMemory queue
      → (a : Answered) × (socket_callback d sk queue ≡ some a)
        × Steps (members_of d) (map (heard rtp d.accept sk) queue) (members_of a.driver)
  unfolding socket_callback
  socket_callback-Steps d has tidy free [] short old memory = (_, refl, done)
  socket_callback-Steps d has tidy free ((m, p) ∷ queue) (s, short) (o, old) (y, memory) =
      let (a, e, step) = receive-Step d has tidy free m p s o y in
      let (a', e', k') = receive-Returns control rtp sk d has m p s o y in
      let k : IsKept d a.driver =
        subst (λ (x : Answered). IsKept d x.driver) (some-eq (sym e' ∙ e)) k' in
      let has' : HasSockets a.driver control rtp = record {
        has_control = k.control_kept ∙ has.has_control;
        has_rtp = k.rtp_kept ∙ has.has_rtp;
      } in
      let (b, f, steps) =
        socket_callback-Steps a.driver has' (k.tidy_kept tidy) (k.lock_kept ∙ free) queue short old
          memory in
      let steps' =
        subst
          (λ accept.
            Steps (members_of a.driver) (map (heard rtp accept sk) queue) (members_of b.driver))
          k.accept_kept steps in
      rw (e, f) (_, refl, next step steps')
