-- ===== src/AppleMidi/Alsa/Lock.antt =====
-- The lock that `_alsa_input` takes.
use cmidid_kerneldriver.Base.{
  ℕ, true, false, List, [], some, ◌≡◌, ◌≢◌, refl, ap, ◌∙◌, arith, if◌then◌else◌, ◌==◌,
}
use cmidid_kerneldriver.AppleMidi.Rtp.Packet.{Answer}
use cmidid_kerneldriver.AppleMidi.RtpMidi.{MidiSession}
use cmidid_kerneldriver.AppleMidi.Driver.{AppleMidiDriver, silent}
use cmidid_kerneldriver.AppleMidi.Driver.Respond.{Moment, Packet, socket_callback}
use cmidid_kerneldriver.AppleMidi.Driver.Respond.Socket.{IsDropped, socket_callback-locked}
use cmidid_kerneldriver.AppleMidi.Driver.Timer.{Tick, idle_timeout}
use cmidid_kerneldriver.AppleMidi.Alsa.{SeqEvent, stuck, returned, input_locked, alsa_input}

-- An event that is neither a note on nor a note off, when the lock is free: the callback returns 1
-- and keeps the lock. From then on every packet is dropped, or, for a driver without an RTP socket, it
-- may be undefined what is done with one; every timeout does nothing, and the callback itself never
-- returns.
pub alsa_input_stray :
    (d : AppleMidiDriver) (s : MidiSession) (ev : SeqEvent) (w : ℕ) (answers : ℕ → Answer)
    → d.locked ≡ false
    → ev.type ≢ 6
    → ev.type ≢ 7
    → (d' : AppleMidiDriver) × (alsa_input d s ev w answers ≡ returned 1 d' s [])
      × ((sk : ℕ) (queue : List (Moment × Packet)) → IsDropped d' (socket_callback d' sk queue))
      × ((t : Tick) → (idle_timeout d' t).answered ≡ some (silent d' 0))
      × ((ev' : SeqEvent) (w' : ℕ) → alsa_input d' s ev' w' answers ≡ stuck)
unfolding alsa_input idle_timeout
alsa_input_stray d s ev w answers free no_on no_off =
    let d' : AppleMidiDriver = record d { locked = true } in
    let not_on : (ev.type == 6) ≡ false = ground arith in
    let not_off : (ev.type == 7) ≡ false = ground arith in
    let kept : input_locked d' s ev w answers ≡ returned 1 d' s [] = rw (not_on, not_off) refl in
    (
      d',
      ap (λ b. if b then stuck else input_locked d' s ev w answers) free ∙ kept,
      λ sk queue. socket_callback-locked d' sk queue refl,
      λ t. refl,
      λ ev' w'. refl,
    )
