-- ===== src/Keyboard/Midi/Setup.antt =====
-- What `cmidid_midi_init` and `cmidid_midi_exit` of module/cmidid_midi.c take and give back.
use cmidid_kerneldriver.Base.{ℕ, false, ◌++◌, ◌+◌, ◌≡◌, arith, if◌then◌else◌}
use cmidid_kerneldriver.Base.Int.{is_negative}
use cmidid_kerneldriver.Keyboard.Trace.{total, takes_card, frees_card}
use cmidid_kerneldriver.Keyboard.Midi.{MidiState, AlsaAnswers, midi_init, midi_exit}

-- A set-up that reports no error and the clean-up after it free the sound card as often as it was
-- created, except that they free it once too often if the sequencer client could not be created.
pub midi_init-midi_exit :
    (alsa : AlsaAnswers) (channel : ℕ) (s : MidiState)
    → is_negative (midi_init alsa channel s).code ≡ false
    → let r = midi_init alsa channel s in
      total frees_card (r.calls ++ midi_exit r.state)
      ≡ total takes_card (r.calls ++ midi_exit r.state)
        + (if is_negative alsa.create_client then 1 else 0)
unfolding midi_init midi_exit
midi_init-midi_exit alsa channel s h = ground arith
