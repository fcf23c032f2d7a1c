-- ===== src/Keyboard/Module/Lifecycle.antt =====
-- What loading and unloading the module, module/cmidid_main.c, takes and gives back.
use cmidid_kerneldriver.Base.{ℕ, true, false, List, [], ◌∷◌, ◌≡◌}
use cmidid_kerneldriver.Keyboard.Kernel.{
  Call, alloc_chrdev_region, cdev_alloc, cdev_add, class_create, device_create,
}
use cmidid_kerneldriver.Keyboard.Trace.{total}
use cmidid_kerneldriver.Keyboard.Midi.{MidiState, AlsaAnswers, midi_init, midi_exit}
use cmidid_kerneldriver.Keyboard.Gpio.Setup.Others.{Ignores}
use cmidid_kerneldriver.Keyboard.Module.{Module, Answers}

-- A count that ignores the GPIO and the MIDI component.
record IsDeviceCount (f : Call → ℕ) : Type 0 where
  gpio : Ignores f
  midi :
      (alsa : AlsaAnswers) (channel : ℕ) (s : MidiState)
      → total f (midi_init alsa channel s).calls ≡ 0
  exit : (s : MidiState) → total f (midi_exit s) ≡ 0

-- The calls up to `cmidid_midi_init`, where none fails.
abbrev made_calls : Answers → List Call
made_calls a =
    alloc_chrdev_region a.chrdev_region
    ∷ cdev_alloc true
    ∷ cdev_add false
    ∷ class_create
    ∷ device_create
    ∷ []
