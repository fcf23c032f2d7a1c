-- ===== src/Keyboard.antt =====
-- The keyboard driver, module/: the MIDI component, the GPIO component and the module that joins
-- them.
pub mod Kernel
pub mod Trace
pub mod Midi
pub mod Gpio
pub mod Module
