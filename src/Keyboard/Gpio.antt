-- ===== src/Keyboard/Gpio.antt =====
-- The GPIO component, module/cmidid_gpio.c: keys with two buttons, stroke velocity, interrupts and
-- timers, set-up and clean-up.
pub mod State
pub mod Velocity
pub mod Buttons
pub mod Irq
pub mod Setup
