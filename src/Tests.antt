-- ===== src/Tests.antt =====
-- The theorems at concrete inputs.
mod Keyboard
mod Setup
mod Rtp
mod Clock
mod Commands
mod Session
mod Driver
mod Network
