-- ===== src/AppleMidi.antt =====
-- The AppleMIDI network driver, applemidi/.
pub mod Clock
pub mod Rtp
pub mod Message
pub mod RtpMidi
pub mod Command
pub mod Sync
pub mod Driver
pub mod Alsa
pub mod Module
