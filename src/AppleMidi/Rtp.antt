-- ===== src/AppleMidi/Rtp.antt =====
-- The RTP layer, applemidi/rtp.c: peers, the table of a session, packets. `unsigned long` and
-- `size_t` have 32 bits, as on the Raspberry Pi that the driver is for.
pub mod Peer
pub mod Table
pub mod Packet
