-- ===== src/Packet.antt =====
-- The wire format: src/worms_packet.cpp, src/session_info.cpp, include/packet_code.hpp and
-- include/packet_flags.hpp.
pub mod Io
pub mod Code
pub mod Flags
pub mod Nation
pub mod SessionInfo
pub mod Fields
pub mod Rules
pub mod Write
pub mod Read
pub mod Safety
pub mod Layout
pub mod FlagTable
pub mod Steps
pub mod TextSteps
pub mod RoundTrip
pub mod Steady
pub mod Stream
pub mod Typed
