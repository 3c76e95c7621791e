-- ===== src/Lobby/Handler.antt =====
-- src/packet_handler.cpp
pub mod Leave
pub mod Chat
pub mod Lists
pub mod Rooms
pub mod Games
pub mod Dispatch
