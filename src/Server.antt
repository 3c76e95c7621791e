-- ===== src/Server.antt =====
-- The program around the lobby: the command line (main.cpp) and the listener (src/server.cpp).
pub mod Stoi
pub mod Arguments
pub mod Listener
pub mod System
