-- ===== src/Lobby.antt =====
-- The lobby: users, rooms and games (src/user.cpp, src/room.cpp, src/game.cpp), the tables that hold
-- them (src/database.cpp), the packets' handlers (src/packet_handler.cpp) and the sessions with their
-- writers (src/user_session.cpp).
pub mod Entities
pub mod Table
pub mod Database
pub mod World
pub mod Handler
pub mod Quiet
pub mod Silent
pub mod View
pub mod Sent
pub mod Told
pub mod Hosting
pub mod Names
pub mod Sound
pub mod Invariant
pub mod Preserve
pub mod Kept
pub mod Handles
pub mod Session
pub mod Reach
pub mod Connection
pub mod Writer
