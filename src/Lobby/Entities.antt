-- ===== src/Lobby/Entities.antt =====
-- src/user.cpp, src/room.cpp and src/game.cpp: the immutable part of the objects.
use worms2lobby_server_cpp.Base.{ℕ, List}
use worms2lobby_server_cpp.Packet.SessionInfo
use worms2lobby_server_cpp.Packet.SessionInfo.{
  SessionInfo, room_type, game_type, user_type, public_access,
}

-- `session` names the user's `UserSession`. A session makes one user at most, so the mutable
-- `roomId_` of a user stands under its session's name in the world.
pub record User : Type 0 where
  pub id : ℕ
  pub name : List ℕ
  pub session_info : SessionInfo
  pub session : ℕ

-- An IPv4 address is its number.
pub record Room : Type 0 where
  pub id : ℕ
  pub name : List ℕ
  pub session_info : SessionInfo
  pub address : ℕ

pub record Game : Type 0 where
  pub id : ℕ
  pub name : List ℕ
  pub session_info : SessionInfo
  pub address : ℕ
  pub room_id : ℕ

unfoldable pub new_user : ℕ → ℕ → List ℕ → ℕ → User
new_user session id name nation = record {
  id = id;
  name = name;
  session_info = SessionInfo.new nation user_type public_access;
  session = session;
}

unfoldable pub new_room : ℕ → List ℕ → ℕ → ℕ → Room
new_room id name nation address = record {
  id = id;
  name = name;
  session_info = SessionInfo.new nation room_type public_access;
  address = address;
}

unfoldable pub new_game : ℕ → List ℕ → ℕ → ℕ → ℕ → ℕ → Game
new_game id name nation room_id address access = record {
  id = id;
  name = name;
  session_info = SessionInfo.new nation game_type access;
  address = address;
  room_id = room_id;
}
