-- ===== src/Lobby/World.antt =====
-- The state that the handlers of src/packet_handler.cpp and src/user_session.cpp share.
use worms2lobby_server_cpp.Base.{
  ℕ, ◌==◌, Bool, if◌then◌else◌, Option, none, some, List, [], ◌∷◌, ◌++◌,
}
use worms2lobby_server_cpp.Packet.Io.{PacketIo}
use worms2lobby_server_cpp.Packet.Code.{PacketCode}
use worms2lobby_server_cpp.Packet.Fields.{PacketFields, Settings}
use worms2lobby_server_cpp.Packet.Write.{freeze}
use worms2lobby_server_cpp.Lobby.Entities.{User}
use worms2lobby_server_cpp.Lobby.Database.{IdQueue, Database, get_user}

pub data Address : Type 0 where
  v4 : ℕ → Address
  v6 : List ℕ → Address

-- What the handlers use of other libraries: the packet library, the queue of identifiers, and Asio's
-- `ip::make_address` (`none` is its exception) and `address_v4::to_string`.
pub record Env : Type 0 where
  pub io : PacketIo
  pub settings : Settings
  pub queue : IdQueue
  pub make_address : List ℕ → Option Address
  pub address_text : ℕ → List ℕ

-- A session that is alive. Its remote address is `none` where `remote_endpoint` throws.
pub record Session : Type 0 where
  pub address : Option ℕ

-- `room_of` is the users' `roomId_`. `sent` lists the packets that were queued, in order, each with
-- the session whose queue it went to.
pub record World : Type 0 where
  pub database : Database
  pub open database use *
  pub room_of : ℕ → ℕ
  pub sessions : ℕ → Option Session
  pub sent : List (ℕ × List ℕ)

-- How a handler ends: with a value, or by an exception.
pub data Outcome : Type 0 where
  returned : Bool → Outcome
  threw : Outcome

abbrev pub Handler : Type 0
Handler = World → Outcome × World

abbrev pub room_id : World → User → ℕ
room_id w user = w.room_of user.session

unfoldable pub set_room_id : User → ℕ → World → World
set_room_id user room w = record w {
  room_of = λ session. if session == user.session then room else w.room_of session;
}

-- `Database::setUserRoomId`
unfoldable pub set_user_room_id : ℕ → ℕ → World → World
unfolding set_room_id
set_user_room_id user_id room w = elim (get_user user_id w.database) [
  | none ↦ w
  | some user ↦ set_room_id user room w
]

-- `User::sendPacket`: nothing happens where the session is gone.
unfoldable pub send : User → List ℕ → World → World
send user packet w = elim (w.sessions user.session) [
  | none ↦ w
  | some session ↦ record w { sent = w.sent ++ (user.session, packet) ∷ [] }
]

-- `User::getAddress`: `none` is an exception.
unfoldable pub get_address : World → User → Option ℕ
get_address w user = elim (w.sessions user.session) [
  | none ↦ some 0
  | some session ↦ session.address
]

-- `for (const auto& user : users)`
unfoldable pub each : (User → World → World) → List User → World → World
each body [] w = w
each body (user ∷ users) w = each body users (body user w)

abbrev pub on_database : (Database → Database) → World → World
on_database change w = record w { database = change w.database }

abbrev pub packet : Env → PacketCode → PacketFields → List ℕ
packet env code fields = freeze env.io env.settings code fields
