-- ===== src/Lobby/View.antt =====
-- The lobby as src/database.cpp promises it to its clients: a function from identifiers to objects for
-- each table, with the room of each session and its remote address. The order of the tables, the
-- counter of identifiers, the queue of used ones and the packets are forgotten.
pub mod Laws
pub mod Spec
pub mod Requests
pub mod Departures
pub mod Arrivals
pub mod Refines
pub mod Bystanders
use worms2lobby_server_cpp.Base.{ℕ, ◌==◌, if◌then◌else◌, Option, none, some}
use worms2lobby_server_cpp.Lobby.Entities.{User, Room, Game}
use worms2lobby_server_cpp.Lobby.Database.{Database, get_user, get_room, get_game}
use worms2lobby_server_cpp.Lobby.World.{Session, World}

pub record Lobby : Type 0 where
  pub user : ℕ → Option User
  pub room : ℕ → Option Room
  pub game : ℕ → Option Game
  pub place : ℕ → ℕ
  pub address : ℕ → Option ℕ

-- A function, changed at one key.
abbrev pub update {ℓ} : {A : Type ℓ} → (ℕ → A) → ℕ → A → ℕ → A
update f k v j = if j == k then v else f j

-- The address that a user of the session would be asked for; `none` is an exception.
abbrev pub address_of : (ℕ → Option Session) → ℕ → Option ℕ
address_of sessions s = elim (sessions s) [ none ↦ some 0 | some session ↦ session.address ]

abbrev pub lobby : Database → (ℕ → ℕ) → (ℕ → Option Session) → Lobby
lobby d room_of sessions = record {
  user = λ k. get_user k d;
  room = λ k. get_room k d;
  game = λ k. get_game k d;
  place = room_of;
  address = address_of sessions;
}

abbrev pub view : World → Lobby
view w = lobby w.database w.room_of w.sessions
