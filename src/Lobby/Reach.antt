-- ===== src/Lobby/Reach.antt =====
-- The lobby from the start of the server on: the logins and disconnections of src/user_session.cpp and
-- the packets of src/packet_handler.cpp, one at a time, in any order.
use worms2lobby_server_cpp.Base.{ℕ, ◌≡◌, refl, arith, List, Option}
use worms2lobby_server_cpp.Packet.Fields.{WormsPacket}
use worms2lobby_server_cpp.Lobby.Entities.{User}
use worms2lobby_server_cpp.Lobby.Database.{empty_database}
use worms2lobby_server_cpp.Lobby.World.{Env, World, Session}
use worms2lobby_server_cpp.Lobby.Sound.{IsSound}
use worms2lobby_server_cpp.Lobby.Invariant.{IsSoundWorld, IsLoggedIn}
use worms2lobby_server_cpp.Lobby.Preserve.{HasIds}
use worms2lobby_server_cpp.Lobby.Handler.Dispatch.{handle_packet}
use worms2lobby_server_cpp.Lobby.Handles.{handle_packet-IsSound}
use worms2lobby_server_cpp.Lobby.Session.{handle_login, disconnect_user}
use worms2lobby_server_cpp.Lobby.Session.Login.{handle_login-Enters}
use worms2lobby_server_cpp.Lobby.Session.Disconnect.{disconnect_user-Parted}

-- What a session does to the lobby, while the counter of identifiers has numbers left; `writes` is
-- what happens to the queues and the sockets, whatever it is.
pub data Step (env : Env) : World → World → Type 0 where
  logs_in :
      (session : ℕ) (received : List ℕ) (w : World)
      → HasIds w
      → Step env w (handle_login env session received w).1
  sends :
      (client : User) (p : WormsPacket) (w : World)
      → IsLoggedIn client w
      → HasIds w
      → Step env w (handle_packet env client p w).1
  disconnects :
      (client : User) (w : World) → IsLoggedIn client w → Step env w (disconnect_user env client w)
  writes :
      (sessions : ℕ → Option Session) (sent : List (ℕ × List ℕ)) (w : World)
      → Step env w (record w { sessions = sessions; sent = sent })

pub data Reachable (env : Env) : World → Type 0 where
  starts : (w : World) → w.database ≡ empty_database → Reachable env w
  goes_on : {v w : World} → Reachable env v → Step env v w → Reachable env w

Step-IsSound : (env : Env) {v w : World} → Step env v w → IsSoundWorld v → IsSoundWorld w
Step-IsSound env (logs_in session received w b) i =
    (handle_login-Enters env session received w i b).sound
Step-IsSound env (sends client p w l b) i = handle_packet-IsSound env client p w i l b
Step-IsSound env (disconnects client w l) i = (disconnect_user-Parted env client w i l).sound
Step-IsSound env (writes sessions sent w) i = i

empty-IsSound : (room_of : ℕ → ℕ) → IsSound empty_database room_of
unfolding empty_database
empty-IsSound room_of = record {
  unique = record {
    once = λ k. omega arith;
    unused = λ k h. refl;
    reserved = λ k h. refl;
    started = omega arith;
  };
  names = tt;
  room_names = tt;
  users_placed = tt;
  games_placed = tt;
}

-- Whatever sessions do, in whatever order, while the counter of identifiers has numbers left,
-- every identifier is used once, no two users and no two rooms have the same name up to case, and
-- every user and every game is in the lobby or in a room that is open.
pub Reachable-IsSound : (env : Env) (w : World) → Reachable env w → IsSoundWorld w
Reachable-IsSound env w (starts _ e) = rw e (empty-IsSound w.room_of)
Reachable-IsSound env w (goes_on {v} r s) = Step-IsSound env s (Reachable-IsSound env v r)
