-- ===== src/Server/System.antt =====
-- The whole server: the listener of src/server.cpp, and the sessions of src/user_session.cpp that it
-- makes, with the one lobby, from a session's construction to its destruction.
pub mod Members
pub mod Events
pub mod Population
use worms2lobby_server_cpp.Base.{ℕ, suc, ◌≡◌, ◌≢◌, List, [], ◌∷◌, All, Option, Bool}
use worms2lobby_server_cpp.Packet.Fields.{WormsPacket}
use worms2lobby_server_cpp.Lobby.Entities.{User}
use worms2lobby_server_cpp.Lobby.Database.{empty_database}
use worms2lobby_server_cpp.Lobby.World.{Env, World, Session}
use worms2lobby_server_cpp.Lobby.Preserve.{HasIds}
use worms2lobby_server_cpp.Lobby.Handler.Dispatch.{handle_packet}
use worms2lobby_server_cpp.Lobby.Session.{
  LoginEnd, refused, taken, accepted, handle_login, disconnect_user,
}
use worms2lobby_server_cpp.Server.Listener.{
  idle, accepting, admitting, Server, new_server, Accept, open_acceptor, on_accept, close_session,
  admit_client, fail, stop,
}

-- A session that is alive: before its login, with its user, or on its way to the destructor.
pub data Client : Type 0 where
  connected : ℕ → Client
  member : User → Client
  finished : ℕ → Client

abbrev pub session_of : Client → ℕ
session_of (connected session) = session
session_of (member user) = user.session
session_of (finished session) = session

-- What a session is after its login.
abbrev pub became : ℕ → LoginEnd → Client
became session (accepted user) = member user
became session refused = finished session
became session (taken reply) = finished session

-- The second list is the first one without the client, once.
pub data Without (c : Client) : List Client → List Client → Type 0 where
  here : (cs : List Client) → Without c (c ∷ cs) cs
  there : (d : Client) {cs rest : List Client} → Without c cs rest → Without c (d ∷ cs) (d ∷ rest)

abbrev pub System : Type 0
System = Server × World × List Client

-- A session is destroyed before its login or after its end: what holds it alive in between is the
-- coroutine that serves its user.
pub data Ends : Client → Type 0 where
  unserved : (session : ℕ) → Ends (connected session)
  over : (session : ℕ) → Ends (finished session)

pub data Step (env : Env) : System → System → Type 0 where
  opens :
      (b : Bool) (s : Server) (w : World) (cs : List Client)
      → s.position ≡ idle
      → Step env (s, w, cs) (open_acceptor b s, w, cs)
  accepts :
      (a : Accept) (s : Server) (w : World) (cs : List Client)
      → s.position ≡ accepting
      → Step env (s, w, cs) (on_accept a s, w, cs)
  admits :
      (session : ℕ) (s : Server) (w : World) (cs : List Client)
      → s.position ≡ admitting
      → All (λ c. session_of c ≢ session) cs
      → Step env (s, w, cs) (admit_client s, w, connected session ∷ cs)
  fails :
      (s : Server) (w : World) (cs : List Client)
      → s.position ≡ admitting
      → Step env (s, w, cs) (fail s, w, cs)
  stops : (s : Server) (w : World) (cs : List Client) → Step env (s, w, cs) (stop s, w, cs)
  logs_in :
      (session : ℕ) (received : List ℕ) (s : Server) (w : World) (cs rest : List Client)
      → Without (connected session) cs rest
      → HasIds w
      → Step env
          (s, w, cs)
          (
            s,
            (handle_login env session received w).1,
            became session (handle_login env session received w).0 ∷ rest,
          )
  sends :
      (user : User) (p : WormsPacket) (s : Server) (w : World) (cs rest : List Client)
      → Without (member user) cs rest
      → HasIds w
      → Step env (s, w, cs) (s, (handle_packet env user p w).1, cs)
  disconnects :
      (user : User) (s : Server) (w : World) (cs rest : List Client)
      → Without (member user) cs rest
      → Step env (s, w, cs) (s, disconnect_user env user w, finished user.session ∷ rest)
  writes :
      (sessions : ℕ → Option Session) (sent : List (ℕ × List ℕ)) (s : Server) (w : World)
      (cs : List Client)
      → Step env (s, w, cs) (s, record w { sessions = sessions; sent = sent }, cs)
  closes :
      (c : Client) (s : Server) (w : World) (cs rest : List Client)
      → Without c cs rest
      → Ends c
      → Step env (s, w, cs) (close_session s, w, rest)

pub data Reachable (env : Env) (max : ℕ) : System → Type 0 where
  starts : (w : World) → w.database ≡ empty_database → Reachable env max (new_server max, w, [])
  goes_on : {x y : System} → Reachable env max x → Step env x y → Reachable env max y
