-- ===== src/Server/System/Population.antt =====
-- Who is on the server of src/server.cpp, whatever happens.
use worms2lobby_server_cpp.Base.{ℕ, ◌≤◌, ◌<◌, ◌≡◌, refl, ap, arith, [], length}
use worms2lobby_server_cpp.Lobby.Database.{u32, Database, empty_database}
use worms2lobby_server_cpp.Lobby.World.{Env}
use worms2lobby_server_cpp.Lobby.Sound.{All-map}
use worms2lobby_server_cpp.Lobby.Session.{handle_login}
use worms2lobby_server_cpp.Lobby.Session.Login.{handle_login-Enters}
use worms2lobby_server_cpp.Lobby.Reach
use worms2lobby_server_cpp.Lobby.Reach.{Reachable-IsSound}
use worms2lobby_server_cpp.Lobby.Connection.Lives.{IsLoggedIn-users}
use worms2lobby_server_cpp.Server.Listener.Limit
use worms2lobby_server_cpp.Server.Listener.Limit.{IsWithin, Step-IsWithin}
use worms2lobby_server_cpp.Server.System.{
  System, Step, opens, accepts, admits, fails, stops, logs_in, sends, disconnects, writes, closes,
  Reachable, starts, goes_on,
}
use worms2lobby_server_cpp.Server.System.Members.{length-member_ids, Known-map}
use worms2lobby_server_cpp.Server.System.Events.{IsPopulated, listens, enters, serves, parts, shuts}

module _ (env : Env) (max : ℕ) where
  module _ (low : max < u32) where
    Step-IsPopulated : {x y : System} → Step env x y → IsPopulated env max x → IsPopulated env max y
    Step-IsPopulated (opens b s w cs p) i =
        listens env max s _ w cs (Step-IsWithin max low (Limit.opens b s (length cs) p)) i
    Step-IsPopulated (accepts a s w cs p) i =
        listens env max s _ w cs (Step-IsWithin max low (Limit.accepts a s (length cs) p)) i
    Step-IsPopulated (admits session s w cs p n) i = record {
      lobby = i.lobby;
      within = Step-IsWithin max low (Limit.admits s (length cs) p) i.within;
      same_users = i.same_users;
      same_number = i.same_number;
      known = (tt, i.known);
    }
    Step-IsPopulated (fails s w cs p) i =
        listens env max s _ w cs (Step-IsWithin max low (Limit.fails s (length cs) p)) i
    Step-IsPopulated (stops s w cs) i =
        listens env max s _ w cs (Step-IsWithin max low (Limit.stops s (length cs))) i
    Step-IsPopulated (logs_in session received s w cs rest t b) i =
        enters env max session s w cs rest (handle_login env session received w) t i
          (handle_login-Enters env session received w (Reachable-IsSound env w i.lobby) b)
          (Reach.goes_on i.lobby (Reach.logs_in session received w b))
    Step-IsPopulated (sends user p s w cs rest t b) i = serves env max user p s w cs rest t b i
    Step-IsPopulated (disconnects user s w cs rest t) i = parts env max user s w cs rest t i
    Step-IsPopulated (writes sessions sent s w cs) i =
        let v = record w { sessions = sessions; sent = sent } in
        record {
          lobby = Reach.goes_on i.lobby (Reach.writes sessions sent w);
          within = i.within;
          same_users = i.same_users;
          same_number = i.same_number;
          known = All-map cs (Known-map w v (λ u. IsLoggedIn-users u w v refl)) i.known;
        }
    Step-IsPopulated (closes c s w cs rest t x) i =
        shuts env max c s _ w cs rest t x (Step-IsWithin max low (Limit.closes s (length rest))) i

    -- Whatever the listener, the sessions and the signals do, in any order, while the counter of
    -- identifiers has numbers left, the lobby of the server is one that can be reached, its users
    -- are those that the sessions alive serve, each logged in and served by one session, and the
    -- sessions are counted, where the limit is a number of 32 bits: a user has no place in the
    -- table without a session, and no session serves a user who is not there.
    pub Reachable-IsPopulated : {x : System} → Reachable env max x → IsPopulated env max x
    unfolding empty_database
    Reachable-IsPopulated (starts w e) =
        let none_there : w.users ≡ [] = ap (λ (d : Database). d.users) e in
        record {
          lobby = Reach.starts w e;
          within = Limit.Reachable-IsWithin max low Limit.starts;
          same_users = λ k. rw none_there refl;
          same_number = rw none_there refl;
          known = tt;
        }
    Reachable-IsPopulated (goes_on h s) = Step-IsPopulated s (Reachable-IsPopulated h)

    -- Whatever the listener, the sessions and the signals do, in any order, while the counter of
    -- identifiers has numbers left, there are never more users in the table than connections are
    -- counted, these are as many as there are sessions alive, and never more than the limit, where
    -- that is a number of 32 bits.
    pub Reachable-le-max :
        {x : System}
        → Reachable env max x
        → (length x.1.users ≤ x.0.connection_count)
          × (x.0.connection_count ≡ length x.2)
          × (length x.2 ≤ max)
    Reachable-le-max {x} h =
        let i = Reachable-IsPopulated h in
        let b = length-member_ids x.2 in
        (
          omega (arith, i.same_number, i.within.counted),
          i.within.counted,
          omega (arith, i.within.limited),
        )
