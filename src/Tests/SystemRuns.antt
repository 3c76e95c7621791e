-- ===== src/Tests/SystemRuns.antt =====
-- The whole server from its start to a login.
use worms2lobby_server_cpp.Base.{◌≤◌, ◌≡◌, refl, arith, true, [], ◌∷◌, length}
use worms2lobby_server_cpp.Lobby.Database.{empty_database}
use worms2lobby_server_cpp.Lobby.Session.{handle_login}
use worms2lobby_server_cpp.Server.Listener.{
  Server, new_server, socket, open_acceptor, on_accept, admit_client,
}
use worms2lobby_server_cpp.Server.System.{
  connected, became, here, System, opens, accepts, admits, logs_in, Reachable, starts, goes_on,
}
use worms2lobby_server_cpp.Server.System.Events.{IsPopulated}
use worms2lobby_server_cpp.Server.System.Population.{Reachable-IsPopulated, Reachable-le-max}
use worms2lobby_server_cpp.Tests.Samples.{sample_env, login_bytes, empty_world}

abbrev serving : Server
serving = open_acceptor true (new_server 8)

abbrev full : Server
full = admit_client (on_accept socket serving)

abbrev first_login : System
first_login = (
  full,
  (handle_login sample_env 2 login_bytes empty_world).1,
  became 2 (handle_login sample_env 2 login_bytes empty_world).0 ∷ [],
)

ready : Reachable sample_env 8 (full, empty_world, connected 2 ∷ [])
unfolding new_server open_acceptor on_accept admit_client empty_database
ready =
    goes_on
      (goes_on (goes_on (starts empty_world refl) (opens true (new_server 8) empty_world [] refl))
        (accepts socket serving empty_world [] refl))
      (admits 2 (on_accept socket serving) empty_world [] refl tt)

first_login-Reachable : Reachable sample_env 8 first_login
unfolding empty_database
first_login-Reachable =
    goes_on ready
      (logs_in 2 login_bytes full empty_world (connected 2 ∷ []) [] (here []) (omega arith))

Reachable-IsPopulated_example : IsPopulated sample_env 8 first_login
Reachable-IsPopulated_example =
    Reachable-IsPopulated sample_env 8 (omega arith) first_login-Reachable

Reachable-le-max_example :
    (length (handle_login sample_env 2 login_bytes empty_world).1.users ≤ full.connection_count)
    × (full.connection_count ≡ 1)
    × (1 ≤ 8)
Reachable-le-max_example = Reachable-le-max sample_env 8 (omega arith) first_login-Reachable
