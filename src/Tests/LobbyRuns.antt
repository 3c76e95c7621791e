-- ===== src/Tests/LobbyRuns.antt =====
-- The lobby on a concrete state.
use worms2lobby_server_cpp.Base.{ℕ, suc, ◌+◌, ◌≡◌, ◌≢◌, refl, arith, inr, none, some}
use worms2lobby_server_cpp.Lobby.Entities.{new_user, new_room}
use worms2lobby_server_cpp.Lobby.Database.{
  Database, k_start, count_up, get_next_id, get_user, empty_database,
}
use worms2lobby_server_cpp.Lobby.Database.Ids.{HasUniqueIds, count_up_restarts}
use worms2lobby_server_cpp.Lobby.Invariant.{IsSoundWorld}
use worms2lobby_server_cpp.Lobby.Handles.{handle_packet-IsSound}
use worms2lobby_server_cpp.Lobby.Handler.Dispatch.{handle_packet}
use worms2lobby_server_cpp.Lobby.World.{World}
use worms2lobby_server_cpp.Lobby.Session.{handle_login, disconnect_user}
use worms2lobby_server_cpp.Lobby.Session.Login.{Enters, handle_login-Enters}
use worms2lobby_server_cpp.Lobby.Session.Disconnect.{Parted, disconnect_user-Parted}
use worms2lobby_server_cpp.Lobby.Reach.{logs_in, Reachable, starts, goes_on, Reachable-IsSound}
use worms2lobby_server_cpp.Lobby.Sent.{told, in_room_of, chat_group-sent}
use worms2lobby_server_cpp.Lobby.Hosting.{host_game-sent}
use worms2lobby_server_cpp.Lobby.World.{v4, room_id}
use worms2lobby_server_cpp.Lobby.Handler.Chat.{chat_group, chat_packet, chat_reply}
use worms2lobby_server_cpp.Lobby.Handler.Games.{host_game, create_game_reply, cannot_host}
use worms2lobby_server_cpp.Base.Literals.{codes}
use worms2lobby_server_cpp.Base.{Bool, List, [], ◌∷◌, ◌++◌}
use worms2lobby_server_cpp.Tests.Samples.{
  login_bytes, empty_world, sample_env, alice, sample_database, sample_world, leave_packet,
}

sample_unique : HasUniqueIds sample_database
unfolding new_user new_room
sample_unique = record {
  once = λ k. ground arith;
  unused = λ k h. ground arith;
  reserved = λ k h. ground arith;
  started = omega arith;
}

sample_sound : IsSoundWorld sample_world
unfolding new_user new_room
sample_sound = record {
  unique = sample_unique;
  names = (tt, tt);
  room_names = (tt, tt);
  users_placed = (inr refl, tt);
  games_placed = tt;
}

handle_packet-IsSound_example :
    IsSoundWorld (handle_packet sample_env alice leave_packet sample_world).1
unfolding get_user new_user
handle_packet-IsSound_example =
    handle_packet-IsSound sample_env alice leave_packet sample_world sample_sound refl (omega arith)

-- The counter after it has wrapped around.
abbrev wrapped : Database
wrapped = record sample_database { next_id = 0 }

count_up_restarts_example :
    ((count_up wrapped).0 ≢ none)
    × (wrapped.next_id ≡ 0
        → count_up wrapped ≡ (some k_start, record wrapped { next_id = k_start + 1 }))
count_up_restarts_example = count_up_restarts wrapped

handle_login-Enters_example :
    Enters sample_world.users
      (suc sample_world.next_id)
      (handle_login sample_env 2 login_bytes sample_world)
handle_login-Enters_example =
    handle_login-Enters sample_env 2 login_bytes sample_world sample_sound (omega arith)

disconnect_user-Parted_example : Parted 0x1000 (disconnect_user sample_env alice sample_world)
unfolding get_user new_user
disconnect_user-Parted_example =
    disconnect_user-Parted sample_env alice sample_world sample_sound refl

after_login : World
after_login = (handle_login sample_env 1 login_bytes empty_world).1

logged_in : Reachable sample_env after_login
unfolding after_login empty_database
logged_in = goes_on (starts empty_world refl) (logs_in 1 login_bytes empty_world (omega arith))

Reachable-IsSound_example : IsSoundWorld after_login
Reachable-IsSound_example = Reachable-IsSound sample_env after_login logged_in

chat_group-sent_example :
    (chat_group sample_env alice (room_id sample_world alice) (codes "hi") sample_world).1.sent
    ≡ []
      ++ (told sample_world
            (in_room_of sample_world alice)
            (chat_packet sample_env alice.id (room_id sample_world alice) (codes "hi"))
            sample_world.users
          ++ told sample_world (λ u. Bool.true) (chat_reply sample_env 0) (alice ∷ []))
chat_group-sent_example = chat_group-sent sample_env alice (codes "hi") sample_world

host_game-sent_example :
    (before : List (ℕ × List ℕ)) × ((host_game sample_env alice 1
        (v4 0x7F000001)
        sample_world).1.sent
      ≡ before
        ++ (alice.session, create_game_reply sample_env 0x1002 0)
          ∷ (alice.session, create_game_reply sample_env 0 2)
          ∷ (
            alice.session,
            chat_packet sample_env alice.id (room_id sample_world alice) cannot_host,
          )
          ∷ [])
unfolding get_next_id new_user
host_game-sent_example =
    host_game-sent sample_env alice 1 0x7F000001 0x1002 (record { address = some 0x7F000001 })
      sample_world refl refl refl
