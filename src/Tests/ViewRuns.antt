-- ===== src/Tests/ViewRuns.antt =====
-- What the lobby shows and whom it tells, on a concrete state: Alice and Carol in a room, and a game of
-- Carol's.
use worms2lobby_server_cpp.Base.{
  ◌≡◌, refl, arith, ◌==◌, str_eq, if◌then◌else◌, inr, some, [], ◌∷◌, ◌++◌,
}
use worms2lobby_server_cpp.Base.Literals.{codes}
use worms2lobby_server_cpp.Text.StringUtils.{equals_case_insensitive}
use worms2lobby_server_cpp.Packet.Nation.{Nation, nation_value}
use worms2lobby_server_cpp.Lobby.Entities.{User, Game, new_user, new_room, new_game}
use worms2lobby_server_cpp.Lobby.Database.{get_user, get_room, get_game_by_name, remove_user}
use worms2lobby_server_cpp.Lobby.Database.Ids.{HasUniqueIds}
use worms2lobby_server_cpp.Lobby.World.{World, room_id, on_database}
use worms2lobby_server_cpp.Lobby.Invariant.{IsSoundWorld}
use worms2lobby_server_cpp.Lobby.Reach.{Step, sends}
use worms2lobby_server_cpp.Lobby.Handler.Dispatch.{handle_packet}
use worms2lobby_server_cpp.Lobby.Handler.Rooms.{join, leave, leave_reply}
use worms2lobby_server_cpp.Lobby.Session.{disconnect_user}
use worms2lobby_server_cpp.Lobby.View.{view}
use worms2lobby_server_cpp.Lobby.View.Spec.{Moves, message}
use worms2lobby_server_cpp.Lobby.View.Refines.{Step-Moves}
use worms2lobby_server_cpp.Lobby.View.Bystanders.{Step-room_of, Step-get_room}
use worms2lobby_server_cpp.Lobby.Told.{mail, joined_room, join_mail, join-sent}
use worms2lobby_server_cpp.Lobby.Told.Leaving.{leave_mail, leave-sent}
use worms2lobby_server_cpp.Lobby.Told.Parting.{parting_mail, disconnect_user-sent}
use worms2lobby_server_cpp.Lobby.Told.Lists.{
  lists-sent, listed, asks_list, asks_own, room_items, user_items, game_items,
}
use worms2lobby_server_cpp.Lobby.Handler.Lists.{on_list_rooms, on_list_users, on_list_games}
use worms2lobby_server_cpp.Tests.Samples.{sample_env, alice, inn, leave_packet, list_packet}

abbrev carol : User
carol = new_user 2 0x1002 (codes "Carol") (nation_value Nation.georgia)

abbrev carols : Game
carols = new_game 0x1003 (codes "Carol") (nation_value Nation.georgia) 0x1001 0x7F000001 1

abbrev busy_world : World
busy_world = record {
  database = record {
    users = alice ∷ carol ∷ [];
    rooms = inn ∷ [];
    games = carols ∷ [];
    next_id = 0x1004;
    recycled_ids = [];
  };
  room_of = λ session. if session == 1 then 0x1001 else if session == 2 then 0x1001 else 0;
  sessions = λ session. some (record { address = some 0x7F000001 });
  sent = [];
}

busy_unique : HasUniqueIds busy_world.database
unfolding new_user new_room new_game
busy_unique = record {
  once = λ k. ground arith;
  unused = λ k h. ground arith;
  reserved = λ k h. ground arith;
  started = omega arith;
}

busy_sound : IsSoundWorld busy_world
unfolding new_user new_room new_game equals_case_insensitive
busy_sound = record {
  unique = busy_unique;
  names = ((refl, tt), (tt, tt));
  room_names = (tt, tt);
  users_placed = (inr refl, (inr refl, tt));
  games_placed = (inr refl, tt);
}

-- Alice leaves the room.
after_leave : World
after_leave = (handle_packet sample_env alice leave_packet busy_world).1

leaving : Step sample_env busy_world after_leave
unfolding after_leave get_user new_user
leaving = sends alice leave_packet busy_world refl (omega arith)

Step-Moves_example :
    Moves sample_env (view busy_world) (message alice leave_packet) (view after_leave)
unfolding leaving
Step-Moves_example = Step-Moves leaving busy_sound

Step-room_of_example : after_leave.room_of 2 ≡ 0x1001
unfolding leaving new_user
Step-room_of_example = Step-room_of leaving 2 busy_sound (λ e. cc)

Step-get_room_example : get_room 0x1001 after_leave.database ≡ some inn
unfolding leaving new_user new_room get_room get_user
Step-get_room_example = Step-get_room leaving inn carol busy_sound refl refl refl (λ e. cc)

join-sent_example :
    (join sample_env alice 0x1001 busy_world).sent
    ≡ [] ++ join_mail sample_env alice (joined_room alice 0x1001 busy_world) busy_world
join-sent_example = join-sent sample_env alice 0x1001 busy_world

leave-sent_example :
    (leave sample_env alice busy_world).sent
    ≡ []
      ++ (leave_mail 5 sample_env
            (get_room (room_id busy_world alice) busy_world.database)
            alice.id
            busy_world
          ++ mail busy_world.sessions alice (leave_reply sample_env 0 ∷ []))
leave-sent_example = leave-sent sample_env alice busy_world

disconnect_user-sent_example :
    (disconnect_user sample_env carol busy_world).sent
    ≡ []
      ++ parting_mail sample_env carol
          (some carols)
          (on_database (remove_user sample_env.queue carol.id) busy_world)
unfolding new_user new_game get_game_by_name str_eq
disconnect_user-sent_example = disconnect_user-sent sample_env carol busy_world (λ e. cc)

lists-sent_example :
    ((on_list_rooms sample_env alice list_packet busy_world).1.sent
      ≡ []
        ++ mail busy_world.sessions alice
            (listed sample_env (asks_list list_packet) (room_items sample_env busy_world)))
    × ((on_list_users sample_env alice list_packet busy_world).1.sent
        ≡ []
          ++ mail busy_world.sessions alice (
              listed sample_env
                (asks_own alice list_packet busy_world)
                (user_items sample_env (room_id busy_world alice) busy_world)))
    × ((on_list_games sample_env alice list_packet busy_world).1.sent
        ≡ []
          ++ mail busy_world.sessions alice (
              listed sample_env
                (asks_own alice list_packet busy_world)
                (game_items sample_env (room_id busy_world alice) busy_world)))
lists-sent_example = lists-sent sample_env alice list_packet busy_world
