-- ===== src/Lobby/Told/Parting.antt =====
-- Who is told what of a user who disconnects: `DisconnectUser` of src/user_session.cpp.
use worms2lobby_server_cpp.Base.{
  ℕ, ◌≡◌, ◌≢◌, arith, refl, ap, ap₂, ◌∙◌, ◌==◌, false, Option, none, some, List, [], ◌∷◌, ◌++◌,
  append_assoc, Option-cases, Bool-cases, inl, inr,
}
use worms2lobby_server_cpp.Packet.Code.{PacketCode}
use worms2lobby_server_cpp.Packet.Fields.{no_fields}
use worms2lobby_server_cpp.Lobby.Entities.{User, Room, Game}
use worms2lobby_server_cpp.Lobby.Database.{
  Database, get_room, get_game_by_name, remove_user, remove_game,
}
use worms2lobby_server_cpp.Lobby.World.{Env, World, room_id, send, each, on_database, packet}
use worms2lobby_server_cpp.Lobby.Quiet.{Quiet}
use worms2lobby_server_cpp.Lobby.Handler.Leave.{is_abandoned, leave_room_with}
use worms2lobby_server_cpp.Lobby.Session.{leave_room_on_exit, close_game, leaver, disconnect_user}
use worms2lobby_server_cpp.Lobby.Session.Disconnect.{close_game-Quiet}
use worms2lobby_server_cpp.Lobby.Told.{mails, each-told, but}
use worms2lobby_server_cpp.Lobby.Told.Leaving.{
  leave_mail, leave_room_with-told, leave_room_with-sessions, leave_room_with-users,
}

-- What the others are told of a game that goes with its host.
abbrev pub game_mail : Env → User → Game → World → List (ℕ × List ℕ)
game_mail env client game w =
    mails w.sessions
      (but client.id (
        packet env PacketCode.leave
          (record no_fields { value2 = some game.id; value10 = some client.id })
        ∷ packet env PacketCode.close (record no_fields { value10 = some game.id })
        ∷ []))
      w.users

abbrev pub goodbye : Env → User → World → List (ℕ × List ℕ)
goodbye env client w =
    mails w.sessions
      (λ u.
        packet env PacketCode.disconnect_user (record no_fields { value10 = some client.id }) ∷ [])
      w.users

-- What is told of one who is gone from the table, with its game, where it has one.
abbrev pub parting_mail : Env → User → Option Game → World → List (ℕ × List ℕ)
parting_mail env client none w =
    leave_mail 0 env (get_room (room_id w client) w.database) client.id w ++ goodbye env client w
parting_mail env client (some game) w =
    game_mail env client game w
    ++ (leave_mail 0 env (get_room game.room_id w.database) game.id
          (on_database (remove_game env.queue game.id) w)
        ++ goodbye env client w)

-- Both of the last two loops.
exit-told :
    (env : Env) (client : User) (room : Option Room) (left_id : ℕ) (w v : World)
    → v.users ≡ w.users
    → v.sessions ≡ w.sessions
    → (each
        (λ u x.
          send u
            (packet env PacketCode.disconnect_user (record no_fields { value10 = some client.id }))
            x)
        (leave_room_with 0 env room left_id v).users
        (leave_room_with 0 env room left_id v)).sent
      ≡ v.sent ++ (leave_mail 0 env room left_id v ++ goodbye env client w)
exit-told env client room left_id w v same alive =
    let x = leave_room_with 0 env room left_id v in
    each-told
      (λ u.
        packet env PacketCode.disconnect_user (record no_fields { value10 = some client.id }) ∷ [])
      _ (λ u y. refl) x.users x
    ∙ rw
        (
          leave_room_with-sessions 0 env room left_id v,
          leave_room_with-users 0 env room left_id v,
          leave_room_with-told 0 env room left_id v,
          same,
          alive,
        )
        (append_assoc v.sent _ _)

leave_mail-Quiet :
    (default : ℕ) (env : Env) (room : Option Room) (left_id : ℕ) {v w : World}
    → Quiet v w
    → leave_mail default env room left_id w ≡ leave_mail default env room left_id v
unfolding is_abandoned
leave_mail-Quiet default env room left_id q =
    rw (q.same_database, q.same_rooms_of, q.same_sessions) refl

close_game-told :
    (env : Env) (client : User) (game : Game) (w : World)
    → (close_game env client game w).sent ≡ w.sent ++ game_mail env client game w
unfolding close_game remove_game
close_game-told env client game w =
    each-told
      (but client.id (
        packet env PacketCode.leave
          (record no_fields { value2 = some game.id; value10 = some client.id })
        ∷ packet env PacketCode.close (record no_fields { value10 = some game.id })
        ∷ []))
      _ (λ u v. elim (Bool-cases (u.id == client.id)) [ inl e ↦ rw e refl | inr e ↦ rw e refl ])
      w.users (on_database (remove_game env.queue game.id) w)

hosting-told :
    (env : Env) (client : User) (game : Game) (w : World)
    → (each
        (λ u x.
          send u
            (packet env PacketCode.disconnect_user (record no_fields { value10 = some client.id }))
            x)
        (leave_room_with 0 env
          (get_room game.room_id (close_game env client game w).database)
          game.id
          (close_game env client game w)).users
        (leave_room_with 0 env
          (get_room game.room_id (close_game env client game w).database)
          game.id
          (close_game env client game w))).sent
      ≡ w.sent ++ parting_mail env client (some game) w
unfolding remove_game get_room
hosting-told env client game w =
    let v = close_game env client game w in
    let q = close_game-Quiet env client game w in
    let room : get_room game.room_id v.database ≡ get_room game.room_id w.database =
      ap (get_room game.room_id) q.same_database in
    exit-told env client (get_room game.room_id v.database) game.id w v
      (ap (λ (d : Database). d.users) q.same_database) q.same_sessions
    ∙ ap₂ ◌++◌ (close_game-told env client game w) (
        ap (λ mail. mail ++ goodbye env client w)
          (leave_mail-Quiet 0 env (get_room game.room_id v.database) game.id q
            ∙ ap (λ r. leave_mail 0 env r game.id (on_database (remove_game env.queue game.id) w))
                room))
    ∙ append_assoc w.sent _ _

-- When a user whose identifier is not 0 disconnects, everybody who stays and is alive is told, in
-- the order of the table: with a game under the user's name, that the user leaves the game and
-- that the game closes; then that the room is left, and that it closes where it does; and last
-- that the user is gone.
pub disconnect_user-sent :
    (env : Env) (client : User) (w : World)
    → client.id ≢ 0
    → (disconnect_user env client w).sent
      ≡ w.sent
        ++ parting_mail env client
            (get_game_by_name client.name w.database)
            (on_database (remove_user env.queue client.id) w)
unfolding disconnect_user leave_room_on_exit remove_user get_game_by_name
disconnect_user-sent env client w n =
    let z : (client.id == 0) ≡ false = ground arith in
    elim (Option-cases (get_game_by_name client.name w.database)) [
      | inl e ↦
          rw (z, e, leaver)
            (exit-told env client (get_room (room_id w client) after.database) client.id after after
              refl refl)
      | inr (game, e) ↦ rw (z, e, leaver) (hosting-told env client game after)
    ]
  where
    after : World
    after = on_database (remove_user env.queue client.id) w
