-- ===== src/Lobby/Invariant.antt =====
-- `LeaveRoom` and `OnLeave` of src/packet_handler.cpp and the lobby's invariant.
use worms2lobby_server_cpp.Base.{
  ℕ, ◌≤◌, ◌≡◌, refl, ap, arith, ◌==◌, true, ◌&&◌, if◌then◌else◌, Option, some, All, inl, inr,
  Bool-cases, Option-cases, is_some,
}
use worms2lobby_server_cpp.Lobby.Entities.{User, Room}
use worms2lobby_server_cpp.Lobby.Table.{count}
use worms2lobby_server_cpp.Lobby.Database.{get_room, get_user, remove_room}
use worms2lobby_server_cpp.Lobby.Database.Ids.{user_ids, game_ids}
use worms2lobby_server_cpp.Lobby.World.{Env, World, room_id, set_room_id, on_database}
use worms2lobby_server_cpp.Lobby.Quiet.{Quiet, send-Quiet, each-Quiet, tell_left-Quiet}
use worms2lobby_server_cpp.Lobby.Sound.{
  IsSound, All-map, find-count, find-All, moved, move-IsSound, close-IsSound,
}
use worms2lobby_server_cpp.Lobby.Handler.Leave.{
  leave_room, leave_room_with, is_abandoned, room_number,
}
use worms2lobby_server_cpp.Lobby.Handler.Rooms.{leave}

abbrev pub IsSoundWorld : World → Type 0
IsSoundWorld w = IsSound w.database w.room_of

-- The client is the user that the table has under its identifier.
abbrev pub IsLoggedIn : User → World → Type 0
IsLoggedIn client w = get_user client.id w.database ≡ some client

pub IsSound-Quiet : {v w : World} → Quiet v w → IsSoundWorld v → IsSoundWorld w
IsSound-Quiet q i = rw (q.same_database, q.same_rooms_of) i

-- The world once the room is closed, if it is abandoned, and before anybody is told.
abbrev pub after_close : Env → ℕ → Option Room → ℕ → World → World
after_close env default room left_id w =
    let number = room_number default room in
    if is_some room && is_abandoned left_id number w
    then on_database (remove_room env.queue number) w
    else w

-- The users of the client's identifier have its session, and no game has its identifier.
module _ (client : User) (w : World) (i : IsSoundWorld w) (l : IsLoggedIn client w) where
  in_users : 1 ≤ count client.id (user_ids w.database)
  unfolding get_user
  in_users = (find-count (λ (u : User). u.id) client.id client w.users l).1

  no_game_of_client : count client.id (game_ids w.database) ≡ 0
  no_game_of_client = omega (arith, in_users, i.unique.once client.id)

  own_session : All (λ u. (u.id == client.id) ≡ true → u.session ≡ client.session) w.users
  unfolding get_user
  own_session =
      All-map w.users (λ u f e. ap (λ (v : User). v.session) (f e))
        (find-All (λ (u : User). u.id) client.id client w.users
          (omega (arith, i.unique.once client.id)) l)

  -- The room is closed where the leaver was the last one in it, and the leaver is in the lobby.
  close-abandoned :
      (env : Env) (room : Room)
      → get_room (room_id w client) w.database ≡ some room
      → is_abandoned client.id room.id w ≡ true
      → IsSound (remove_room env.queue room.id w.database) (moved client.session 0 w.room_of)
  unfolding is_abandoned get_room
  close-abandoned env room e a =
      let (same, there) = find-count (λ (r : Room). r.id) (room_id w client) room w.rooms e in
      close-IsSound env.queue w.database w.room_of room.id client.id client.session i
        (rw same there) own_session no_game_of_client (ground arith) (ground arith)

  after_close-IsSound :
      (env : Env) (default : ℕ)
      → IsSoundWorld (
          set_room_id client 0
            (after_close env default (get_room (room_id w client) w.database) client.id w))
  unfolding set_room_id
  after_close-IsSound env default = elim (Option-cases (get_room (room_id w client) w.database)) [
    | inl e ↦ rw e (move-IsSound w.database w.room_of client.session 0 i (inl refl))
    | inr (room, e) ↦ elim (Bool-cases (is_abandoned client.id room.id w)) [
      | inl a ↦ rw (e, a) (close-abandoned env room e a)
      | inr a ↦ rw (e, a) (move-IsSound w.database w.room_of client.session 0 i (inl refl))
    ]
  ]

pub set_room_id-Quiet :
    (client : User) (room : ℕ) {v w : World}
    → Quiet v w
    → Quiet (set_room_id client room v) (set_room_id client room w)
unfolding set_room_id
set_room_id-Quiet client room q = record {
  same_database = q.same_database;
  same_rooms_of = rw q.same_rooms_of;
  same_sessions = q.same_sessions;
}

pub leave_room-Quiet :
    (env : Env) (default : ℕ) (room : Option Room) (left_id : ℕ) (w : World)
    → Quiet (after_close env default room left_id w) (leave_room_with default env room left_id w)
unfolding leave_room_with
leave_room-Quiet env default room left_id w =
    each-Quiet _ (tell_left-Quiet env _ left_id _ _) w.users _

pub leave-IsSound :
    (env : Env) (client : User) (w : World)
    → IsSoundWorld w
    → IsLoggedIn client w
    → IsSoundWorld (leave env client w)
unfolding leave leave_room
leave-IsSound env client w i l = IsSound-Quiet (send-Quiet client _ _) (
    IsSound-Quiet
      (set_room_id-Quiet client 0
        (leave_room-Quiet env 5 (get_room (room_id w client) w.database) client.id w))
      (after_close-IsSound client w i l env 5))
