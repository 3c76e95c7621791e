-- ===== src/Lobby/Told/Leaving.antt =====
-- Who is told what of a user who leaves a room: `LeaveRoom` and `OnLeave` of src/packet_handler.cpp.
use worms2lobby_server_cpp.Base.{
  ℕ, ◌≡◌, refl, ap, ◌∙◌, ◌==◌, Bool, true, false, ◌&&◌, if◌then◌else◌, Option, some, List, [], ◌∷◌,
  ◌++◌, append_assoc, is_some, Bool-cases, inl, inr,
}
use worms2lobby_server_cpp.Packet.Code.{PacketCode}
use worms2lobby_server_cpp.Packet.Fields.{no_fields}
use worms2lobby_server_cpp.Lobby.Entities.{User, Room}
use worms2lobby_server_cpp.Lobby.Database.{Database, get_room}
use worms2lobby_server_cpp.Lobby.World.{Env, World, room_id, set_room_id, send, packet}
use worms2lobby_server_cpp.Lobby.Handler.Leave.{
  is_abandoned, room_number, tell_left, leave_room_with, leave_room,
}
use worms2lobby_server_cpp.Lobby.Handler.Rooms.{leave_reply, leave}
use worms2lobby_server_cpp.Lobby.Kept.{after_close-Still}
use worms2lobby_server_cpp.Lobby.Invariant.{leave_room-Quiet}
use worms2lobby_server_cpp.Lobby.Told.{send_all, mail, mails, send_all-sent, each-told, but}

-- What those who stay are told of one who leaves a room.
abbrev pub farewells : Env → ℕ → ℕ → Bool → Bool → List (List ℕ)
farewells env room left_id in_room closed =
    (if in_room
      then packet env PacketCode.leave
          (record no_fields { value2 = some room; value10 = some left_id })
        ∷ []
      else [])
    ++ (if closed
        then packet env PacketCode.close (record no_fields { value10 = some room }) ∷ []
        else [])

tell_left-told :
    (env : Env) (room left_id : ℕ) (in_room closed : Bool) (u : User) (v : World)
    → tell_left env room left_id in_room closed u v
      ≡ send_all u (but left_id (farewells env room left_id in_room closed) u) v
unfolding tell_left
tell_left-told env room left_id in_room closed u v = elim (Bool-cases (u.id == left_id)) [
  | inl e ↦ rw e refl
  | inr e ↦ rw e (cases in_room closed)
]
  where
    cases :
        (in_room closed : Bool)
        → (let w' =
              if in_room
              then send u
                  (packet env PacketCode.leave
                    (record no_fields { value2 = some room; value10 = some left_id }))
                  v
              else v in
            if closed
            then send u (packet env PacketCode.close (record no_fields { value10 = some room })) w'
            else w')
          ≡ send_all u (farewells env room left_id in_room closed) v
    cases true true = refl
    cases true false = refl
    cases false true = refl
    cases false false = refl

-- What is told of one who leaves the room that was found, and whether it closes.
abbrev pub leave_mail : ℕ → Env → Option Room → ℕ → World → List (ℕ × List ℕ)
leave_mail default env room left_id w =
    mails w.sessions
      (but left_id (
        farewells env (room_number default room) left_id (is_some room)
          (is_some room && is_abandoned left_id (room_number default room) w)))
      w.users

module _ (default : ℕ) (env : Env) (room : Option Room) (left_id : ℕ) where
  pub leave_room_with-told :
      (w : World)
      → (leave_room_with default env room left_id w).sent
        ≡ w.sent ++ leave_mail default env room left_id w
  unfolding leave_room_with
  leave_room_with-told w =
      elim (Bool-cases (is_some room && is_abandoned left_id (room_number default room) w)) [
        | inl e ↦ rw e (
            each-told _ _
              (tell_left-told env (room_number default room) left_id (is_some room) true) w.users _)
        | inr e ↦ rw e (
            each-told _ _
              (tell_left-told env (room_number default room) left_id (is_some room) false) w.users
              w)
      ]

  pub leave_room_with-sessions :
      (w : World) → (leave_room_with default env room left_id w).sessions ≡ w.sessions
  leave_room_with-sessions w =
      (leave_room-Quiet env default room left_id w).same_sessions
      ∙ elim (Bool-cases (is_some room && is_abandoned left_id (room_number default room) w)) [
        | inl e ↦ rw e refl
        | inr e ↦ rw e refl
      ]

  pub leave_room_with-users :
      (w : World) → (leave_room_with default env room left_id w).users ≡ w.users
  leave_room_with-users w =
      ap (λ (d : Database). d.users) (leave_room-Quiet env default room left_id w).same_database
      ∙ (after_close-Still env default room left_id w).same_users

-- When a client leaves its room, everybody else who is alive is told in the order of the table,
-- where the room is there, that it leaves it, and that it closes where nobody else and no other
-- game is in it; then the client gets the answer.
pub leave-sent :
    (env : Env) (client : User) (w : World)
    → (leave env client w).sent
      ≡ w.sent
        ++ (leave_mail 5 env (get_room (room_id w client) w.database) client.id w
            ++ mail w.sessions client (leave_reply env 0 ∷ []))
unfolding leave leave_room set_room_id
leave-sent env client w =
    let room = get_room (room_id w client) w.database in
    let v = leave_room_with 5 env room client.id w in
    send_all-sent client (leave_reply env 0 ∷ []) (set_room_id client 0 v)
    ∙ rw
        (
          leave_room_with-sessions 5 env room client.id w,
          leave_room_with-told 5 env room client.id w,
        )
        (append_assoc w.sent _ _)
