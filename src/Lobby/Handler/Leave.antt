-- ===== src/Lobby/Handler/Leave.antt =====
-- `LeaveRoom` of src/packet_handler.cpp.
use worms2lobby_server_cpp.Base.{
  ℕ, ◌==◌, Bool, not, ◌&&◌, if◌then◌else◌, Option, none, some, any_of, is_some,
}
use worms2lobby_server_cpp.Packet.Code.{PacketCode}
use worms2lobby_server_cpp.Packet.Fields.{no_fields}
use worms2lobby_server_cpp.Lobby.Entities.{User, Room}
use worms2lobby_server_cpp.Lobby.Database.{remove_room}
use worms2lobby_server_cpp.Lobby.World.{Env, World, room_id, send, each, on_database, packet}

-- Whether nobody but the leaver is in the room, and no game of another identifier.
unfoldable pub is_abandoned : ℕ → ℕ → World → Bool
is_abandoned left_id room w =
    not (any_of (λ user. not (user.id == left_id) && room_id w user == room) w.users)
    && not (any_of (λ game. not (game.id == left_id) && game.room_id == room) w.games)

-- The identifier of a room that is not there.
abbrev pub room_number : ℕ → Option Room → ℕ
room_number default none = default
room_number default (some room) = room.id

-- The body of the loop that tells the users.
unfoldable pub tell_left : Env → ℕ → ℕ → Bool → Bool → User → World → World
tell_left env room left_id in_room closed user w =
    if user.id == left_id
    then w
    else (let w' =
          if in_room
          then send user
              (packet env PacketCode.leave
                (record no_fields { value2 = some room; value10 = some left_id }))
              w
          else w in
        if closed
        then send user (packet env PacketCode.close (record no_fields { value10 = some room })) w'
        else w')

-- `default` is the number that the function takes for a missing room.
unfoldable pub leave_room_with : ℕ → Env → Option Room → ℕ → World → World
unfolding is_abandoned tell_left
leave_room_with default env room left_id w =
    let number = room_number default room in
    let closed = is_some room && is_abandoned left_id number w in
    let w' = if closed then on_database (remove_room env.queue number) w else w in
    each (tell_left env number left_id (is_some room) closed) w.users w'

unfoldable pub leave_room : Env → Option Room → ℕ → World → World
unfolding leave_room_with
leave_room = leave_room_with 5
