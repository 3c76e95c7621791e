-- ===== src/Lobby/Handler/Rooms.antt =====
-- `OnCreateRoom`, `OnJoin`, `OnLeave` and `OnClose` of src/packet_handler.cpp.
use worms2lobby_server_cpp.Base.{
  ℕ, ◌==◌, Bool, true, false, not, ◌&&◌, ◌||◌, if◌then◌else◌, none, some, List, [], ◌∷◌, any_of,
  is_some, value_or,
}
use worms2lobby_server_cpp.Text.StringUtils.{equals_case_insensitive}
use worms2lobby_server_cpp.Packet.Code.{PacketCode}
use worms2lobby_server_cpp.Packet.Fields.{WormsPacket, no_fields}
use worms2lobby_server_cpp.Lobby.Entities.{User, Room, Game, new_room}
use worms2lobby_server_cpp.Lobby.Database.{get_next_id, add_room, get_room}
use worms2lobby_server_cpp.Lobby.World.{
  Env, World, returned, threw, Handler, room_id, set_room_id, send, get_address, each, on_database,
  packet,
}
use worms2lobby_server_cpp.Lobby.Handler.Leave.{leave_room}

abbrev pub is_empty : List ℕ → Bool
is_empty [] = true
is_empty (c ∷ cs) = false

-- `if (user->getId() == clientUser->getId()) continue; user->sendPacket(bytes);` for all users.
unfoldable pub tell_others : User → List ℕ → World → World
tell_others client bytes w =
    each (λ user v. if user.id == client.id then v else send user bytes v) w.users w

-- The room with its new identifier, told to the others and to the client.
unfoldable pub open_room : Env → User → List ℕ → ℕ → ℕ → ℕ → World → World
unfolding tell_others
open_room env client name nation address id w =
    let room = new_room id name nation address in
    let w' = on_database (add_room room) w in
    let bytes = packet env PacketCode.create_room (record no_fields {
      value1 = some id;
      value4 = some 0;
      name = some room.name;
      content = some [];
      info = some room.session_info;
    }) in
    send client
      (packet env PacketCode.create_room_reply
        (record no_fields { value1 = some id; error = some 0 }))
      (tell_others client bytes w')

-- The identifier is taken before the address is asked for, and stays taken if that throws.
unfoldable pub create_room : Env → User → List ℕ → ℕ → Handler
unfolding open_room
create_room env client name nation w =
    let (next, database) = get_next_id env.queue w.database in
    let w' = record w { database = database } in
    elim next [
      | none ↦ (threw, w')
      | some id ↦ elim (get_address w' client) [
        | none ↦ (threw, w')
        | some address ↦ (returned true, open_room env client name nation address id w')
      ]
    ]

abbrev pub has_room_named : List ℕ → List Room → Bool
has_room_named name = any_of (λ room. equals_case_insensitive name room.name)

unfoldable pub on_create_room : Env → User → WormsPacket → Handler
unfolding create_room
on_create_room env client p w =
    let f = p.fields in
    let name = value_or f.name [] in
    if not (value_or f.value1 0 == 0)
      || not (value_or f.value4 0 == 0)
      || is_empty (value_or f.content [])
      || is_empty name
    then (returned false, w)
    else elim f.info [
      | none ↦ (returned false, w)
      | some info ↦
          if has_room_named name w.rooms
          then (
            returned true,
            send client
                (packet env PacketCode.create_room_reply
                  (record no_fields { value1 = some 0; error = some 1 }))
                w,
          )
          else create_room env client name info.player_nation w
    ]

abbrev pub join_reply : Env → ℕ → List ℕ
join_reply env code = packet env PacketCode.join_reply (record no_fields { error = some code })

abbrev pub join_packet : Env → ℕ → ℕ → List ℕ
join_packet env room id =
    packet env PacketCode.join (record no_fields { value2 = some room; value10 = some id })

abbrev pub has_room : ℕ → List Room → Bool
has_room id = any_of (λ room. room.id == id)

abbrev pub has_game : ℕ → ℕ → List Game → Bool
has_game id room = any_of (λ game. game.id == id && game.room_id == room)

unfoldable pub join : Env → User → ℕ → World → World
unfolding tell_others
join env client target w =
    if has_room target w.rooms
    then send client (join_reply env 0)
        (tell_others client (join_packet env target client.id) (set_room_id client target w))
    else if has_game target (room_id w client) w.games
    then send client (join_reply env 0)
        (tell_others client (join_packet env (room_id w client) client.id) w)
    else send client (join_reply env 1) w

unfoldable pub on_join : Env → User → WormsPacket → Handler
unfolding join
on_join env client p w =
    if not (is_some p.fields.value2) || not (value_or p.fields.value10 0 == client.id)
    then (returned false, w)
    else (returned true, join env client (value_or p.fields.value2 0) w)

abbrev pub leave_reply : Env → ℕ → List ℕ
leave_reply env code = packet env PacketCode.leave_reply (record no_fields { error = some code })

unfoldable pub leave : Env → User → World → World
leave env client w =
    send client (leave_reply env 0)
      (set_room_id client 0 (leave_room env (get_room (room_id w client) w.database) client.id w))

unfoldable pub on_leave : Env → User → WormsPacket → Handler
unfolding leave
on_leave env client p w =
    if not (value_or p.fields.value10 0 == client.id) || not (is_some p.fields.value2)
    then (returned false, w)
    else if value_or p.fields.value2 0 == room_id w client
    then (returned true, leave env client w)
    else (returned true, send client (leave_reply env 1) w)

unfoldable pub on_close : Env → User → WormsPacket → Handler
on_close env client p w = if not (is_some p.fields.value10) then (returned false, w) else (
  returned true,
  send client (packet env PacketCode.close_reply (record no_fields { error = some 0 })) w,
)
