-- ===== src/Lobby/Handler/Lists.antt =====
-- `OnListRooms`, `OnListUsers` and `OnListGames` of src/packet_handler.cpp.
use worms2lobby_server_cpp.Base.{
  ℕ, ◌==◌, true, false, not, ◌||◌, if◌then◌else◌, some, List, [], ◌∷◌, value_or,
}
use worms2lobby_server_cpp.Packet.Code.{PacketCode}
use worms2lobby_server_cpp.Packet.SessionInfo.{SessionInfo}
use worms2lobby_server_cpp.Packet.Fields.{WormsPacket, no_fields}
use worms2lobby_server_cpp.Lobby.Entities.{User, Room, Game}
use worms2lobby_server_cpp.Lobby.World.{Env, World, returned, Handler, room_id, send, packet}

abbrev pub list_item : Env → ℕ → List ℕ → List ℕ → SessionInfo → List ℕ
list_item env id name content info = packet env PacketCode.list_item (record no_fields {
  value1 = some id;
  name = some name;
  content = some content;
  info = some info;
})

-- `getListEndPacket`
abbrev pub list_end : Env → List ℕ
list_end env = packet env PacketCode.list_end no_fields

unfoldable pub send_rooms : Env → User → List Room → World → World
send_rooms env client [] w = w
send_rooms env client (room ∷ rooms) w =
    send_rooms env client rooms
      (send client (list_item env room.id room.name [] room.session_info) w)

unfoldable pub on_list_rooms : Env → User → WormsPacket → Handler
unfolding send_rooms
on_list_rooms env client p w =
    if not (value_or p.fields.value4 0 == 0)
    then (returned false, w)
    else (returned true, send client (list_end env) (send_rooms env client w.rooms w))

unfoldable pub send_users : Env → User → ℕ → List User → World → World
send_users env client room [] w = w
send_users env client room (user ∷ users) w = send_users env client room users (
    if room_id w user == room
    then send client (list_item env user.id user.name [] user.session_info) w
    else w)

unfoldable pub on_list_users : Env → User → WormsPacket → Handler
unfolding send_users
on_list_users env client p w =
    let room = room_id w client in
    if not (value_or p.fields.value4 0 == 0) || not (value_or p.fields.value2 0 == room)
    then (returned false, w)
    else (returned true, send client (list_end env) (send_users env client room w.users w))

unfoldable pub send_games : Env → User → List Game → World → World
send_games env client [] w = w
send_games env client (game ∷ games) w = send_games env client games (
    if game.room_id == room_id w client
    then send client
        (list_item env game.id game.name (env.address_text game.address) game.session_info) w
    else w)

unfoldable pub on_list_games : Env → User → WormsPacket → Handler
unfolding send_games
on_list_games env client p w =
    if not (value_or p.fields.value4 0 == 0) || not (value_or p.fields.value2 0 == room_id w client)
    then (returned false, w)
    else (returned true, send client (list_end env) (send_games env client w.games w))
