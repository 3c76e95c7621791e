-- ===== src/Lobby/Handler/Games.antt =====
-- `OnCreateGame` and `OnConnectGame` of src/packet_handler.cpp.
use worms2lobby_server_cpp.Base.{
  ℕ, ◌==◌, true, false, not, ◌&&◌, ◌||◌, if◌then◌else◌, none, some, List, [], find_if, is_some,
  value_or,
}
use worms2lobby_server_cpp.Base.Literals.{codes}
use worms2lobby_server_cpp.Packet.Code.{PacketCode}
use worms2lobby_server_cpp.Packet.Fields.{WormsPacket, no_fields}
use worms2lobby_server_cpp.Lobby.Entities.{User, new_game}
use worms2lobby_server_cpp.Lobby.Database.{get_next_id, add_game}
use worms2lobby_server_cpp.Lobby.World.{
  Address, v4, v6, Env, World, returned, threw, Handler, room_id, send, get_address, on_database,
  packet,
}
use worms2lobby_server_cpp.Lobby.Handler.Chat.{chat_packet}
use worms2lobby_server_cpp.Lobby.Handler.Rooms.{tell_others}

abbrev pub create_game_reply : Env → ℕ → ℕ → List ℕ
create_game_reply env id code =
    packet env PacketCode.create_game_reply
      (record no_fields { value1 = some id; error = some code })

abbrev pub cannot_host : List ℕ
cannot_host =
    codes
      "GRP:Cannot host your game. Please use FrontendKitWS with fkNetcode. More information at worms2d.info/fkNetcode"

-- What the function does after its test of the address, whatever the test said.
unfoldable pub refuse_game : Env → User → World → World
refuse_game env client w =
    send client (chat_packet env client.id (room_id w client) cannot_host)
      (send client (create_game_reply env 0 2) w)

unfoldable pub open_game : Env → User → ℕ → ℕ → ℕ → World → World
open_game env client access address id w =
    let game =
      new_game id client.name client.session_info.player_nation (room_id w client) address access in
    let w' = on_database (add_game game) w in
    let bytes = packet env PacketCode.create_game (record no_fields {
      value1 = some id;
      value2 = some game.room_id;
      value4 = some 0x800;
      name = some game.name;
      content = some (env.address_text game.address);
      info = some game.session_info;
    }) in
    send client (create_game_reply env id 0) (tell_others client bytes w')

-- The branch for a client that hosts at its own IPv4 address.
unfoldable pub create_game : Env → User → ℕ → Handler
unfolding open_game refuse_game
create_game env client access w =
    let (next, database) = get_next_id env.queue w.database in
    let w' = record w { database = database } in
    elim next [
      | none ↦ (threw, w')
      | some id ↦ elim (get_address w' client) [
        | none ↦ (threw, w')
        | some address ↦
            (returned true, refuse_game env client (open_game env client access address id w'))
      ]
    ]

-- `parsedIp.is_v4() && clientUser->getAddress() == parsedIp`; the client's address is asked for only
-- where the parsed one is an IPv4 address.
unfoldable pub host_game : Env → User → ℕ → Address → Handler
unfolding create_game
host_game env client access (v6 text) w = (returned true, refuse_game env client w)
host_game env client access (v4 parsed) w = elim (get_address w client) [
  | none ↦ (threw, w)
  | some address ↦
      if address == parsed
      then create_game env client access w
      else (returned true, refuse_game env client w)
]

unfoldable pub on_create_game : Env → User → WormsPacket → Handler
unfolding host_game
on_create_game env client p w =
    let f = p.fields in
    if not (value_or f.value1 1 == 0)
      || not (value_or f.value2 0 == room_id w client)
      || not (value_or f.value4 0 == 0x800)
      || not (is_some f.content)
      || not (is_some f.name)
    then (returned false, w)
    else elim f.info [
      | none ↦ (returned false, w)
      | some info ↦ elim (env.make_address (value_or f.content [])) [
        | none ↦ (threw, w)
        | some parsed ↦ host_game env client info.access parsed w
      ]
    ]

abbrev pub connect_reply : Env → List ℕ → ℕ → List ℕ
connect_reply env text code =
    packet env PacketCode.connect_game_reply
      (record no_fields { content = some text; error = some code })

unfoldable pub on_connect_game : Env → User → WormsPacket → Handler
on_connect_game env client p w =
    if not (is_some p.fields.value0)
    then (returned false, w)
    else (let id = value_or p.fields.value0 0 in
        elim (find_if (λ game. game.id == id && game.room_id == room_id w client) w.games) [
          | none ↦ (returned true, send client (connect_reply env [] 1) w)
          | some game ↦
              (returned true, send client (connect_reply env (env.address_text game.address) 0) w)
        ])
