-- ===== src/Lobby/Handler/Dispatch.antt =====
-- `PacketHandler::handlePacket` of src/packet_handler.cpp.
use worms2lobby_server_cpp.Base.{false}
use worms2lobby_server_cpp.Packet.Code.{PacketCode}
use worms2lobby_server_cpp.Packet.Fields.{WormsPacket}
use worms2lobby_server_cpp.Lobby.Entities.{User}
use worms2lobby_server_cpp.Lobby.World.{Env, returned, Handler}
use worms2lobby_server_cpp.Lobby.Handler.Chat.{on_chat_room}
use worms2lobby_server_cpp.Lobby.Handler.Lists.{on_list_rooms, on_list_users, on_list_games}
use worms2lobby_server_cpp.Lobby.Handler.Rooms.{on_create_room, on_join, on_leave, on_close}
use worms2lobby_server_cpp.Lobby.Handler.Games.{on_create_game, on_connect_game}

unfoldable pub handle_code : PacketCode → Env → User → WormsPacket → Handler
handle_code PacketCode.chat_room = on_chat_room
handle_code PacketCode.list_rooms = on_list_rooms
handle_code PacketCode.list_users = on_list_users
handle_code PacketCode.list_games = on_list_games
handle_code PacketCode.create_room = on_create_room
handle_code PacketCode.join = on_join
handle_code PacketCode.leave = on_leave
handle_code PacketCode.close = on_close
handle_code PacketCode.create_game = on_create_game
handle_code PacketCode.connect_game = on_connect_game
handle_code _ = λ env client p w. (returned false, w)

unfoldable pub handle_packet : Env → User → WormsPacket → Handler
unfolding handle_code
handle_packet env client p = handle_code p.code env client p
