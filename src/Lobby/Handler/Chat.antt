-- ===== src/Lobby/Handler/Chat.antt =====
-- `OnChatRoom` of src/packet_handler.cpp.
use worms2lobby_server_cpp.Base.{
  ℕ, ◌==◌, Bool, true, false, not, ◌&&◌, ◌||◌, if◌then◌else◌, none, some, List, ◌++◌, is_some,
  value_or, starts_with,
}
use worms2lobby_server_cpp.Base.Literals.{codes}
use worms2lobby_server_cpp.Text.StringUtils.{c_string}
use worms2lobby_server_cpp.Packet.Code.{PacketCode}
use worms2lobby_server_cpp.Packet.Fields.{WormsPacket, no_fields}
use worms2lobby_server_cpp.Lobby.Entities.{User}
use worms2lobby_server_cpp.Lobby.Database.{get_user}
use worms2lobby_server_cpp.Lobby.World.{Env, World, returned, Handler, room_id, send, each, packet}

-- `std::format("GRP:[ {} ]  ", name)` and `std::format("PRV:[ {} ]  ", name)`
abbrev pub group_prefix : List ℕ → List ℕ
group_prefix name = codes "GRP:[ " ++ (name ++ codes " ]  ")

abbrev pub private_prefix : List ℕ → List ℕ
private_prefix name = codes "PRV:[ " ++ (name ++ codes " ]  ")

-- A chat packet; its data is made from a C string.
abbrev pub chat_packet : Env → ℕ → ℕ → List ℕ → List ℕ
chat_packet env from to message =
    packet env PacketCode.chat_room
      (record no_fields { value0 = some from; value3 = some to; content = some (c_string message) })

abbrev pub chat_reply : Env → ℕ → List ℕ
chat_reply env code = packet env PacketCode.chat_room_reply (record no_fields { error = some code })

-- Whether the user is in the sender's room and not the sender.
abbrev pub hears : User → ℕ → World → User → Bool
hears client room w user = room_id w user == room && not (user.id == client.id)

unfoldable pub chat_group : Env → User → ℕ → List ℕ → Handler
chat_group env client target message w =
    let room = room_id w client in
    if room == target
    then (let bytes = chat_packet env client.id room message in
        let w' =
          each (λ user v. if hears client room v user then send user bytes v else v) w.users w in
        (returned true, send client (chat_reply env 0) w'))
    else (returned true, send client (chat_reply env 1) w)

unfoldable pub chat_private : Env → User → ℕ → List ℕ → Handler
chat_private env client target message w = elim (get_user target w.database) [
  | none ↦ (returned true, send client (chat_reply env 1) w)
  | some user ↦
      if room_id w user == room_id w client
      then (
        returned true,
        send client (chat_reply env 0) (send user (chat_packet env client.id target message) w),
      )
      else (returned true, send client (chat_reply env 1) w)
]

unfoldable pub on_chat_room : Env → User → WormsPacket → Handler
unfolding chat_group chat_private
on_chat_room env client p w =
    let f = p.fields in
    let message = value_or f.content (codes "") in
    let target = value_or f.value3 0 in
    if not (value_or f.value0 0 == client.id) || not (is_some f.value3) || not (is_some f.content)
    then (returned false, w)
    else if starts_with (group_prefix client.name) message
    then chat_group env client target message w
    else if starts_with (private_prefix client.name) message
    then chat_private env client target message w
    else (returned true, w)
