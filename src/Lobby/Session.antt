-- ===== src/Lobby/Session.antt =====
-- `UserSession::handleLogin`, from the bytes that were received on, and `DisconnectUser` of
-- src/user_session.cpp.
pub mod Login
pub mod Disconnect
use worms2lobby_server_cpp.Base.{
  ℕ, ◌-◌, ◌==◌, Bool, true, false, not, ◌||◌, if◌then◌else◌, Option, none, some, List, [], ◌∷◌,
  ◌++◌, length, replicate, is_some, find_if,
}
use worms2lobby_server_cpp.Text.StringUtils.{equals_case_insensitive, c_string}
use worms2lobby_server_cpp.Packet.Io.{ParseResult, complete, partial, error, fault}
use worms2lobby_server_cpp.Packet.Code.{PacketCode, code_value}
use worms2lobby_server_cpp.Packet.SessionInfo.{SessionInfo}
use worms2lobby_server_cpp.Packet.Fields.{PacketFields, WormsPacket, no_fields}
use worms2lobby_server_cpp.Packet.Read.{read_from}
use worms2lobby_server_cpp.Lobby.Entities.{User, Room, Game, new_user}
use worms2lobby_server_cpp.Lobby.Database.{
  get_next_id, add_user, remove_user, remove_game, get_room, get_game_by_name,
}
use worms2lobby_server_cpp.Lobby.World.{
  Env, World, room_id, set_room_id, send, each, on_database, packet,
}
use worms2lobby_server_cpp.Lobby.Handler.Leave.{leave_room_with}

-- How a login ends: without an answer, with an answer that is written to the socket at once, or with
-- a user.
pub data LoginEnd : Type 0 where
  refused : LoginEnd
  taken : List ℕ → LoginEnd
  accepted : User → LoginEnd

-- `UserSession::sendPacket` of the session itself.
unfoldable pub enqueue : ℕ → List ℕ → World → World
enqueue session bytes w = record w { sent = w.sent ++ (session, bytes) ∷ [] }

-- The user is told to the others before it is in the table. A new user is in no room.
unfoldable pub admit : Env → ℕ → List ℕ → ℕ → ℕ → World → LoginEnd × World
unfolding enqueue
admit env session name nation id w =
    let user = new_user session id name nation in
    let bytes = packet env PacketCode.login (record no_fields {
      value1 = some id;
      value4 = some 0;
      name = some (c_string name);
      info = some user.session_info;
    }) in
    let w' = each (λ other v. send other bytes v) w.users (set_room_id user 0 w) in
    let w'' = on_database (add_user user) w' in
    (
      accepted user,
      enqueue session
          (packet env PacketCode.login_reply
            (record no_fields { value1 = some id; error = some 0 }))
          w'',
    )

abbrev pub has_user_named : List ℕ → List User → Bool
has_user_named name users = is_some (find_if (λ user. equals_case_insensitive user.name name) users)

-- The name is free, or the login ends.
unfoldable pub enter : Env → ℕ → List ℕ → ℕ → World → LoginEnd × World
unfolding admit
enter env session name nation w =
    if has_user_named name w.users
    then (
      taken (
          packet env PacketCode.login_reply (record no_fields { value1 = some 0; error = some 1 })),
      w,
    )
    else (let (next, database) = get_next_id env.queue w.database in
        let w' = record w { database = database } in
        elim next [ none ↦ (refused, w') | some id ↦ admit env session name nation id w' ])

-- `login_info->code() != PacketCode::Login`
abbrev pub is_login : WormsPacket → Bool
is_login p = code_value p.code == code_value PacketCode.login

-- The tests of the packet.
unfoldable pub login_with : Env → ℕ → WormsPacket → World → LoginEnd × World
unfolding enter
login_with env session p w =
    let f = p.fields in
    if not (is_login p) || not (is_some f.value1) || not (is_some f.value4)
    then (refused, w)
    else elim f.name [
      | none ↦ (refused, w)
      | some name ↦ elim f.info [
        | none ↦ (refused, w)
        | some info ↦ enter env session name info.player_nation w
      ]
    ]

-- The buffer of 1024 zeros that the bytes were received into is read whole, however many came. A
-- dereference of a missing value would be undefined, and stands here as a refusal.
unfoldable pub handle_login : Env → ℕ → List ℕ → World → LoginEnd × World
unfolding login_with
handle_login env session received w =
    let incoming = received ++ replicate (1024 - length received) 0 in
    elim (read_from env.io env.settings incoming) [
      | complete p rest ↦ login_with env session p w
      | partial ↦ (refused, w)
      | error e ↦ (refused, w)
      | fault ↦ (refused, w)
    ]

-- `LeaveRoom` of src/user_session.cpp: that of the handlers, but for the number of a missing room.
unfoldable pub leave_room_on_exit : Env → Option Room → ℕ → World → World
unfolding leave_room_with
leave_room_on_exit = leave_room_with 0

-- The game under the client's name is taken away, and the others are told.
unfoldable pub close_game : Env → User → Game → World → World
close_game env client game w =
    let w' = on_database (remove_game env.queue game.id) w in
    let left =
      packet env PacketCode.leave
        (record no_fields { value2 = some game.id; value10 = some client.id }) in
    let closed = packet env PacketCode.close (record no_fields { value10 = some game.id }) in
    each (λ user v. if user.id == client.id then v else send user closed (send user left v))
      w'.users w'

-- The room that the client leaves, and the identifier under which it does: those of its game where
-- it has one.
abbrev pub leaver : Env → User → World → ℕ × ℕ × World
leaver env client w =
    let w' = on_database (remove_user env.queue client.id) w in
    elim (get_game_by_name client.name w'.database) [
      | none ↦ (room_id w client, client.id, w')
      | some game ↦ (game.room_id, game.id, close_game env client game w')
    ]

unfoldable pub disconnect_user : Env → User → World → World
unfolding leave_room_on_exit close_game
disconnect_user env client w =
    if client.id == 0
    then w
    else (let (room, left_id, w') = leaver env client w in
        let w'' = leave_room_on_exit env (get_room room w'.database) left_id w' in
        let bytes =
          packet env PacketCode.disconnect_user (record no_fields { value10 = some client.id }) in
        each (λ user v. send user bytes v) w''.users w'')
