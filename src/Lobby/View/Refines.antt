-- ===== src/Lobby/View/Refines.antt =====
-- The whole lobby against the view: `PacketHandler::handlePacket` of src/packet_handler.cpp, and what
-- the sessions of src/user_session.cpp do from the start of the server on.
use worms2lobby_server_cpp.Base.{
  ℕ, ◌≡◌, refl, sym, subst, ap, ◌==◌, true, false, not, ◌||◌, if◌then◌else◌, Option, none, some,
  List, [], arith, inl, inr, Bool-cases, is_some, value_or,
}
use worms2lobby_server_cpp.Packet.SessionInfo.{SessionInfo}
use worms2lobby_server_cpp.Packet.Code.{PacketCode}
use worms2lobby_server_cpp.Packet.Fields.{WormsPacket, no_fields}
use worms2lobby_server_cpp.Lobby.Entities.{User, Room}
use worms2lobby_server_cpp.Lobby.Database.{Database, empty_database, get_user, get_room, get_game}
use worms2lobby_server_cpp.Lobby.World.{
  Address, Env, World, Outcome, returned, threw, room_id, send, packet,
}
use worms2lobby_server_cpp.Lobby.Quiet.{send-Quiet}
use worms2lobby_server_cpp.Lobby.Silent.{
  Silent, on_chat_room-Silent, on_list_rooms-Silent, on_list_users-Silent, on_list_games-Silent,
  on_close-Silent, on_connect_game-Silent,
}
use worms2lobby_server_cpp.Lobby.Invariant.{IsSoundWorld}
use worms2lobby_server_cpp.Lobby.Preserve.{HasIds}
use worms2lobby_server_cpp.Lobby.Handler.Rooms.{
  create_room, on_create_room, has_room_named, is_empty, on_join, on_leave,
}
use worms2lobby_server_cpp.Lobby.Handler.Games.{host_game, on_create_game}
use worms2lobby_server_cpp.Lobby.Handler.Dispatch.{handle_code, handle_packet}
use worms2lobby_server_cpp.Lobby.Reach.{
  Step, logs_in, sends, disconnects, writes, Reachable, starts, goes_on, Reachable-IsSound,
}
use worms2lobby_server_cpp.Lobby.View.{lobby, view, address_of}
use worms2lobby_server_cpp.Lobby.View.Spec.{
  Request, opens, hosts, room_request, game_request, join_request, leave_request, request_of,
  Performs, ignored, name_taken, not_hosted, Event, login, message, exit, socket, Moves, asks,
  departs, connects, empty_lobby, Comes,
}
use worms2lobby_server_cpp.Lobby.View.Laws.{any_of-found}
use worms2lobby_server_cpp.Lobby.View.Requests.{
  quietly, join-Performs, create_room-Performs, host_game-Performs,
}
use worms2lobby_server_cpp.Lobby.View.Departures.{leave-Performs, disconnect_user-Departs}
use worms2lobby_server_cpp.Lobby.View.Arrivals.{handle_login-Moves}

module _ (env : Env) (client : User) (p : WormsPacket) (w : World) (i : IsSoundWorld w) where
  abbrev Answers : Option Request → Outcome × World → Type 0
  Answers q r = Performs env client (view w) q (view r.1)

  silently : (r : Outcome × World) → Silent w r → Answers none r
  silently r s = quietly env client s.quiet ignored

  on_join-Answers : Answers (join_request client.id p) (on_join env client p w)
  unfolding on_join
  on_join-Answers =
      elim (Bool-cases
        (not (is_some p.fields.value2) || not (value_or p.fields.value10 0 == client.id))) [
          | inl e ↦ rw e ignored
          | inr e ↦ rw e (join-Performs env client (value_or p.fields.value2 0) w)
        ]

  on_leave-Answers :
      Answers (leave_request client.id (room_id w client) p) (on_leave env client p w)
  unfolding on_leave
  on_leave-Answers =
      elim (Bool-cases
        (not (value_or p.fields.value10 0 == client.id) || not (is_some p.fields.value2))) [
          | inl e ↦ rw e ignored
          | inr e ↦ elim (Bool-cases (value_or p.fields.value2 0 == room_id w client)) [
            | inl f ↦ rw (e, f) (leave-Performs env client w i)
            | inr f ↦ rw (e, f) (quietly env client (send-Quiet client _ w) ignored)
          ]
        ]

  room_info :
      (info : Option SessionInfo) (name : List ℕ)
      → HasIds w
      → Answers
          (elim info as (λ _. Option Request) [
            | none ↦ none
            | some info ↦ some (opens name info.player_nation)
          ])
          (elim info as (λ _. Outcome × World) [
            | none ↦ (returned false, w)
            | some info ↦
                if has_room_named name w.rooms
                then (
                  returned true,
                  send client
                      (packet env PacketCode.create_room_reply
                        (record no_fields { value1 = some 0; error = some 1 }))
                      w,
                )
                else create_room env client name info.player_nation w
          ])
  unfolding get_room
  room_info none name b = ignored
  room_info (some info) name b = elim (Bool-cases (has_room_named name w.rooms)) [
    | inl e ↦
        let (r, f, q) =
          any_of-found (λ (r : Room). r.id) _ w.rooms (λ k. omega (arith, i.unique.once k)) e in
        rw e (
          quietly env client (send-Quiet client _ w)
            (name_taken name info.player_nation r.id r f q))
    | inr e ↦ rw e (create_room-Performs env client name info.player_nation w i b e)
  ]

  on_create_room-Answers : HasIds w → Answers (room_request p) (on_create_room env client p w)
  unfolding on_create_room
  on_create_room-Answers b =
      elim (Bool-cases (
        not (value_or p.fields.value1 0 == 0)
        || not (value_or p.fields.value4 0 == 0)
        || is_empty (value_or p.fields.content [])
        || is_empty (value_or p.fields.name []))) [
          | inl e ↦ rw e ignored
          | inr e ↦ rw e (room_info p.fields.info (value_or p.fields.name []) b)
        ]

  game_address :
      (access : ℕ) (text : List ℕ) (parsed : Option Address)
      → HasIds w
      → env.make_address text ≡ parsed
      → Answers (some (hosts access text)) (elim parsed as (λ _. Outcome × World) [
        | none ↦ (threw, w)
        | some parsed ↦ host_game env client access parsed w
      ])
  game_address access text none b e = not_hosted access text (λ a f g. cc)
  game_address access text (some parsed) b e =
      host_game-Performs env client access text parsed w i b e

  game_info :
      (info : Option SessionInfo) (text : List ℕ)
      → HasIds w
      → Answers
          (elim info as (λ _. Option Request) [
            | none ↦ none
            | some info ↦ some (hosts info.access text)
          ])
          (elim info as (λ _. Outcome × World) [
            | none ↦ (returned false, w)
            | some info ↦ elim (env.make_address text) [
              | none ↦ (threw, w)
              | some parsed ↦ host_game env client info.access parsed w
            ]
          ])
  game_info none text b = ignored
  game_info (some info) text b = game_address info.access text (env.make_address text) b refl

  on_create_game-Answers :
      HasIds w → Answers (game_request (room_id w client) p) (on_create_game env client p w)
  unfolding on_create_game
  on_create_game-Answers b =
      elim (Bool-cases (
        not (value_or p.fields.value1 1 == 0)
        || not (value_or p.fields.value2 0 == room_id w client)
        || not (value_or p.fields.value4 0 == 0x800)
        || not (is_some p.fields.content)
        || not (is_some p.fields.name))) [
          | inl e ↦ rw e ignored
          | inr e ↦ rw e (game_info p.fields.info (value_or p.fields.content []) b)
        ]

  handle_code-Answers :
      (code : PacketCode)
      → HasIds w
      → Answers (request_of code client.id (room_id w client) p) (handle_code code env client p w)
  unfolding handle_code
  handle_code-Answers PacketCode.chat_room b = silently _ (on_chat_room-Silent env client p w)
  handle_code-Answers PacketCode.list_rooms b = silently _ (on_list_rooms-Silent env client p w)
  handle_code-Answers PacketCode.list_users b = silently _ (on_list_users-Silent env client p w)
  handle_code-Answers PacketCode.list_games b = silently _ (on_list_games-Silent env client p w)
  handle_code-Answers PacketCode.create_room b = on_create_room-Answers b
  handle_code-Answers PacketCode.join b = on_join-Answers
  handle_code-Answers PacketCode.leave b = on_leave-Answers
  handle_code-Answers PacketCode.close b = silently _ (on_close-Silent env client p w)
  handle_code-Answers PacketCode.create_game b = on_create_game-Answers b
  handle_code-Answers PacketCode.connect_game b = silently _ (on_connect_game-Silent env client p w)
  handle_code-Answers _ b = ignored

-- handle
pub handle_packet-Performs :
    (env : Env) (client : User) (p : WormsPacket) (w : World)
    → IsSoundWorld w
    → HasIds w
    → Performs env client
        (view w)
        (request_of p.code client.id (room_id w client) p)
        (view (handle_packet env client p w).1)
unfolding handle_packet
handle_packet-Performs env client p w i b = handle_code-Answers env client p w i p.code b

-- What a step of the lobby is to its clients.
abbrev pub event_of : {env : Env} {v w : World} → Step env v w → Event
event_of (logs_in session received w b) = login session received
event_of (sends client p w l b) = message client p
event_of (disconnects client w l) = exit client
event_of (writes sessions sent w) = socket

-- Seen as functions from identifiers to users, rooms and games, with the room and the address of
-- each session, a sound lobby does at a login, a packet or a disconnection just what the
-- specification of that event says, and nothing else changes: a login enters exactly where it asks
-- for a free name, and takes a free identifier and room 0; a packet joins, leaves, opens a room or
-- opens a game exactly where it asks for it and the lobby allows it, and changes nothing
-- otherwise; one who leaves or disconnects takes the room along exactly where nobody else and no
-- other game is in it, and where one disconnects with a game under its name, that room is the
-- game's, and the game goes too.
pub Step-Moves :
    {env : Env} {v w : World} (s : Step env v w)
    → IsSoundWorld v
    → Moves env (view v) (event_of s) (view w)
unfolding get_user
Step-Moves {env} (logs_in session received w b) i = handle_login-Moves env session received w i b
Step-Moves {env} (sends client p w l b) i =
    asks client p _ l (handle_packet-Performs env client p w i b)
Step-Moves {env} (disconnects client w l) i =
    departs client _ l (disconnect_user-Departs env client w i l)
Step-Moves {env} (writes sessions sent w) i = connects (address_of sessions)

view-empty :
    (w : World)
    → w.database ≡ empty_database
    → view w ≡ empty_lobby w.room_of (address_of w.sessions)
unfolding empty_database get_user get_room get_game
view-empty w e = ap (λ (d : Database). lobby d w.room_of w.sessions) e

-- reach
pub Reachable-Comes : (env : Env) (w : World) → Reachable env w → Comes env (view w)
Reachable-Comes env w (starts _ e) =
    subst (Comes env) (sym (view-empty w e)) (Comes.starts w.room_of (address_of w.sessions))
Reachable-Comes env w (goes_on {v} r s) =
    Comes.goes_on (event_of s) (Reachable-Comes env v r) (Step-Moves s (Reachable-IsSound env v r))
