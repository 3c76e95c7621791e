-- ===== src/Lobby/Handles.antt =====
-- `PacketHandler::handlePacket` of src/packet_handler.cpp and the lobby's invariant.
use worms2lobby_server_cpp.Base.{
  ◌≡◌, ℕ, ◌==◌, Bool, true, false, not, ◌||◌, if◌then◌else◌, Option, none, some, List, [], inl, inr,
  Bool-cases, is_some, value_or,
}
use worms2lobby_server_cpp.Packet.Code.{PacketCode}
use worms2lobby_server_cpp.Packet.SessionInfo.{SessionInfo}
use worms2lobby_server_cpp.Packet.Fields.{WormsPacket, no_fields}
use worms2lobby_server_cpp.Lobby.Entities.{User}
use worms2lobby_server_cpp.Lobby.World.{
  Address, Env, World, Outcome, returned, threw, room_id, send, packet,
}
use worms2lobby_server_cpp.Lobby.Quiet.{Quiet, Quiet-refl, send-Quiet}
use worms2lobby_server_cpp.Lobby.Invariant.{IsSoundWorld, IsLoggedIn, IsSound-Quiet, leave-IsSound}
use worms2lobby_server_cpp.Lobby.Handler.Rooms.{
  create_room, on_create_room, has_room_named, is_empty, join, on_join, leave, on_leave,
}
use worms2lobby_server_cpp.Lobby.Handler.Games.{host_game, on_create_game}
use worms2lobby_server_cpp.Lobby.Silent.{
  Silent, on_chat_room-Silent, on_list_rooms-Silent, on_list_users-Silent, on_list_games-Silent,
  on_close-Silent, on_connect_game-Silent,
}
use worms2lobby_server_cpp.Lobby.Handler.Dispatch.{handle_code, handle_packet}
use worms2lobby_server_cpp.Lobby.Kept.{
  Kept, Quiet-Kept, join-Kept, create_room-Kept, leave-Kept, host_game-Kept,
}
use worms2lobby_server_cpp.Lobby.Preserve.{
  HasIds, join-IsSound, create_room-IsSound, host_game-IsSound,
}

-- The world that a handler leaves keeps the invariant, the users, and all but one identifier.
record Safe (v : World) (r : Outcome × World) : Type 0 where
  sound : IsSoundWorld r.1
  kept : Kept v r.1

keeps :
    {w : World} (b : Bool) (x y : Outcome × World)
    → Safe w x
    → Safe w y
    → Safe w (if b then x else y)
keeps true x y p q = p
keeps false x y p q = q

quiet : (o : Outcome) (v w : World) → Quiet v w → IsSoundWorld v → Safe v (o, w)
quiet o v w q i = record { sound = IsSound-Quiet q i; kept = Quiet-Kept q }

same : (o : Outcome) (w : World) → IsSoundWorld w → Safe w (o, w)
same o w i = record { sound = i; kept = Quiet-Kept (Quiet-refl w) }

module _ (env : Env) (client : User) (p : WormsPacket) (w : World) (i : IsSoundWorld w) where
  sent : (o : Outcome) (bytes : List ℕ) → Safe w (o, send client bytes w)
  sent o bytes = quiet o w _ (send-Quiet client bytes w) i

  silent : (r : Outcome × World) → Silent w r → Safe w r
  silent r s = record { sound = IsSound-Quiet s.quiet i; kept = Quiet-Kept s.quiet }

  joined : (o : Outcome) (target : ℕ) → Safe w (o, join env client target w)
  joined o target = record {
    sound = join-IsSound env client target w i;
    kept = join-Kept env client target w;
  }

  on_join-IsSound : Safe w (on_join env client p w)
  unfolding on_join
  on_join-IsSound = search (keeps, same, joined)

  created :
      (name : List ℕ) (nation : ℕ)
      → HasIds w
      → has_room_named name w.rooms ≡ false
      → Safe w (create_room env client name nation w)
  created name nation b n = record {
    sound = create_room-IsSound env client name nation w i b n;
    kept = create_room-Kept env client name nation w i.unique.started;
  }

  room_info :
      (info : Option SessionInfo) (name : List ℕ)
      → HasIds w
      → Safe w (elim info as (λ _. Outcome × World) [
        | none ↦ (returned false, w)
        | some info ↦
            if has_room_named name w.rooms
            then (
              returned true,
              send client
                  (packet env PacketCode.create_room_reply
                    (record no_fields { value1 = some 0; error = some 1 }))
                  w,
            )
            else create_room env client name info.player_nation w
      ])
  room_info none name b = same _ w i
  room_info (some info) name b = elim (Bool-cases (has_room_named name w.rooms)) [
    | inl e ↦ rw e (sent _ _)
    | inr e ↦ rw e (created name info.player_nation b e)
  ]

  on_create_room-IsSound : HasIds w → Safe w (on_create_room env client p w)
  unfolding on_create_room
  on_create_room-IsSound b =
      let f = p.fields in
      keeps
        (not (value_or f.value1 0 == 0)
          || not (value_or f.value4 0 == 0)
          || is_empty (value_or f.content [])
          || is_empty (value_or f.name []))
        _ _ (same _ w i) (room_info f.info (value_or f.name []) b)

  module _ (l : IsLoggedIn client w) where
    left : (o : Outcome) → Safe w (o, leave env client w)
    left o = record { sound = leave-IsSound env client w i l; kept = leave-Kept env client w }

    on_leave-IsSound : Safe w (on_leave env client p w)
    unfolding on_leave
    on_leave-IsSound = search (keeps, same, sent, left)

    game_address :
        (access : ℕ) (parsed : Option Address)
        → HasIds w
        → Safe w (elim parsed as (λ _. Outcome × World) [
          | none ↦ (threw, w)
          | some parsed ↦ host_game env client access parsed w
        ])
    game_address access none b = same _ w i
    game_address access (some parsed) b = record {
      sound = host_game-IsSound env client access parsed w i l b;
      kept = host_game-Kept env client access parsed w i.unique.started;
    }

    game_info :
        (info : Option SessionInfo) (text : List ℕ)
        → HasIds w
        → Safe w (elim info as (λ _. Outcome × World) [
          | none ↦ (returned false, w)
          | some info ↦ elim (env.make_address text) [
            | none ↦ (threw, w)
            | some parsed ↦ host_game env client info.access parsed w
          ]
        ])
    game_info none text b = same _ w i
    game_info (some info) text b = game_address info.access (env.make_address text) b

    on_create_game-IsSound : HasIds w → Safe w (on_create_game env client p w)
    unfolding on_create_game
    on_create_game-IsSound b =
        let f = p.fields in
        keeps
          (not (value_or f.value1 1 == 0)
            || not (value_or f.value2 0 == room_id w client)
            || not (value_or f.value4 0 == 0x800)
            || not (is_some f.content)
            || not (is_some f.name))
          _ _ (same _ w i) (game_info f.info (value_or f.content []) b)

    handle_code-IsSound : (code : PacketCode) → HasIds w → Safe w (handle_code code env client p w)
    unfolding handle_code
    handle_code-IsSound PacketCode.chat_room b = silent _ (on_chat_room-Silent env client p w)
    handle_code-IsSound PacketCode.list_rooms b = silent _ (on_list_rooms-Silent env client p w)
    handle_code-IsSound PacketCode.list_users b = silent _ (on_list_users-Silent env client p w)
    handle_code-IsSound PacketCode.list_games b = silent _ (on_list_games-Silent env client p w)
    handle_code-IsSound PacketCode.create_room b = on_create_room-IsSound b
    handle_code-IsSound PacketCode.join b = on_join-IsSound
    handle_code-IsSound PacketCode.leave b = on_leave-IsSound
    handle_code-IsSound PacketCode.close b = silent _ (on_close-Silent env client p w)
    handle_code-IsSound PacketCode.create_game b = on_create_game-IsSound b
    handle_code-IsSound PacketCode.connect_game b = silent _ (on_connect_game-Silent env client p w)
    handle_code-IsSound _ b = same _ w i

-- A packet from a user who is logged in keeps the lobby sound, whatever its code and its fields,
-- also where the handler fails, while the counter of identifiers has numbers left.
pub handle_packet-IsSound :
    (env : Env) (client : User) (p : WormsPacket) (w : World)
    → IsSoundWorld w
    → IsLoggedIn client w
    → HasIds w
    → IsSoundWorld (handle_packet env client p w).1
unfolding handle_packet
handle_packet-IsSound env client p w i l b = (handle_code-IsSound env client p w i l p.code b).sound

-- A packet from a user who is logged in to a sound lobby leaves the table of users alone and takes
-- one new identifier of the counter at most, while the counter has numbers left.
pub handle_packet-Kept :
    (env : Env) (client : User) (p : WormsPacket) (w : World)
    → IsSoundWorld w
    → IsLoggedIn client w
    → HasIds w
    → Kept w (handle_packet env client p w).1
unfolding handle_packet
handle_packet-Kept env client p w i l b = (handle_code-IsSound env client p w i l p.code b).kept
