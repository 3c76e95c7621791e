-- ===== src/Lobby/Hosting.antt =====
-- What `OnCreateGame` of src/packet_handler.cpp tells a client that may host.
use worms2lobby_server_cpp.Base.{
  ℕ, ◌≡◌, refl, ◌∙◌, ==_refl, some, List, [], ◌∷◌, ◌++◌, append_assoc,
}
use worms2lobby_server_cpp.Packet.Code.{PacketCode}
use worms2lobby_server_cpp.Packet.Fields.{no_fields}
use worms2lobby_server_cpp.Lobby.Handler.Rooms.{tell_others}
use worms2lobby_server_cpp.Lobby.Entities.{User, Game, new_game}
use worms2lobby_server_cpp.Lobby.Database.{get_next_id, add_game}
use worms2lobby_server_cpp.Lobby.World.{
  Env, World, Session, v4, room_id, send, get_address, on_database, packet,
}
use worms2lobby_server_cpp.Lobby.Quiet.{Quiet, Quiet-trans, send-Quiet, tell_others-Quiet}
use worms2lobby_server_cpp.Lobby.Handler.Chat.{chat_packet}
use worms2lobby_server_cpp.Lobby.Handler.Games.{
  create_game_reply, cannot_host, refuse_game, open_game, create_game, host_game,
}
use worms2lobby_server_cpp.Lobby.Sent.{sent-alive}

abbrev hosted : User → ℕ → ℕ → ℕ → World → Game
hosted client access address id w =
    new_game id client.name client.session_info.player_nation (room_id w client) address access

address-alive :
    (w : World) (user : User) (s : Session)
    → w.sessions user.session ≡ some s
    → get_address w user ≡ s.address
unfolding get_address
address-alive w user s e = rw (e, get_address) refl

-- A client that hosts is told both answers.
module _ (env : Env) (client : User) (s : Session) where
  refuse_game-sent :
      (w : World)
      → w.sessions client.session ≡ some s
      → (refuse_game env client w).sent
        ≡ w.sent
          ++ (client.session, create_game_reply env 0 2)
            ∷ (client.session, chat_packet env client.id (room_id w client) cannot_host)
            ∷ []
  unfolding refuse_game
  refuse_game-sent w e =
      let q = send-Quiet client (create_game_reply env 0 2) w in
      sent-alive client _ (send client (create_game_reply env 0 2) w) s (rw q.same_sessions e)
      ∙ rw (sent-alive client (create_game_reply env 0 2) w s e) (append_assoc w.sent _ _)

  -- The last thing that is sent when a game opens is the answer.
  open_game-sent :
      (access address id : ℕ) (w : World)
      → w.sessions client.session ≡ some s
      → (before : List (ℕ × List ℕ)) × ((open_game env client access address id w).sent
          ≡ before ++ (client.session, create_game_reply env id 0) ∷ [])
        × Quiet
            (on_database (add_game (hosted client access address id w)) w)
            (open_game env client access address id w)
  unfolding open_game new_game
  open_game-sent access address id w e =
      let w' = on_database (add_game (hosted client access address id w)) w in
      let bytes = packet env PacketCode.create_game (record no_fields {
        value1 = some id;
        value2 = some (room_id w client);
        value4 = some 0x800;
        name = some client.name;
        content = some (env.address_text address);
        info = some (hosted client access address id w).session_info;
      }) in
      let q = tell_others-Quiet client bytes w' in
      (
        (tell_others client bytes w').sent,
        sent-alive client _ (tell_others client bytes w') s (rw q.same_sessions e),
        Quiet-trans q (send-Quiet client _ _),
      )

-- A client that hosts at its own address, is alive and gets an identifier, is told that its game
-- is open, and right after it that it is not and that it cannot host.
pub host_game-sent :
    (env : Env) (client : User) (access address id : ℕ) (s : Session) (w : World)
    → w.sessions client.session ≡ some s
    → s.address ≡ some address
    → (get_next_id env.queue w.database).0 ≡ some id
    → (before : List (ℕ × List ℕ)) × ((host_game env client access (v4 address) w).1.sent
        ≡ before
          ++ (client.session, create_game_reply env id 0)
            ∷ (client.session, create_game_reply env 0 2)
            ∷ (client.session, chat_packet env client.id (room_id w client) cannot_host)
            ∷ [])
unfolding host_game create_game
host_game-sent env client access address id s w e a h =
    rw
      (
        address-alive w client s e,
        a,
        host_game,
        ==_refl address,
        create_game,
        h,
        address-alive next client s e,
        a,
      )
      answers
  where
    next : World
    next = record w { database = (get_next_id env.queue w.database).1 }

    answers :
        (before : List (ℕ × List ℕ)) × ((refuse_game env client
            (open_game env client access address id next)).sent
          ≡ before
            ++ (client.session, create_game_reply env id 0)
              ∷ (client.session, create_game_reply env 0 2)
              ∷ (client.session, chat_packet env client.id (room_id w client) cannot_host)
              ∷ [])
    answers =
        let (before, o, q) = open_game-sent env client s access address id next e in
        (
          before,
          refuse_game-sent env client s (open_game env client access address id next)
                (rw q.same_sessions e)
              ∙ rw (o, q.same_rooms_of) (append_assoc before _ _),
        )
