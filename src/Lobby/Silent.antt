-- ===== src/Lobby/Silent.antt =====
-- The handlers of src/packet_handler.cpp that only send packets: chats, lists, `OnClose` and
-- `OnConnectGame`.
use worms2lobby_server_cpp.Base.{
  ℕ, ◌==◌, Bool, true, false, not, if◌then◌else◌, Option, none, some, List, [], inl, inr,
  Bool-cases, Option-cases, is_some,
}
use worms2lobby_server_cpp.Packet.Fields.{WormsPacket}
use worms2lobby_server_cpp.Lobby.Entities.{User, Game}
use worms2lobby_server_cpp.Lobby.Database.{get_user}
use worms2lobby_server_cpp.Lobby.World.{Env, World, Outcome, returned, room_id, send}
use worms2lobby_server_cpp.Lobby.Quiet.{
  Quiet, Quiet-refl, Quiet-trans, send-Quiet, if-Quiet, each-Quiet, send_rooms-Quiet,
  send_users-Quiet, send_games-Quiet,
}
use worms2lobby_server_cpp.Lobby.Handler.Chat.{on_chat_room, chat_group, chat_private}
use worms2lobby_server_cpp.Lobby.Handler.Lists.{on_list_rooms, on_list_users, on_list_games}
use worms2lobby_server_cpp.Lobby.Handler.Rooms.{on_close}
use worms2lobby_server_cpp.Lobby.Handler.Games.{on_connect_game, connect_reply}

-- However the handler ends, it has sent packets at most.
pub record Silent (v : World) (r : Outcome × World) : Type 0 where
  pub quiet : Quiet v r.1

either :
    {w : World} (b : Bool) (x y : Outcome × World)
    → Silent w x
    → Silent w y
    → Silent w (if b then x else y)
either true x y p q = p
either false x y p q = q

same : (o : Outcome) (w : World) → Silent w (o, w)
same o w = record { quiet = Quiet-refl w }

module _ (env : Env) (client : User) (p : WormsPacket) (w : World) where
  sent : (o : Outcome) (bytes : List ℕ) → Silent w (o, send client bytes w)
  sent o bytes = record { quiet = send-Quiet client bytes w }

  sent_after :
      (o : Outcome) (bytes : List ℕ) (v : World) → Quiet w v → Silent w (o, send client bytes v)
  sent_after o bytes v q = record { quiet = Quiet-trans q (send-Quiet client bytes v) }

  chat_private-Silent :
      (target : ℕ) (message : List ℕ) → Silent w (chat_private env client target message w)
  unfolding chat_private
  chat_private-Silent target message = elim (Option-cases (get_user target w.database)) [
    | inl e ↦ rw (e, chat_private) (sent _ _)
    | inr (u, e) ↦ rw (e, chat_private) (search (either, sent, sent_after, send-Quiet))
  ]

  chat_group-Silent :
      (target : ℕ) (message : List ℕ) → Silent w (chat_group env client target message w)
  unfolding chat_group
  chat_group-Silent target message = elim (Bool-cases (room_id w client == target)) [
    | inl e ↦ rw e (
        sent_after _ _ _
          (each-Quiet _ (λ u v. if-Quiet _ v _ _ (send-Quiet u _ v) (Quiet-refl v)) w.users w))
    | inr e ↦ rw e (sent _ _)
  ]

  pub on_chat_room-Silent : Silent w (on_chat_room env client p w)
  unfolding on_chat_room
  on_chat_room-Silent = search (either, same, chat_group-Silent, chat_private-Silent)

  pub on_list_rooms-Silent : Silent w (on_list_rooms env client p w)
  unfolding on_list_rooms
  on_list_rooms-Silent = search (either, same, sent_after, send_rooms-Quiet)

  pub on_list_users-Silent : Silent w (on_list_users env client p w)
  unfolding on_list_users
  on_list_users-Silent = search (either, same, sent_after, send_users-Quiet)

  pub on_list_games-Silent : Silent w (on_list_games env client p w)
  unfolding on_list_games
  on_list_games-Silent = search (either, same, sent_after, send_games-Quiet)

  pub on_close-Silent : Silent w (on_close env client p w)
  unfolding on_close
  on_close-Silent = search (either, same, sent)

  connect_found :
      (o : Option Game)
      → Silent w (elim o as (λ _. Outcome × World) [
        | none ↦ (returned true, send client (connect_reply env [] 1) w)
        | some game ↦
            (returned true, send client (connect_reply env (env.address_text game.address) 0) w)
      ])
  connect_found none = sent _ _
  connect_found (some game) = sent _ _

  pub on_connect_game-Silent : Silent w (on_connect_game env client p w)
  unfolding on_connect_game
  on_connect_game-Silent = either (not (is_some p.fields.value0)) _ _ (same _ w) (connect_found _)
