-- ===== src/Lobby/Told/Lists.antt =====
-- What a client is sent that asks for a list: `OnListRooms`, `OnListUsers` and `OnListGames` of
-- src/packet_handler.cpp; for the users against `Database::getUsersInRoom` of src/database.cpp, which
-- says the same of the table and which no code calls.
use worms2lobby_server_cpp.Base.{
  ℕ, ◌≡◌, refl, sym, ap, ◌∙◌, ◌==◌, Bool, ◌&&◌, true, false, if◌then◌else◌, List, [], ◌∷◌, ◌++◌,
  map, filter, Bool-cases, inl, inr, value_or,
}
use worms2lobby_server_cpp.Packet.Fields.{WormsPacket}
use worms2lobby_server_cpp.Lobby.Entities.{User, Room, Game}
use worms2lobby_server_cpp.Lobby.World.{Env, World, room_id, send}
use worms2lobby_server_cpp.Lobby.Quiet.{Quiet, Quiet-refl, Quiet-trans, send-Quiet}
use worms2lobby_server_cpp.Lobby.Handler.Lists.{
  list_item, list_end, send_rooms, on_list_rooms, send_users, on_list_users, send_games,
  on_list_games,
}
use worms2lobby_server_cpp.Lobby.Told.{send_all, mail, send_all-sent}

abbrev pub get_users_in_room : ℕ → World → List User
get_users_in_room room w = filter (λ user. room_id w user == room) w.users

-- The packets of the lists.
abbrev pub room_items : Env → World → List (List ℕ)
room_items env w = map (λ room. list_item env room.id room.name [] room.session_info) w.rooms

abbrev pub user_items : Env → ℕ → World → List (List ℕ)
user_items env place w =
    map (λ user. list_item env user.id user.name [] user.session_info) (get_users_in_room place w)

abbrev pub game_items : Env → ℕ → World → List (List ℕ)
game_items env place w =
    map (λ game. list_item env game.id game.name (env.address_text game.address) game.session_info)
      (filter (λ game. game.room_id == place) w.games)

-- A request for a list, and one for the list of the client's own room.
abbrev pub asks_list : WormsPacket → Bool
asks_list p = value_or p.fields.value4 0 == 0

abbrev pub asks_own : User → WormsPacket → World → Bool
asks_own client p w = asks_list p && value_or p.fields.value2 0 == room_id w client

-- A list with its end, where the request is one that is answered.
abbrev pub listed : Env → Bool → List (List ℕ) → List (List ℕ)
listed env asked items = if asked then items ++ list_end env ∷ [] else []

module _ (env : Env) (client : User) where
  send_all-append :
      (items : List (List ℕ)) (bytes : List ℕ) (w : World)
      → send_all client (items ++ bytes ∷ []) w ≡ send client bytes (send_all client items w)
  send_all-append [] bytes w = refl
  send_all-append (item ∷ items) bytes w = send_all-append items bytes (send client item w)

  send_rooms-all :
      (rooms : List Room) (w : World)
      → send_rooms env client rooms w
        ≡ send_all client
            (map (λ room. list_item env room.id room.name [] room.session_info) rooms)
            w
  unfolding send_rooms
  send_rooms-all [] w = refl
  send_rooms-all (room ∷ rooms) w = send_rooms-all rooms _

  module _ (w : World) where
    send_users-all :
        (place : ℕ) (users : List User) (v : World)
        → Quiet w v
        → send_users env client place users v
          ≡ send_all client
              (map
                (λ user. list_item env user.id user.name [] user.session_info)
                (filter (λ user. room_id w user == place) users))
              v
    unfolding send_users
    send_users-all place [] v q = refl
    send_users-all place (u ∷ us) v q = elim (Bool-cases (room_id w u == place)) [
      | inl e ↦
          let there : (room_id v u == place) ≡ true = rw q.same_rooms_of e in
          rw (there, send_users, e)
            (send_users-all place us _ (Quiet-trans q (send-Quiet client _ v)))
      | inr e ↦
          let there : (room_id v u == place) ≡ false = rw q.same_rooms_of e in
          rw (there, send_users, e) (send_users-all place us v q)
    ]

    send_games-all :
        (games : List Game) (v : World)
        → Quiet w v
        → send_games env client games v
          ≡ send_all client
              (map
                (λ game.
                  list_item env game.id game.name (env.address_text game.address) game.session_info)
                (filter (λ game. game.room_id == room_id w client) games))
              v
    unfolding send_games
    send_games-all [] v q = refl
    send_games-all (g ∷ gs) v q = elim (Bool-cases (g.room_id == room_id w client)) [
      | inl e ↦
          let there : (g.room_id == room_id v client) ≡ true = rw q.same_rooms_of e in
          rw (there, send_games, e) (send_games-all gs _ (Quiet-trans q (send-Quiet client _ v)))
      | inr e ↦
          let there : (g.room_id == room_id v client) ≡ false = rw q.same_rooms_of e in
          rw (there, send_games, e) (send_games-all gs v q)
    ]

    ended :
        (items : List (List ℕ)) (v : World)
        → v ≡ send_all client items w
        → (send client (list_end env) v).sent
          ≡ w.sent ++ mail w.sessions client (items ++ list_end env ∷ [])
    ended items v e =
        ap (λ x. (send client (list_end env) x).sent) e
        ∙ ap (λ (x : World). x.sent) (sym (send_all-append items (list_end env) w))
        ∙ send_all-sent client (items ++ list_end env ∷ []) w

    nothing : w.sent ≡ w.sent ++ mail w.sessions client []
    nothing = send_all-sent client [] w

  -- A client that is alive and asks for the rooms is sent one item for each of them, and one that
  -- asks for the users or the games of its own room one item for each that is in it, in the order
  -- of the table, and then the end of the list; where the request is not one of these, or the
  -- client is gone, nothing is sent.
  pub lists-sent :
      (p : WormsPacket) (w : World)
      → ((on_list_rooms env client p w).1.sent
          ≡ w.sent ++ mail w.sessions client (listed env (asks_list p) (room_items env w)))
        × ((on_list_users env client p w).1.sent
            ≡ w.sent
              ++ mail w.sessions client
                  (listed env (asks_own client p w) (user_items env (room_id w client) w)))
        × ((on_list_games env client p w).1.sent
            ≡ w.sent
              ++ mail w.sessions client
                  (listed env (asks_own client p w) (game_items env (room_id w client) w)))
  unfolding on_list_rooms on_list_users on_list_games
  lists-sent p w = elim (Bool-cases (value_or p.fields.value4 0 == 0)) [
    | inr e ↦ rw e (nothing w, nothing w, nothing w)
    | inl e ↦ elim (Bool-cases (value_or p.fields.value2 0 == room_id w client)) [
      | inr f ↦ rw (e, f) (ended w _ _ (send_rooms-all w.rooms w), nothing w, nothing w)
      | inl f ↦
          rw (e, f)
            (
              ended w _ _ (send_rooms-all w.rooms w),
              ended w _ _ (send_users-all w (room_id w client) w.users w (Quiet-refl w)),
              ended w _ _ (send_games-all w w.games w (Quiet-refl w)),
            )
    ]
  ]
