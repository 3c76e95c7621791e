-- ===== src/Lobby/Told.antt =====
-- Who is told what: the loops of src/packet_handler.cpp and src/user_session.cpp over the users, and
-- `OnJoin`.
pub mod Leaving
pub mod Parting
pub mod Lists
use worms2lobby_server_cpp.Base.{
  ℕ, ◌≡◌, ◌≢◌, arith, refl, sym, ap, ap₂, subst, ◌∙◌, ◌==◌, Bool, true, false, not, ◌&&◌,
  if◌then◌else◌, Option, none, some, List, [], ◌∷◌, ◌++◌, map, append-nil, append_assoc, is_some,
  any_of, filter, Option-cases, Bool-cases, inl, inr,
}
use worms2lobby_server_cpp.Packet.Code.{PacketCode}
use worms2lobby_server_cpp.Packet.Fields.{no_fields}
use worms2lobby_server_cpp.Lobby.Entities.{User, Room, Game}
use worms2lobby_server_cpp.Lobby.Database.{
  Database, get_room, get_game_by_name, remove_user, remove_game,
}
use worms2lobby_server_cpp.Lobby.World.{
  Env, World, Session, room_id, set_room_id, send, each, on_database, packet,
}
use worms2lobby_server_cpp.Lobby.Quiet.{
  Quiet, Quiet-refl, Quiet-trans, send-Quiet, each-Quiet, tell_others-Quiet,
}
use worms2lobby_server_cpp.Lobby.Handler.Leave.{
  is_abandoned, room_number, tell_left, leave_room_with, leave_room,
}
use worms2lobby_server_cpp.Lobby.Handler.Rooms.{
  tell_others, has_room, has_game, join_packet, join_reply, join, leave_reply, leave,
}
use worms2lobby_server_cpp.Lobby.Session.{leave_room_on_exit, close_game, leaver, disconnect_user}
use worms2lobby_server_cpp.Lobby.Kept.{after_close-Still}
use worms2lobby_server_cpp.Lobby.Invariant.{leave_room-Quiet}
use worms2lobby_server_cpp.Lobby.Session.Disconnect.{close_game-Quiet}
use worms2lobby_server_cpp.Lobby.Sent.{send-gone, sent-alive}

abbrev pub send_all : User → List (List ℕ) → World → World
send_all u [] w = w
send_all u (bytes ∷ packets) w = send_all u packets (send u bytes w)

-- What reaches a user: nothing where its session is gone.
abbrev pub mail : (ℕ → Option Session) → User → List (List ℕ) → List (ℕ × List ℕ)
mail sessions u packets = elim (sessions u.session) [
  | none ↦ []
  | some s ↦ map (λ bytes. (u.session, bytes)) packets
]

-- What reaches each of the users, in their order.
abbrev pub mails : (ℕ → Option Session) → (User → List (List ℕ)) → List User → List (ℕ × List ℕ)
mails sessions packets [] = []
mails sessions packets (u ∷ us) = mail sessions u (packets u) ++ mails sessions packets us

pub send_all-Quiet :
    (u : User) (packets : List (List ℕ)) (w : World) → Quiet w (send_all u packets w)
send_all-Quiet u [] w = Quiet-refl w
send_all-Quiet u (bytes ∷ packets) w =
    Quiet-trans (send-Quiet u bytes w) (send_all-Quiet u packets (send u bytes w))

pub send_all-sent :
    (u : User) (packets : List (List ℕ)) (w : World)
    → (send_all u packets w).sent ≡ w.sent ++ mail w.sessions u packets
send_all-sent u packets w = elim (Option-cases (w.sessions u.session)) [
  | inl e ↦ rw (e, mail) (gone packets w e ∙ sym (append-nil w.sent))
  | inr (s, e) ↦ rw (e, mail) (alive packets w s e)
]
  where
    gone :
        (packets : List (List ℕ)) (w : World)
        → w.sessions u.session ≡ none
        → (send_all u packets w).sent ≡ w.sent
    gone [] w e = refl
    gone (bytes ∷ packets) w e =
        let q = send-Quiet u bytes w in
        gone packets (send u bytes w) (rw q.same_sessions e)
        ∙ ap (λ (v : World). v.sent) (send-gone u bytes w e)

    alive :
        (packets : List (List ℕ)) (w : World) (s : Session)
        → w.sessions u.session ≡ some s
        → (send_all u packets w).sent ≡ w.sent ++ map (λ bytes. (u.session, bytes)) packets
    alive [] w s e = sym (append-nil w.sent)
    alive (bytes ∷ packets) w s e =
        let q = send-Quiet u bytes w in
        alive packets (send u bytes w) s (rw q.same_sessions e)
        ∙ rw (sent-alive u bytes w s e) (append_assoc w.sent _ _)

-- A loop that sends each user its packets.
module _ (f : User → List (List ℕ)) (body : User → World → World)
    (h : (u : User) (v : World) → body u v ≡ send_all u (f u) v) where
  pub each-told :
      (us : List User) (w : World) → (each body us w).sent ≡ w.sent ++ mails w.sessions f us
  unfolding each
  each-told [] w = sym (append-nil w.sent)
  each-told (u ∷ us) w =
      let q = send_all-Quiet u (f u) w in
      ap (λ v. (each body us v).sent) (h u w)
      ∙ each-told us (send_all u (f u) w)
      ∙ rw (q.same_sessions, send_all-sent u (f u) w) (append_assoc w.sent _ _)

-- A packet for everybody but one.
abbrev pub but : ℕ → List (List ℕ) → User → List (List ℕ)
but id packets u = if u.id == id then [] else packets

pub tell_others-told :
    (client : User) (bytes : List ℕ) (w : World)
    → (tell_others client bytes w).sent
      ≡ w.sent ++ mails w.sessions (but client.id (bytes ∷ [])) w.users
unfolding tell_others
tell_others-told client bytes w =
    each-told (but client.id (bytes ∷ [])) _
      (λ u v. elim (Bool-cases (u.id == client.id)) [ inl e ↦ rw e refl | inr e ↦ rw e refl ])
      w.users w

-- The others, and then the client.
pub answered :
    (client : User) (bytes reply : List ℕ) (w : World)
    → (send client reply (tell_others client bytes w)).sent
      ≡ w.sent
        ++ (mails w.sessions (but client.id (bytes ∷ [])) w.users
            ++ mail w.sessions client (reply ∷ []))
answered client bytes reply w =
    let q = tell_others-Quiet client bytes w in
    send_all-sent client (reply ∷ []) (tell_others client bytes w)
    ∙ rw (q.same_sessions, tell_others-told client bytes w) (append_assoc w.sent _ _)

-- Whether a number is one of the numbers.
abbrev pub is_among : ℕ → List ℕ → Bool
is_among k = any_of (λ j. j == k)

-- The games of a room, by their numbers.
abbrev pub games_in : ℕ → World → List ℕ
games_in room w = map (λ game. game.id) (filter (λ game. game.room_id == room) w.games)

-- The room that a client joins: the one that it asks for, or its own where the number is that of a
-- game in it.
abbrev pub joined_room : User → ℕ → World → Option ℕ
joined_room client target w =
    if is_among target (map (λ room. room.id) w.rooms)
    then some target
    else if is_among target (games_in (room_id w client) w)
    then some (room_id w client)
    else none

-- The answer has no error, or the error 1.
abbrev pub join_mail : Env → User → Option ℕ → World → List (ℕ × List ℕ)
join_mail env client none w =
    mail w.sessions client
      (packet env PacketCode.join_reply (record no_fields { error = some 1 }) ∷ [])
join_mail env client (some room) w =
    let announcement =
      packet env PacketCode.join
        (record no_fields { value2 = some room; value10 = some client.id }) in
    mails w.sessions (but client.id (announcement ∷ [])) w.users
    ++ mail w.sessions client
        (packet env PacketCode.join_reply (record no_fields { error = some 0 }) ∷ [])

has_room-is_among :
    (target : ℕ) (rooms : List Room)
    → is_among target (map (λ room. room.id) rooms) ≡ has_room target rooms
has_room-is_among target [] = refl
has_room-is_among target (room ∷ rooms) = ground (arith, has_room-is_among target rooms)

has_game-is_among :
    (target place : ℕ) (games : List Game)
    → is_among target (map (λ game. game.id) (filter (λ game. game.room_id == place) games))
      ≡ has_game target place games
has_game-is_among target place [] = refl
has_game-is_among target place (game ∷ games) = ground (arith, has_game-is_among target place games)

-- A client that asks for a room that is open is announced with it to everybody else who is alive,
-- in the order of the table, and so is one that asks for a game in its own room, with that room;
-- then the client gets the answer with the error 0. Any other client gets the answer with the
-- error 1, and nobody else is told.
pub join-sent :
    (env : Env) (client : User) (target : ℕ) (w : World)
    → (join env client target w).sent
      ≡ w.sent ++ join_mail env client (joined_room client target w) w
unfolding join set_room_id
join-sent env client target w =
    rw (has_room-is_among target w.rooms, has_game-is_among target (room_id w client) w.games)
      (elim (Bool-cases (has_room target w.rooms)) [
        | inl e ↦ rw e (answered client _ _ (set_room_id client target w))
        | inr e ↦ elim (Bool-cases (has_game target (room_id w client) w.games)) [
          | inl f ↦ rw (e, f) (answered client _ _ w)
          | inr f ↦ rw (e, f) (send_all-sent client (join_reply env 1 ∷ []) w)
        ]
      ])
