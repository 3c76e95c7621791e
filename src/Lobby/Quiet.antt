-- ===== src/Lobby/Quiet.antt =====
-- The parts of src/packet_handler.cpp that only send packets, against the tables and the rooms.
use worms2lobby_server_cpp.Base.{
  ℕ, ◌≡◌, refl, ◌∙◌, Bool, true, false, if◌then◌else◌, List, [], ◌∷◌, Option-cases, inl, inr,
}
use worms2lobby_server_cpp.Lobby.Entities.{User, Room, Game}
use worms2lobby_server_cpp.Lobby.World.{Env, World, send, each}
use worms2lobby_server_cpp.Lobby.Handler.Leave.{tell_left}
use worms2lobby_server_cpp.Lobby.Handler.Rooms.{tell_others}
use worms2lobby_server_cpp.Lobby.Handler.Lists.{send_rooms, send_users, send_games}

pub record Quiet (w w' : World) : Type 0 where
  pub same_database : w'.database ≡ w.database
  pub same_rooms_of : w'.room_of ≡ w.room_of
  pub same_sessions : w'.sessions ≡ w.sessions

pub Quiet-refl : (w : World) → Quiet w w
Quiet-refl w = record { same_database = refl; same_rooms_of = refl; same_sessions = refl }

pub Quiet-trans : {u v w : World} → Quiet u v → Quiet v w → Quiet u w
Quiet-trans p q = record {
  same_database = q.same_database ∙ p.same_database;
  same_rooms_of = q.same_rooms_of ∙ p.same_rooms_of;
  same_sessions = q.same_sessions ∙ p.same_sessions;
}

pub send-Quiet : (user : User) (bytes : List ℕ) (w : World) → Quiet w (send user bytes w)
unfolding send
send-Quiet user bytes w = elim (Option-cases (w.sessions user.session)) [
  | inl e ↦ rw (e, send) (Quiet-refl w)
  | inr (s, e) ↦
      rw (e, send) (record { same_database = refl; same_rooms_of = refl; same_sessions = refl })
]

pub if-Quiet : (b : Bool) (w u v : World) → Quiet w u → Quiet w v → Quiet w (if b then u else v)
if-Quiet true w u v p q = p
if-Quiet false w u v p q = q

pub each-Quiet :
    (body : User → World → World)
    → ((user : User) (w : World) → Quiet w (body user w))
    → (users : List User) (w : World) → Quiet w (each body users w)
unfolding each
each-Quiet body h [] w = Quiet-refl w
each-Quiet body h (user ∷ users) w = Quiet-trans (h user w) (each-Quiet body h users (body user w))

pub tell_others-Quiet :
    (client : User) (bytes : List ℕ) (w : World) → Quiet w (tell_others client bytes w)
unfolding tell_others
tell_others-Quiet client bytes w =
    each-Quiet _ (λ user v. if-Quiet _ v _ _ (Quiet-refl v) (send-Quiet user bytes v)) w.users w

pub tell_left-Quiet :
    (env : Env) (room left_id : ℕ) (in_room closed : Bool) (user : User) (w : World)
    → Quiet w (tell_left env room left_id in_room closed user w)
unfolding tell_left
tell_left-Quiet env room left_id true true user w =
    if-Quiet _ w _ _ (Quiet-refl w) (Quiet-trans (send-Quiet user _ w) (send-Quiet user _ _))
tell_left-Quiet env room left_id true false user w =
    if-Quiet _ w _ _ (Quiet-refl w) (send-Quiet user _ w)
tell_left-Quiet env room left_id false true user w =
    if-Quiet _ w _ _ (Quiet-refl w) (send-Quiet user _ w)
tell_left-Quiet env room left_id false false user w = if-Quiet _ w _ _ (Quiet-refl w) (Quiet-refl w)

module _ (env : Env) (client : User) where
  pub send_rooms-Quiet : (rooms : List Room) (w : World) → Quiet w (send_rooms env client rooms w)
  unfolding send_rooms
  send_rooms-Quiet [] w = Quiet-refl w
  send_rooms-Quiet (r ∷ rooms) w = Quiet-trans (send-Quiet client _ w) (send_rooms-Quiet rooms _)

  pub send_users-Quiet :
      (room : ℕ) (users : List User) (w : World) → Quiet w (send_users env client room users w)
  unfolding send_users
  send_users-Quiet room [] w = Quiet-refl w
  send_users-Quiet room (u ∷ users) w =
      Quiet-trans (if-Quiet _ w _ _ (send-Quiet client _ w) (Quiet-refl w))
        (send_users-Quiet room users _)

  pub send_games-Quiet : (games : List Game) (w : World) → Quiet w (send_games env client games w)
  unfolding send_games
  send_games-Quiet [] w = Quiet-refl w
  send_games-Quiet (g ∷ games) w =
      Quiet-trans (if-Quiet _ w _ _ (send-Quiet client _ w) (Quiet-refl w))
        (send_games-Quiet games _)
