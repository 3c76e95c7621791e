-- ===== src/Lobby/View/Bystanders.antt =====
-- What the users who do not act keep, whatever a handler of src/packet_handler.cpp, a login or a
-- disconnection of src/user_session.cpp does.
use worms2lobby_server_cpp.Base.{ℕ, ◌≡◌, ◌≢◌, ◌∙◌, sym, refl, arith, Option, none, some}
use worms2lobby_server_cpp.Lobby.Entities.{User, Room, Game}
use worms2lobby_server_cpp.Lobby.Database.{get_user, get_room, get_game}
use worms2lobby_server_cpp.Lobby.Sound.{find-count}
use worms2lobby_server_cpp.Lobby.World.{Env, World}
use worms2lobby_server_cpp.Lobby.Invariant.{IsSoundWorld}
use worms2lobby_server_cpp.Lobby.Reach.{Step}
use worms2lobby_server_cpp.Lobby.View.{Lobby, view}
use worms2lobby_server_cpp.Lobby.View.Spec.{
  Request, Closes, missing, stays, closed, Performs, ignored, joined, not_joined, went, opened,
  name_taken, unreachable, hosted, not_hosted, Departs, alone, hosting, Event, login, message, exit,
  socket, Moves, asks, enters, name_in_use, turned_away, departs, connects,
}
use worms2lobby_server_cpp.Lobby.View.Laws.{find-absent}
use worms2lobby_server_cpp.Lobby.View.Refines.{event_of, Step-Moves}

-- The session and the user that act.
abbrev pub acting_session : Event → Option ℕ
acting_session (login session received) = some session
acting_session (message client p) = some client.session
acting_session (exit client) = some client.session
acting_session socket = none

abbrev pub acting_user : Event → Option ℕ
acting_user (login session received) = none
acting_user (message client p) = some client.id
acting_user (exit client) = some client.id
acting_user socket = none

Closes-place :
    (left room : ℕ) (l l' : Lobby) (s : ℕ) → Closes left room l l' → l'.place s ≡ l.place s
Closes-place left room l l' s (missing h) = refl
Closes-place left room l l' s (stays h) = refl
Closes-place left room l l' s (closed h) = refl

module _ (env : Env) (l : Lobby) (s : ℕ) where
  Performs-place :
      (client : User) (q : Option Request) (l' : Lobby)
      → client.session ≢ s
      → Performs env client l q l'
      → l'.place s ≡ l.place s
  Performs-place client _ _ n ignored = refl
  Performs-place client _ _ n (joined room r h) = ground arith
  Performs-place client _ _ n (not_joined room h) = refl
  Performs-place client _ _ n (went l' c) =
      ground (arith, Closes-place client.id (l.place client.session) l l' s c)
  Performs-place client _ _ n (opened name nation address id h a f) = refl
  Performs-place client _ _ n (name_taken name nation k r h e) = refl
  Performs-place client _ _ n (unreachable name nation a) = refl
  Performs-place client _ _ n (hosted access text address id m a f) = refl
  Performs-place client _ _ n (not_hosted access text h) = refl

  Departs-place : (client : User) (l' : Lobby) → Departs client l l' → l'.place s ≡ l.place s
  Departs-place client _ (alone l' h c) = Closes-place _ _ _ l' s c
  Departs-place client _ (hosting g l' h e c) = Closes-place _ _ _ l' s c

  Moves-place :
      (e : Event) (l' : Lobby)
      → acting_session e ≢ some s
      → Moves env l e l'
      → l'.place s ≡ l.place s
  Moves-place _ _ n (asks client p l' h q) = Performs-place client _ l' (λ e. n (cc)) q
  Moves-place _ _ n (enters session received name nation id q h f) = ground arith
  Moves-place _ _ n (name_in_use session received name nation k v q h e) = refl
  Moves-place _ _ n (turned_away session received q) = refl
  Moves-place _ _ n (departs client l' h d) = Departs-place client l' d
  Moves-place _ _ n (connects address) = refl

-- Nobody is moved by what somebody else does: a login, a packet or a disconnection in a sound
-- lobby leaves the room of every other session alone.
pub Step-room_of :
    {env : Env} {v w : World} (t : Step env v w) (session : ℕ)
    → IsSoundWorld v
    → acting_session (event_of t) ≢ some session
    → w.room_of session ≡ v.room_of session
Step-room_of {env} {v} {w} t session i n =
    Moves-place env (view v) session (event_of t) (view w) n (Step-Moves t i)

-- A room that is open, with a user in it.
record Houses (r : Room) (u : User) (l : Lobby) : Type 0 where
  open_room : l.room r.id ≡ some r
  there : l.user u.id ≡ some u
  inside : l.place u.session ≡ r.id

module _ (r : Room) (u : User) where
  Closes-room :
      (left room : ℕ) (l l' : Lobby)
      → Houses r u l
      → u.id ≢ left
      → Closes left room l l'
      → l'.room r.id ≡ some r
  Closes-room left room l l' h n (missing e) = h.open_room
  Closes-room left room l l' h n (stays e) = h.open_room
  Closes-room left room l l' h n (closed d) =
      ground (arith, h.open_room, λ (e : room ≡ r.id). d.users u.id u h.there n (h.inside ∙ sym e))

  module _ (env : Env) (l : Lobby) (h : Houses r u l) where
    Performs-room :
        (client : User) (q : Option Request) (l' : Lobby)
        → u.id ≢ client.id
        → Performs env client l q l'
        → l'.room r.id ≡ some r
    Performs-room client _ _ n ignored = h.open_room
    Performs-room client _ _ n (joined room _ e) = h.open_room
    Performs-room client _ _ n (not_joined room e) = h.open_room
    Performs-room client _ _ n (went l' c) = Closes-room client.id _ l l' h n c
    Performs-room client _ _ n (opened name nation address id e a f) =
        ground (arith, h.open_room, f.no_room)
    Performs-room client _ _ n (name_taken name nation k _ e t) = h.open_room
    Performs-room client _ _ n (unreachable name nation a) = h.open_room
    Performs-room client _ _ n (hosted access text address id m a f) = h.open_room
    Performs-room client _ _ n (not_hosted access text e) = h.open_room

    Departs-room :
        (client : User) (l' : Lobby)
        → u.id ≢ client.id
        → l.game u.id ≡ none
        → Departs client l l'
        → l'.room r.id ≡ some r
    Departs-room client _ n o (alone l' e c) =
        Closes-room client.id _ _ l'
          (record { open_room = h.open_room; there = ground (arith, h.there); inside = h.inside }) n
          c
    Departs-room client _ n o (hosting g l' f e c) =
        Closes-room g.id _ _ l'
          (record { open_room = h.open_room; there = ground (arith, h.there); inside = h.inside })
          (λ s. cc (f, o, s)) c

    Moves-room :
        (e : Event) (l' : Lobby)
        → acting_user e ≢ some u.id
        → l.game u.id ≡ none
        → Moves env l e l'
        → l'.room r.id ≡ some r
    Moves-room _ _ n o (asks client p l' k q) = Performs-room client _ l' (λ e. n (cc)) q
    Moves-room _ _ n o (enters session received name nation id q k f) = h.open_room
    Moves-room _ _ n o (name_in_use session received name nation k v q t e) = h.open_room
    Moves-room _ _ n o (turned_away session received q) = h.open_room
    Moves-room _ _ n o (departs client l' k d) = Departs-room client l' (λ e. n (cc)) o d
    Moves-room _ _ n o (connects address) = h.open_room

-- In a sound lobby, a room with a user in it stays open, the same, whatever somebody else does,
-- and whatever happens to the queues and the sockets.
pub Step-get_room :
    {env : Env} {v w : World} (t : Step env v w) (r : Room) (u : User)
    → IsSoundWorld v
    → get_room r.id v.database ≡ some r
    → get_user u.id v.database ≡ some u
    → v.room_of u.session ≡ r.id
    → acting_user (event_of t) ≢ some u.id
    → get_room r.id w.database ≡ some r
unfolding get_user get_game
Step-get_room {env} {v} {w} t r u i e f p n =
    let there = (find-count (λ (u : User). u.id) u.id u v.users f).1 in
    Moves-room r u env (view v) (record { open_room = e; there = f; inside = p }) (event_of t)
      (view w) n
      (find-absent (λ (g : Game). g.id) u.id v.games (omega (arith, there, i.unique.once u.id)))
      (Step-Moves t i)
