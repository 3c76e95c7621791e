-- ===== src/Lobby/Preserve.antt =====
-- `OnJoin`, `OnCreateRoom` and `OnCreateGame` of src/packet_handler.cpp and the lobby's invariant.
use worms2lobby_server_cpp.Base.{
  ℕ, ◌+◌, ◌<◌, ◌≡◌, subst, arith, ◌==◌, Bool, true, false, if◌then◌else◌, Option, none, some, List,
  [], ◌∷◌, All, inl, inr, Bool-cases, Option-cases, find_if,
}
use worms2lobby_server_cpp.Lobby.Names.{free_room_name}
use worms2lobby_server_cpp.Lobby.Entities.{User, new_room, new_game}
use worms2lobby_server_cpp.Lobby.Database.{Database, get_next_id, get_user, u32}
use worms2lobby_server_cpp.Lobby.Database.Ids.{IsFresh, HandsOut, get_next_id-HandsOut}
use worms2lobby_server_cpp.Lobby.World.{
  Address, v4, v6, Env, World, Outcome, returned, threw, room_id, set_room_id, set_user_room_id,
  get_address,
}
use worms2lobby_server_cpp.Lobby.Quiet.{Quiet, Quiet-trans, send-Quiet, if-Quiet, tell_others-Quiet}
use worms2lobby_server_cpp.Lobby.Sound.{
  Placed, IsSound, move-IsSound, add_room-IsSound, add_game-IsSound,
}
use worms2lobby_server_cpp.Lobby.Invariant.{IsSoundWorld, IsLoggedIn, IsSound-Quiet}
use worms2lobby_server_cpp.Lobby.Handler.Rooms.{
  has_room_named, open_room, create_room, has_room, join,
}
use worms2lobby_server_cpp.Lobby.Handler.Games.{refuse_game, open_game, create_game, host_game}

-- The counter has a number left.
abbrev pub HasIds : World → Type 0
HasIds w = w.next_id + 1 < u32

-- A branch that leaves the world alone, and one that keeps the invariant.
pub if-keeps :
    (P : World → Type 0) (b : Bool) (x y : Outcome × World)
    → P x.1
    → P y.1
    → P (if b then x else y).1
if-keeps P true x y p q = p
if-keeps P false x y p q = q

pub join-IsSound :
    (env : Env) (client : User) (target : ℕ) (w : World)
    → IsSoundWorld w
    → IsSoundWorld (join env client target w)
unfolding join set_room_id
join-IsSound env client target w i = elim (Bool-cases (has_room target w.rooms)) [
  | inl e ↦ rw e (
      IsSound-Quiet (Quiet-trans (tell_others-Quiet client _ _) (send-Quiet client _ _))
        (move-IsSound w.database w.room_of client.session target i (inr e)))
  | inr e ↦ rw e (
      IsSound-Quiet
        (if-Quiet _ w _ _ (Quiet-trans (tell_others-Quiet client _ w) (send-Quiet client _ _))
          (send-Quiet client _ w))
        i)
]

-- Putting a user by its identifier into the lobby or into a room that is open keeps a sound lobby
-- sound, also where there is no such user.
pub set_user_room_id-IsSound :
    (user_id room : ℕ) (w : World)
    → IsSoundWorld w
    → Placed w.rooms room
    → IsSoundWorld (set_user_room_id user_id room w)
unfolding set_user_room_id set_room_id
set_user_room_id-IsSound user_id room w i p = elim (Option-cases (get_user user_id w.database)) [
  | inl e ↦ rw (e, set_user_room_id) i
  | inr (user, e) ↦
      rw (e, set_user_room_id) (move-IsSound w.database w.room_of user.session room i p)
]

pub handed-IsSound :
    (d : Database) (r : Option ℕ × Database) (id : ℕ) (room_of : ℕ → ℕ)
    → IsSound d room_of
    → HandsOut d r id
    → IsSound r.1 room_of
handed-IsSound d r id room_of i h = record {
  unique = h.unique;
  names = rw h.tables.same_users i.names;
  room_names = rw h.tables.same_rooms i.room_names;
  users_placed = rw (h.tables.same_users, h.tables.same_rooms) i.users_placed;
  games_placed = rw (h.tables.same_games, h.tables.same_rooms) i.games_placed;
}

open_room-IsSound :
    (env : Env) (client : User) (name : List ℕ) (nation address id : ℕ) (w : World)
    → IsSoundWorld w
    → IsFresh id w.database
    → has_room_named name w.rooms ≡ false
    → IsSoundWorld (open_room env client name nation address id w)
unfolding open_room new_room
open_room-IsSound env client name nation address id w i f n =
    IsSound-Quiet (Quiet-trans (tell_others-Quiet client _ _) (send-Quiet client _ _)) (
      add_room-IsSound (new_room id name nation address) w.database w.room_of i f
        (free_room_name name w.rooms n))

pub create_room-IsSound :
    (env : Env) (client : User) (name : List ℕ) (nation : ℕ) (w : World)
    → IsSoundWorld w
    → HasIds w
    → has_room_named name w.rooms ≡ false
    → IsSoundWorld (create_room env client name nation w).1
unfolding create_room
create_room-IsSound env client name nation w i b n =
    let (id, h) = get_next_id-HandsOut env.queue w.database i.unique b in
    let j : IsSound (get_next_id env.queue w.database).1 w.room_of =
      handed-IsSound w.database _ id w.room_of i h in
    rw (h.handed, create_room)
      (opened id j h.fresh (rw h.tables.same_rooms n)
        (get_address (record w { database = (get_next_id env.queue w.database).1 }) client))
  where
    next : World
    next = record w { database = (get_next_id env.queue w.database).1 }

    opened :
        (id : ℕ)
        → IsSoundWorld next
        → IsFresh id next.database
        → has_room_named name next.rooms ≡ false
        → (a : Option ℕ)
        → IsSoundWorld
            (elim a as (λ _. Outcome × World) [
              | none ↦ (threw, next)
              | some address ↦ (returned true, open_room env client name nation address id next)
            ]).1
    opened id j f n none = j
    opened id j f n (some address) = open_room-IsSound env client name nation address id next j f n

pub refuse_game-Quiet : (env : Env) (client : User) (w : World) → Quiet w (refuse_game env client w)
unfolding refuse_game
refuse_game-Quiet env client w = Quiet-trans (send-Quiet client _ w) (send-Quiet client _ _)

client-Placed :
    (client : User) (w : World)
    → IsSoundWorld w
    → IsLoggedIn client w
    → Placed w.rooms (room_id w client)
unfolding get_user
client-Placed client w i l = found client.id client w.users i.users_placed l
  where
    found :
        (k : ℕ) (c : User) (us : List User)
        → All (λ u. Placed w.rooms (room_id w u)) us
        → find_if (λ u. u.id == k) us ≡ some c
        → Placed w.rooms (room_id w c)
    found k c [] a e = cc
    found k c (u ∷ us) (p, ps) e = elim (Bool-cases (u.id == k)) [
      | inl t ↦ let q : u ≡ c = ground arith in subst (λ v. Placed w.rooms (room_id w v)) q p
      | inr f ↦ found k c us ps (ground arith)
    ]

open_game-IsSound :
    (env : Env) (client : User) (access address id : ℕ) (w : World)
    → IsSoundWorld w
    → IsFresh id w.database
    → Placed w.rooms (room_id w client)
    → IsSoundWorld (open_game env client access address id w)
unfolding open_game new_game
open_game-IsSound env client access address id w i f p =
    IsSound-Quiet (Quiet-trans (tell_others-Quiet client _ _) (send-Quiet client _ _)) (
      add_game-IsSound
        (new_game id client.name client.session_info.player_nation (room_id w client) address
          access)
        w.database w.room_of i f p)

create_game-IsSound :
    (env : Env) (client : User) (access : ℕ) (w : World)
    → IsSoundWorld w
    → IsLoggedIn client w
    → HasIds w
    → IsSoundWorld (create_game env client access w).1
unfolding create_game
create_game-IsSound env client access w i l b =
    let (id, h) = get_next_id-HandsOut env.queue w.database i.unique b in
    let j : IsSound (get_next_id env.queue w.database).1 w.room_of =
      handed-IsSound w.database _ id w.room_of i h in
    rw (h.handed, create_game)
      (opened id j h.fresh (rw h.tables.same_rooms (client-Placed client w i l))
        (get_address (record w { database = (get_next_id env.queue w.database).1 }) client))
  where
    next : World
    next = record w { database = (get_next_id env.queue w.database).1 }

    opened :
        (id : ℕ)
        → IsSoundWorld next
        → IsFresh id next.database
        → Placed next.rooms (room_id next client)
        → (a : Option ℕ)
        → IsSoundWorld
            (elim a as (λ _. Outcome × World) [
              | none ↦ (threw, next)
              | some address ↦ (
                returned true,
                refuse_game env client (open_game env client access address id next),
              )
            ]).1
    opened id j f p none = j
    opened id j f p (some address) =
        IsSound-Quiet (refuse_game-Quiet env client _)
          (open_game-IsSound env client access address id next j f p)

pub host_game-IsSound :
    (env : Env) (client : User) (access : ℕ) (parsed : Address) (w : World)
    → IsSoundWorld w
    → IsLoggedIn client w
    → HasIds w
    → IsSoundWorld (host_game env client access parsed w).1
unfolding host_game
host_game-IsSound env client access (v6 text) w i l b =
    IsSound-Quiet (refuse_game-Quiet env client w) i
host_game-IsSound env client access (v4 parsed) w i l b =
    elim (Option-cases (get_address w client)) [
      | inl e ↦ rw (e, host_game) i
      | inr (a, e) ↦
          rw (e, host_game)
            (if-keeps IsSoundWorld (a == parsed) _ _ (create_game-IsSound env client access w i l b)
              (IsSound-Quiet (refuse_game-Quiet env client w) i))
    ]
