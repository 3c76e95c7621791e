-- ===== src/Lobby/Kept.antt =====
-- What the handlers of src/packet_handler.cpp leave alone: the table of the users, and all but one
-- number of the counter of identifiers.
use worms2lobby_server_cpp.Base.{
  ℕ, suc, ◌≤◌, ◌≡◌, refl, arith, ◌==◌, ◌&&◌, true, Option, none, some, List, ◌∙◌, Option-cases,
  Bool-cases, inl, inr, is_some,
}
use worms2lobby_server_cpp.Lobby.Entities.{User, Room, new_room, new_game}
use worms2lobby_server_cpp.Lobby.Database.{
  IdQueue, get_next_id, count_up, get_room, add_room, add_game, remove_room, k_start,
}
use worms2lobby_server_cpp.Lobby.World.{
  Address, v4, v6, Env, World, Outcome, returned, threw, room_id, set_room_id, get_address,
  on_database,
}
use worms2lobby_server_cpp.Lobby.Quiet.{Quiet, Quiet-trans, send-Quiet, if-Quiet, tell_others-Quiet}
use worms2lobby_server_cpp.Lobby.Invariant.{after_close, leave_room-Quiet}
use worms2lobby_server_cpp.Lobby.Preserve.{if-keeps, refuse_game-Quiet}
use worms2lobby_server_cpp.Lobby.Handler.Leave.{leave_room, is_abandoned, room_number}
use worms2lobby_server_cpp.Lobby.Handler.Rooms.{open_room, create_room, has_room, join, leave}
use worms2lobby_server_cpp.Lobby.Handler.Games.{refuse_game, open_game, create_game, host_game}

-- The users stay, and the counter goes up by one at most.
pub record Kept (v w : World) : Type 0 where
  pub same_users : w.users ≡ v.users
  pub next : w.next_id ≤ suc v.next_id

-- The users and the counter stay.
pub record Still (v w : World) : Type 0 where
  pub same_users : w.users ≡ v.users
  pub same_next : w.next_id ≡ v.next_id

still : (v w : World) → w.users ≡ v.users → w.next_id ≡ v.next_id → Still v w
still v w e f = record { same_users = e; same_next = f }

Still-then : {u v w : World} → Still u v → Quiet v w → Still u w
Still-then k q = record {
  same_users = rw q.same_database k.same_users;
  same_next = rw q.same_database k.same_next;
}

Kept-Still : {u v w : World} → Kept u v → Still v w → Kept u w
Kept-Still k s = record { same_users = s.same_users ∙ k.same_users; next = rw s.same_next k.next }

Still-Kept : {v w : World} → Still v w → Kept v w
Still-Kept s = record { same_users = s.same_users; next = omega (arith, s.same_next) }

pub Quiet-Kept : {v w : World} → Quiet v w → Kept v w
Quiet-Kept {v} q = Still-Kept (Still-then (still v v refl refl) q)

pub join-Kept :
    (env : Env) (client : User) (target : ℕ) (w : World) → Kept w (join env client target w)
unfolding join set_room_id
join-Kept env client target w = elim (Bool-cases (has_room target w.rooms)) [
  | inl e ↦ rw e (
      Still-Kept (
        Still-then (still w (set_room_id client target w) refl refl)
          (Quiet-trans (tell_others-Quiet client _ _) (send-Quiet client _ _))))
  | inr e ↦ rw e (
      Quiet-Kept (
        if-Quiet _ w _ _ (Quiet-trans (tell_others-Quiet client _ w) (send-Quiet client _ _))
          (send-Quiet client _ w)))
]

pub after_close-Still :
    (env : Env) (default : ℕ) (room : Option Room) (left_id : ℕ) (w : World)
    → Still w (after_close env default room left_id w)
unfolding remove_room
after_close-Still env default room left_id w =
    elim (Bool-cases (is_some room && is_abandoned left_id (room_number default room) w)) [
      | inl e ↦ rw e (still w _ refl refl)
      | inr e ↦ rw e (still w w refl refl)
    ]

pub leave-Kept : (env : Env) (client : User) (w : World) → Kept w (leave env client w)
unfolding leave leave_room set_room_id
leave-Kept env client w =
    let room = get_room (room_id w client) w.database in
    let k =
      Still-then (after_close-Still env 5 room client.id w)
        (leave_room-Quiet env 5 room client.id w) in
    Still-Kept (Still-then (still w _ k.same_users k.same_next) (send-Quiet client _ _))

pub get_next_id-Kept :
    (queue : IdQueue) (w : World)
    → k_start ≤ w.next_id
    → Kept w (record w { database = (get_next_id queue w.database).1 })
unfolding get_next_id count_up
get_next_id-Kept queue w s = elim (Option-cases (queue.try_dequeue w.recycled_ids)) [
  | inl e ↦ rw (e, get_next_id) (record { same_users = refl; next = ground arith })
  | inr ((id, rest), e) ↦ rw (e, get_next_id) (Still-Kept (still w _ refl refl))
]

open_room-Still :
    (env : Env) (client : User) (name : List ℕ) (nation address id : ℕ) (w : World)
    → Still w (open_room env client name nation address id w)
unfolding open_room add_room
open_room-Still env client name nation address id w =
    Still-then (still w (on_database (add_room (new_room id name nation address)) w) refl refl)
      (Quiet-trans (tell_others-Quiet client _ _) (send-Quiet client _ _))

open_game-Still :
    (env : Env) (client : User) (access address id : ℕ) (w : World)
    → Still w (open_game env client access address id w)
unfolding open_game add_game
open_game-Still env client access address id w =
    Still-then
      (still w
        (on_database
          (add_game (
            new_game id client.name client.session_info.player_nation (room_id w client) address
              access))
          w)
        refl refl)
      (Quiet-trans (tell_others-Quiet client _ _) (send-Quiet client _ _))

pub create_room-Kept :
    (env : Env) (client : User) (name : List ℕ) (nation : ℕ) (w : World)
    → k_start ≤ w.next_id
    → Kept w (create_room env client name nation w).1
unfolding create_room
create_room-Kept env client name nation w s =
    opened (get_next_id env.queue w.database).0 (get_address next client)
  where
    next : World
    next = record w { database = (get_next_id env.queue w.database).1 }

    opened :
        (o a : Option ℕ)
        → Kept w
            (elim o as (λ _. Outcome × World) [
              | none ↦ (threw, next)
              | some id ↦ elim a as (λ _. Outcome × World) [
                | none ↦ (threw, next)
                | some address ↦ (returned true, open_room env client name nation address id next)
              ]
            ]).1
    opened none a = get_next_id-Kept env.queue w s
    opened (some id) none = get_next_id-Kept env.queue w s
    opened (some id) (some address) =
        Kept-Still (get_next_id-Kept env.queue w s)
          (open_room-Still env client name nation address id next)

create_game-Kept :
    (env : Env) (client : User) (access : ℕ) (w : World)
    → k_start ≤ w.next_id
    → Kept w (create_game env client access w).1
unfolding create_game
create_game-Kept env client access w s =
    opened (get_next_id env.queue w.database).0 (get_address next client)
  where
    next : World
    next = record w { database = (get_next_id env.queue w.database).1 }

    opened :
        (o a : Option ℕ)
        → Kept w
            (elim o as (λ _. Outcome × World) [
              | none ↦ (threw, next)
              | some id ↦ elim a as (λ _. Outcome × World) [
                | none ↦ (threw, next)
                | some address ↦ (
                  returned true,
                  refuse_game env client (open_game env client access address id next),
                )
              ]
            ]).1
    opened none a = get_next_id-Kept env.queue w s
    opened (some id) none = get_next_id-Kept env.queue w s
    opened (some id) (some address) = Kept-Still (get_next_id-Kept env.queue w s) (
        Still-then (open_game-Still env client access address id next)
          (refuse_game-Quiet env client _))

pub host_game-Kept :
    (env : Env) (client : User) (access : ℕ) (parsed : Address) (w : World)
    → k_start ≤ w.next_id
    → Kept w (host_game env client access parsed w).1
unfolding host_game
host_game-Kept env client access (v6 text) w s = Quiet-Kept (refuse_game-Quiet env client w)
host_game-Kept env client access (v4 parsed) w s = elim (Option-cases (get_address w client)) [
  | inl e ↦ rw (e, host_game) (Still-Kept (still w w refl refl))
  | inr (a, e) ↦
      rw (e, host_game)
        (if-keeps (Kept w) (a == parsed) _ _ (create_game-Kept env client access w s)
          (Quiet-Kept (refuse_game-Quiet env client w)))
]
