-- ===== src/Lobby/Database/Changes.antt =====
-- The invariant of the identifiers under the changes of the tables of src/database.cpp.
use worms2lobby_server_cpp.Base.{ℕ, ◌+◌, ◌≤◌, ◌≡◌, refl, arith, ◌==◌, if◌then◌else◌}
use worms2lobby_server_cpp.Lobby.Entities.{User, Room, Game}
use worms2lobby_server_cpp.Lobby.Table.{count, count-put, count-erase}
use worms2lobby_server_cpp.Lobby.Database.{
  IdQueue, Database, add_user, remove_user, add_room, remove_room, add_game, remove_game,
}
use worms2lobby_server_cpp.Lobby.Database.Ids.{
  user_ids, room_ids, game_ids, held, HasUniqueIds, IsFresh,
}

-- Adding an object under a fresh identifier, and removing one that is there.
module _ (d d' : Database) (id : ℕ) (inv : HasUniqueIds d) (same : d'.next_id ≡ d.next_id) where
  grown :
      IsFresh id d → ((k : ℕ) → held k d' ≡ (if id == k then 1 else 0) + held k d) → HasUniqueIds d'
  grown f h = record {
    once = λ k. ground (arith, h k, inv.once k);
    unused = λ k b. ground (arith, h k, inv.unused k (omega arith));
    reserved = λ k b. ground (arith, h k, inv.reserved k b);
    started = omega (arith, inv.started);
  }

  moved : ((k : ℕ) → held k d' ≡ held k d) → HasUniqueIds d'
  moved h = record {
    once = λ k. omega (arith, h k, inv.once k);
    unused = λ k b. omega (arith, h k, inv.unused k (omega arith));
    reserved = λ k b. omega (arith, h k, inv.reserved k b);
    started = omega (arith, inv.started);
  }

pub add_user-HasUniqueIds :
    (u : User) (d : Database) → HasUniqueIds d → IsFresh u.id d → HasUniqueIds (add_user u d)
unfolding add_user
add_user-HasUniqueIds u d inv f =
    let n : count u.id (user_ids d) ≡ 0 = omega (arith, f.free) in
    grown d (add_user u d) u.id inv refl f
      (λ k. omega (arith, count-put (λ (v : User). v.id) k u d.users n))

pub add_room-HasUniqueIds :
    (r : Room) (d : Database) → HasUniqueIds d → IsFresh r.id d → HasUniqueIds (add_room r d)
unfolding add_room
add_room-HasUniqueIds r d inv f =
    let n : count r.id (room_ids d) ≡ 0 = omega (arith, f.free) in
    grown d (add_room r d) r.id inv refl f
      (λ k. omega (arith, count-put (λ (v : Room). v.id) k r d.rooms n))

pub add_game-HasUniqueIds :
    (g : Game) (d : Database) → HasUniqueIds d → IsFresh g.id d → HasUniqueIds (add_game g d)
unfolding add_game
add_game-HasUniqueIds g d inv f =
    let n : count g.id (game_ids d) ≡ 0 = omega (arith, f.free) in
    grown d (add_game g d) g.id inv refl f
      (λ k. omega (arith, count-put (λ (v : Game). v.id) k g d.games n))

module _ (queue : IdQueue) where
  -- Removing a user that is in the table, and giving its identifier to the queue, keeps the
  -- identifiers unique.
  pub remove_user-HasUniqueIds :
      (id : ℕ) (d : Database)
      → HasUniqueIds d
      → 1 ≤ count id (user_ids d)
      → HasUniqueIds (remove_user queue id d)
  unfolding remove_user
  remove_user-HasUniqueIds id d inv h = moved d (remove_user queue id d) id inv refl (λ k. ground (
    arith,
    inv.once id,
    count-erase (λ (v : User). v.id) k id d.users,
    queue.enqueue_lem d.recycled_ids id k,
  ))

  pub remove_room-HasUniqueIds :
      (id : ℕ) (d : Database)
      → HasUniqueIds d
      → 1 ≤ count id (room_ids d)
      → HasUniqueIds (remove_room queue id d)
  unfolding remove_room
  remove_room-HasUniqueIds id d inv h = moved d (remove_room queue id d) id inv refl (λ k. ground (
    arith,
    inv.once id,
    count-erase (λ (v : Room). v.id) k id d.rooms,
    queue.enqueue_lem d.recycled_ids id k,
  ))

  pub remove_game-HasUniqueIds :
      (id : ℕ) (d : Database)
      → HasUniqueIds d
      → 1 ≤ count id (game_ids d)
      → HasUniqueIds (remove_game queue id d)
  unfolding remove_game
  remove_game-HasUniqueIds id d inv h = moved d (remove_game queue id d) id inv refl (λ k. ground (
    arith,
    inv.once id,
    count-erase (λ (v : Game). v.id) k id d.games,
    queue.enqueue_lem d.recycled_ids id k,
  ))
