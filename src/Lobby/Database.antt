-- ===== src/Lobby/Database.antt =====
-- src/database.cpp: the tables of users, rooms and games, and the identifiers.
pub mod Ids
pub mod Changes
use worms2lobby_server_cpp.Base.{
  ℕ, suc, ◌+◌, ◌%◌, ◌≡◌, ltb, ◌==◌, str_eq, Bool, if◌then◌else◌, Option, none, some, List, [], ◌∷◌,
  find_if,
}
use worms2lobby_server_cpp.Lobby.Entities.{User, Room, Game}
use worms2lobby_server_cpp.Lobby.Table.{count, find, put, erase}

-- `moodycamel::ConcurrentQueue<uint32_t>`, which is not part of the repository: the numbers that it
-- holds, in an order that is not specified. It may look empty when it is not.
pub record IdQueue : Type 0 where
  pub try_dequeue : List ℕ → Option (ℕ × List ℕ)
  pub enqueue : List ℕ → ℕ → List ℕ
  pub try_dequeue_lem :
      (q : List ℕ) (x : ℕ) (r : List ℕ)
      → try_dequeue q ≡ some (x, r)
      → (k : ℕ) → count k q ≡ (if x == k then 1 else 0) + count k r
  pub enqueue_lem :
      (q : List ℕ) (x k : ℕ) → count k (enqueue q x) ≡ (if x == k then 1 else 0) + count k q

pub record Database : Type 0 where
  pub users : List User
  pub rooms : List Room
  pub games : List Game
  pub next_id : ℕ
  pub recycled_ids : List ℕ

abbrev pub k_start : ℕ
k_start = 0x1000

abbrev pub u32 : ℕ
u32 = 0x1_0000_0000

-- A new identifier from the counter; `none` is the exception `std::overflow_error`.
unfoldable pub count_up : Database → Option ℕ × Database
count_up d =
    let id = d.next_id in
    let next = (d.next_id + 1) % u32 in
    let next' = if ltb id k_start then k_start + 1 else next in
    let id' = if ltb id k_start then k_start else id in
    (if id' == 0 then none else some id', record d { next_id = next' })

unfoldable pub get_next_id : IdQueue → Database → Option ℕ × Database
unfolding count_up
get_next_id queue d = elim (queue.try_dequeue d.recycled_ids) [
  | some (id, rest) ↦ (some id, record d { recycled_ids = rest })
  | none ↦ count_up d
]

unfoldable pub recycle_id : IdQueue → ℕ → Database → Database
recycle_id queue id d = record d { recycled_ids = queue.enqueue d.recycled_ids id }

unfoldable pub get_user : ℕ → Database → Option User
get_user id d = find (λ u. u.id) id d.users

unfoldable pub get_room : ℕ → Database → Option Room
get_room id d = find (λ r. r.id) id d.rooms

unfoldable pub get_game : ℕ → Database → Option Game
get_game id d = find (λ g. g.id) id d.games

unfoldable pub get_game_by_name : List ℕ → Database → Option Game
get_game_by_name name d = find_if (λ g. str_eq g.name name) d.games

unfoldable pub add_user : User → Database → Database
add_user user d = record d { users = put (λ u. u.id) user d.users }

unfoldable pub remove_user : IdQueue → ℕ → Database → Database
remove_user queue id d = record d {
  users = erase (λ u. u.id) id d.users;
  recycled_ids = queue.enqueue d.recycled_ids id;
}

unfoldable pub add_room : Room → Database → Database
add_room room d = record d { rooms = put (λ r. r.id) room d.rooms }

unfoldable pub remove_room : IdQueue → ℕ → Database → Database
remove_room queue id d = record d {
  rooms = erase (λ r. r.id) id d.rooms;
  recycled_ids = queue.enqueue d.recycled_ids id;
}

unfoldable pub add_game : Game → Database → Database
add_game game d = record d { games = put (λ g. g.id) game d.games }

unfoldable pub remove_game : IdQueue → ℕ → Database → Database
remove_game queue id d = record d {
  games = erase (λ g. g.id) id d.games;
  recycled_ids = queue.enqueue d.recycled_ids id;
}

unfoldable pub empty_database : Database
empty_database = record { users = []; rooms = []; games = []; next_id = 0x1000; recycled_ids = [] }
