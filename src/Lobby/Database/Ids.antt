-- ===== src/Lobby/Database/Ids.antt =====
-- The invariant of the identifiers of src/database.cpp (each stands in one table at most, or waits to
-- be used again), and `Database::getNextId`.
use worms2lobby_server_cpp.Base.{
  ℕ, suc, ◌+◌, ◌≤◌, ◌<◌, ◌≡◌, ◌≢◌, refl, arith, Option, none, some, List, map, Option-cases, inl,
  inr,
}
use native.Mathlib.Decide.{dec_lt}
use worms2lobby_server_cpp.Lobby.Table.{count}
use worms2lobby_server_cpp.Lobby.Database.{IdQueue, Database, k_start, u32, count_up, get_next_id}

abbrev pub user_ids : Database → List ℕ
user_ids d = map (λ u. u.id) d.users

abbrev pub room_ids : Database → List ℕ
room_ids d = map (λ r. r.id) d.rooms

abbrev pub game_ids : Database → List ℕ
game_ids d = map (λ g. g.id) d.games

-- How often an identifier is in use or waits to be used again.
abbrev pub held : ℕ → Database → ℕ
held k d =
    count k (user_ids d) + count k (room_ids d) + count k (game_ids d) + count k d.recycled_ids

pub record HasUniqueIds (d : Database) : Type 0 where
  pub once : (k : ℕ) → held k d ≤ 1
  pub unused : (k : ℕ) → d.next_id ≤ k → held k d ≡ 0
  pub reserved : (k : ℕ) → k < k_start → held k d ≡ 0
  pub started : k_start ≤ d.next_id

-- An identifier that was handed out and is not in a table yet.
pub record IsFresh (id : ℕ) (d : Database) : Type 0 where
  pub free : held id d ≡ 0
  pub low : k_start ≤ id
  pub high : id < d.next_id

-- The tables are the same.
pub record SameTables (d d' : Database) : Type 0 where
  pub same_users : d'.users ≡ d.users
  pub same_rooms : d'.rooms ≡ d.rooms
  pub same_games : d'.games ≡ d.games

-- The identifier was handed out: it is fresh, and nothing else has changed.
pub record HandsOut (d : Database) (r : Option ℕ × Database) (id : ℕ) : Type 0 where
  pub handed : r.0 ≡ some id
  pub unique : HasUniqueIds r.1
  pub fresh : IsFresh id r.1
  pub tables : SameTables d r.1

count_up-HandsOut :
    (d : Database) → HasUniqueIds d → d.next_id + 1 < u32 → HandsOut d (count_up d) d.next_id
unfolding count_up
count_up-HandsOut d inv room =
    let s : k_start ≤ d.next_id = inv.started in
    let e : count_up d ≡ (some d.next_id, record d { next_id = d.next_id + 1 }) = ground arith in
    rw e (record {
      handed = refl;
      unique = record {
        once = inv.once;
        unused = λ k h. inv.unused k (omega arith);
        reserved = inv.reserved;
        started = omega arith;
      };
      fresh = record { free = inv.unused d.next_id (omega arith); low = s; high = omega arith };
      tables = record { same_users = refl; same_rooms = refl; same_games = refl };
    })

module _ (queue : IdQueue) where
  reuse-HandsOut :
      (d : Database) (id : ℕ) (rest : List ℕ)
      → HasUniqueIds d
      → queue.try_dequeue d.recycled_ids ≡ some (id, rest)
      → HandsOut d (some id, record d { recycled_ids = rest }) id
  reuse-HandsOut d id rest inv e = record {
    handed = refl;
    unique = record {
      once = λ k. omega (arith, took k, inv.once k);
      unused = λ k h. omega (arith, took k, inv.unused k h);
      reserved = λ k h. omega (arith, took k, inv.reserved k h);
      started = inv.started;
    };
    fresh = record { free = omega (arith, own, inv.once id); low = low; high = high };
    tables = record { same_users = refl; same_rooms = refl; same_games = refl };
  }
    where
      took : (k : ℕ) → count k rest ≤ count k d.recycled_ids
      took k = ground (arith, queue.try_dequeue_lem d.recycled_ids id rest e k)

      own : count id d.recycled_ids ≡ suc (count id rest)
      own = ground (arith, queue.try_dequeue_lem d.recycled_ids id rest e id)

      low : k_start ≤ id
      low = elim (dec_lt id k_start) [
        | yes h ↦ absurd (omega (arith, own, inv.reserved id h))
        | no h ↦ omega arith
      ]

      high : id < d.next_id
      high = elim (dec_lt id d.next_id) [
        | yes h ↦ h
        | no h ↦ absurd (omega (arith, own, inv.unused id (omega arith)))
      ]

  -- While the counter has numbers left, a new identifier is handed out that is in no table and not
  -- in the queue and not reserved, identifiers stay unique, and the tables stay the same.
  pub get_next_id-HandsOut :
      (d : Database)
      → HasUniqueIds d
      → d.next_id + 1 < u32
      → (id : ℕ) × HandsOut d (get_next_id queue d) id
  unfolding get_next_id
  get_next_id-HandsOut d inv room = elim (Option-cases (queue.try_dequeue d.recycled_ids)) [
    | inl e ↦ rw (e, get_next_id) (d.next_id, count_up-HandsOut d inv room)
    | inr ((id, rest), e) ↦ rw (e, get_next_id) (id, reuse-HandsOut d id rest inv e)
  ]

-- The counter's exception is never raised, and where the counter is 0, after its last number, it
-- starts again at its first.
pub count_up_restarts :
    (d : Database)
    → ((count_up d).0 ≢ none)
      × (d.next_id ≡ 0 → count_up d ≡ (some k_start, record d { next_id = k_start + 1 }))
unfolding count_up
count_up_restarts d = (ground arith, λ h. ground arith)
