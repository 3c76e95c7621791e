-- ===== src/Lobby/Sound.antt =====
-- The invariant of the lobby (src/database.cpp and the users' rooms): identifiers and names are
-- unique, and everybody and every game is in an open room or in room 0, the lobby outside all rooms.
use worms2lobby_server_cpp.Base.{
  ℕ, ◌≤◌, ◌≡◌, refl, arith, ◌==◌, true, false, not, ◌&&◌, if◌then◌else◌, some, List, [], ◌∷◌, map,
  All, any_of, ◌⊎◌, inl, inr, Bool-cases,
}
use worms2lobby_server_cpp.Text.StringUtils.{equals_case_insensitive}
use worms2lobby_server_cpp.Lobby.Names.{
  Distinct, same_user_name, same_room_name, put-Distinct, erase-Distinct,
}
use worms2lobby_server_cpp.Lobby.Entities.{User, Room, Game}
use worms2lobby_server_cpp.Lobby.Table.{count, find, put, erase}
use worms2lobby_server_cpp.Lobby.Database.{IdQueue, Database, remove_room, add_room, add_game}
use worms2lobby_server_cpp.Lobby.Database.Ids.{HasUniqueIds, IsFresh, room_ids, game_ids}
use worms2lobby_server_cpp.Lobby.Database.Changes.{
  remove_room-HasUniqueIds, add_room-HasUniqueIds, add_game-HasUniqueIds,
}
use worms2lobby_server_cpp.Lobby.Handler.Rooms.{has_room}

-- Room 0 is the lobby outside all rooms.
abbrev pub Placed : List Room → ℕ → Type 0
Placed rooms room = (room ≡ 0) ⊎ (has_room room rooms ≡ true)

pub record IsSound (d : Database) (room_of : ℕ → ℕ) : Type 0 where
  pub unique : HasUniqueIds d
  pub names : Distinct same_user_name d.users
  pub room_names : Distinct same_room_name d.rooms
  pub users_placed : All (λ u. Placed d.rooms (room_of u.session)) d.users
  pub games_placed : All (λ g. Placed d.rooms g.room_id) d.games

-- Facts about lists of objects with identifiers.
pub All-map {ℓ} :
    {A : Type ℓ} {P Q : A → Type 0} (xs : List A) → ((x : A) → P x → Q x) → All P xs → All Q xs
All-map [] h a = tt
All-map (x ∷ xs) h (a, b) = (h x a, All-map xs h b)

module _ {V : Type 0} (id : V → ℕ) where
  pub find-count :
      (k : ℕ) (v : V) (vs : List V) → find id k vs ≡ some v → (id v ≡ k) × (1 ≤ count k (map id vs))
  find-count k v [] e = cc
  find-count k v (u ∷ vs) e = ground (arith, find-count k v vs)

  pub absent-All :
      (k : ℕ) (vs : List V) → count k (map id vs) ≡ 0 → All (λ v. (id v == k) ≡ false) vs
  absent-All k [] h = tt
  absent-All k (v ∷ vs) h = (ground arith, absent-All k vs (ground arith))

  -- With unique identifiers, the one that is found is the only one.
  pub find-All :
      (k : ℕ) (c : V) (vs : List V)
      → count k (map id vs) ≤ 1
      → find id k vs ≡ some c
      → All (λ v. (id v == k) ≡ true → v ≡ c) vs
  find-All k c [] h e = tt
  find-All k c (v ∷ vs) h e = elim (Bool-cases (id v == k)) [
    | inl t ↦ (λ _. ground arith, All-map vs (λ x f g. cc) (absent-All k vs (ground arith)))
    | inr f ↦ (λ g. cc, find-All k c vs (ground arith) (ground arith))
  ]

has_room-put :
    (k : ℕ) (r : Room) (rooms : List Room)
    → has_room k rooms ≡ true
    → has_room k (put (λ v. v.id) r rooms) ≡ true
unfolding put
has_room-put k r [] h = cc
has_room-put k r (q ∷ rooms) h = ground (arith, has_room-put k r rooms)

has_room-erase :
    (k j : ℕ) (rooms : List Room)
    → (k == j) ≡ false
    → has_room k rooms ≡ true
    → has_room k (erase (λ v. v.id) j rooms) ≡ true
has_room-erase k j [] n h = cc
has_room-erase k j (q ∷ rooms) n h = ground (arith, has_room-erase k j rooms)

Placed-put :
    (r : Room) (rooms : List Room) (k : ℕ) → Placed rooms k → Placed (put (λ v. v.id) r rooms) k
Placed-put r rooms k (inl z) = inl z
Placed-put r rooms k (inr h) = inr (has_room-put k r rooms h)

pub Placed-erase :
    (j : ℕ) (rooms : List Room) (k : ℕ)
    → (k == j) ≡ false
    → Placed rooms k
    → Placed (erase (λ v. v.id) j rooms) k
Placed-erase j rooms k n (inl z) = inl z
Placed-erase j rooms k n (inr h) = inr (has_room-erase k j rooms n h)

module _ (rooms : List Room) (room_of : ℕ → ℕ) (j left session : ℕ) where
  -- Closing a room that only the leaver was in, where the leaver goes back to the lobby.
  users-closed :
      (us : List User)
      → All (λ u. Placed rooms (room_of u.session)) us
      → All (λ u. (u.id == left) ≡ true → u.session ≡ session) us
      → any_of (λ u. not (u.id == left) && room_of u.session == j) us ≡ false
      → All
          (λ u.
            Placed
              (erase (λ v. v.id) j rooms)
              (if u.session == session then 0 else room_of u.session))
          us
  users-closed [] p o n = tt
  users-closed (u ∷ us) (p, ps) (o, os) n = (here, users-closed us ps os (ground arith))
    where
      here :
          Placed (erase (λ v. v.id) j rooms) (if u.session == session then 0 else room_of u.session)
      here = elim (Bool-cases (u.session == session)) [
        | inl e ↦ rw e (inl refl)
        | inr e ↦ rw e (Placed-erase j rooms (room_of u.session) (ground arith) p)
      ]

  games-closed :
      (gs : List Game)
      → All (λ g. Placed rooms g.room_id) gs
      → All (λ g. (g.id == left) ≡ false) gs
      → any_of (λ g. not (g.id == left) && g.room_id == j) gs ≡ false
      → All (λ g. Placed (erase (λ v. v.id) j rooms) g.room_id) gs
  games-closed [] p o n = tt
  games-closed (g ∷ gs) (p, ps) (o, os) n =
      (Placed-erase j rooms g.room_id (ground arith) p, games-closed gs ps os (ground arith))

-- A user's move to a room that is open, or to the lobby.
abbrev pub moved : ℕ → ℕ → (ℕ → ℕ) → ℕ → ℕ
moved session room room_of s = if s == session then room else room_of s

pub move-IsSound :
    (d : Database) (room_of : ℕ → ℕ) (session room : ℕ)
    → IsSound d room_of
    → Placed d.rooms room
    → IsSound d (moved session room room_of)
move-IsSound d room_of session room i p = record {
  unique = i.unique;
  names = i.names;
  room_names = i.room_names;
  users_placed = All-map d.users (λ u q. here u q) i.users_placed;
  games_placed = i.games_placed;
}
  where
    here :
        (u : User)
        → Placed d.rooms (room_of u.session)
        → Placed d.rooms (if u.session == session then room else room_of u.session)
    here u q = elim (Bool-cases (u.session == session)) [ inl e ↦ rw e p | inr e ↦ rw e q ]

-- A new room or a new game.
pub add_room-IsSound :
    (r : Room) (d : Database) (room_of : ℕ → ℕ)
    → IsSound d room_of
    → IsFresh r.id d
    → All (λ s. equals_case_insensitive r.name s.name ≡ false) d.rooms
    → IsSound (add_room r d) room_of
unfolding add_room
add_room-IsSound r d room_of i f n = record {
  unique = add_room-HasUniqueIds r d i.unique f;
  names = i.names;
  room_names =
      let absent : count r.id (room_ids d) ≡ 0 = omega (arith, f.free) in
      put-Distinct (λ (s : Room). s.id) same_room_name r d.rooms absent i.room_names n;
  users_placed = All-map d.users (λ u p. Placed-put r d.rooms _ p) i.users_placed;
  games_placed = All-map d.games (λ g p. Placed-put r d.rooms _ p) i.games_placed;
}

pub put-All :
    {V : Type 0} (P : V → Type 0) (id : V → ℕ) (v : V) (vs : List V)
    → P v
    → All P vs
    → All P (put id v vs)
unfolding put
put-All P id v [] p h = (p, tt)
put-All P id v (u ∷ vs) p (h, hs) = elim (Bool-cases (id u == id v)) [
  | inl e ↦ rw e (p, hs)
  | inr e ↦ rw e (h, put-All P id v vs p hs)
]

pub add_game-IsSound :
    (g : Game) (d : Database) (room_of : ℕ → ℕ)
    → IsSound d room_of
    → IsFresh g.id d
    → Placed d.rooms g.room_id
    → IsSound (add_game g d) room_of
unfolding add_game
add_game-IsSound g d room_of i f p = record {
  unique = add_game-HasUniqueIds g d i.unique f;
  names = i.names;
  room_names = i.room_names;
  users_placed = i.users_placed;
  games_placed =
      put-All (λ v. Placed d.rooms v.room_id) (λ (v : Game). v.id) g d.games p i.games_placed;
}

-- The room is closed behind the last one in it.
pub close-IsSound :
    (queue : IdQueue) (d : Database) (room_of : ℕ → ℕ) (j left session : ℕ)
    → IsSound d room_of
    → 1 ≤ count j (room_ids d)
    → All (λ u. (u.id == left) ≡ true → u.session ≡ session) d.users
    → count left (game_ids d) ≡ 0
    → any_of (λ u. not (u.id == left) && room_of u.session == j) d.users ≡ false
    → any_of (λ g. not (g.id == left) && g.room_id == j) d.games ≡ false
    → IsSound (remove_room queue j d) (moved session 0 room_of)
unfolding remove_room
close-IsSound queue d room_of j left session i there own no_game users games = record {
  unique = remove_room-HasUniqueIds queue j d i.unique there;
  names = i.names;
  room_names = erase-Distinct (λ (r : Room). r.id) same_room_name j d.rooms i.room_names;
  users_placed = users-closed d.rooms room_of j left session d.users i.users_placed own users;
  games_placed =
      games-closed d.rooms room_of j left session d.games i.games_placed
        (absent-All (λ (g : Game). g.id) left d.games no_game) games;
}
