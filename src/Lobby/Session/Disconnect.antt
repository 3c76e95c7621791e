-- ===== src/Lobby/Session/Disconnect.antt =====
-- What a disconnection leaves: `DisconnectUser` of src/user_session.cpp.
use worms2lobby_server_cpp.Base.{
  ℕ, ◌≤◌, ◌≡◌, refl, arith, ◌==◌, Bool, false, not, ◌&&◌, none, some, List, [], ◌∷◌, map, All,
  any_of, find_if, inl, inr, Bool-cases, Option-cases,
}
use worms2lobby_server_cpp.Lobby.Names.{same_user_name, same_room_name, All-erase, erase-Distinct}
use worms2lobby_server_cpp.Lobby.Entities.{User, Room, Game}
use worms2lobby_server_cpp.Lobby.Table.{count, find, erase, count-erase}
use worms2lobby_server_cpp.Lobby.Database.{
  IdQueue, Database, get_user, get_room, get_game_by_name, remove_user, remove_room, remove_game,
}
use worms2lobby_server_cpp.Lobby.Database.Ids.{user_ids, room_ids, game_ids}
use worms2lobby_server_cpp.Lobby.Database.Changes.{
  remove_user-HasUniqueIds, remove_room-HasUniqueIds, remove_game-HasUniqueIds,
}
use worms2lobby_server_cpp.Lobby.World.{Env, World, on_database}
use worms2lobby_server_cpp.Lobby.Quiet.{
  Quiet, Quiet-refl, Quiet-trans, send-Quiet, if-Quiet, each-Quiet,
}
use worms2lobby_server_cpp.Lobby.Sound.{Placed, IsSound, find-count, absent-All, Placed-erase}
use worms2lobby_server_cpp.Lobby.Invariant.{
  IsSoundWorld, IsLoggedIn, IsSound-Quiet, after_close, leave_room-Quiet,
}
use worms2lobby_server_cpp.Lobby.Handler.Leave.{is_abandoned}
use worms2lobby_server_cpp.Lobby.Session.{leave_room_on_exit, close_game, leaver, disconnect_user}

find_if-count :
    {V : Type 0} (p : V → Bool) (id : V → ℕ) (v : V) (vs : List V)
    → find_if p vs ≡ some v
    → 1 ≤ count (id v) (map id vs)
find_if-count p id v [] e = cc
find_if-count p id v (u ∷ vs) e = elim (Bool-cases (p u)) [
  | inl t ↦ let q : u ≡ v = ground arith in rw q (ground arith)
  | inr f ↦ let h = find_if-count p id v vs (ground arith) in omega (arith, h)
]

-- A room that nobody of a list is in can go.
closed-All :
    {V : Type 0} (id room : V → ℕ) (rooms : List Room) (j left : ℕ) (vs : List V)
    → All (λ v. Placed rooms (room v)) vs
    → All (λ v. (id v == left) ≡ false) vs
    → any_of (λ v. not (id v == left) && room v == j) vs ≡ false
    → All (λ v. Placed (erase (λ r. r.id) j rooms) (room v)) vs
closed-All id room rooms j left [] p o n = tt
closed-All id room rooms j left (v ∷ vs) (p, ps) (o, os) n = (
  Placed-erase j rooms (room v) (ground arith) p,
  closed-All id room rooms j left vs ps os (ground arith),
)

-- A sound lobby that holds nobody and nothing under the number of the leaver.
pub record Left (left : ℕ) (d : Database) (room_of : ℕ → ℕ) : Type 0 where
  pub sound : IsSound d room_of
  pub no_user : count left (user_ids d) ≡ 0
  pub no_game : count left (game_ids d) ≡ 0

module _ (queue : IdQueue) where
  gone-IsSound :
      (d : Database) (room_of : ℕ → ℕ) (j left : ℕ)
      → Left left d room_of
      → 1 ≤ count j (room_ids d)
      → any_of (λ u. not (u.id == left) && room_of u.session == j) d.users ≡ false
      → any_of (λ g. not (g.id == left) && g.room_id == j) d.games ≡ false
      → IsSound (remove_room queue j d) room_of
  unfolding remove_room
  gone-IsSound d room_of j left l there users games = record {
    unique = remove_room-HasUniqueIds queue j d l.sound.unique there;
    names = l.sound.names;
    room_names = erase-Distinct (λ (r : Room). r.id) same_room_name j d.rooms l.sound.room_names;
    users_placed =
        closed-All (λ (u : User). u.id) (λ u. room_of u.session) d.rooms j left d.users
          l.sound.users_placed (absent-All (λ (u : User). u.id) left d.users l.no_user) users;
    games_placed =
        closed-All (λ (g : Game). g.id) (λ g. g.room_id) d.rooms j left d.games l.sound.games_placed
          (absent-All (λ (g : Game). g.id) left d.games l.no_game) games;
  }

  user-Left :
      (d : Database) (room_of : ℕ → ℕ) (id : ℕ)
      → IsSound d room_of
      → 1 ≤ count id (user_ids d)
      → Left id (remove_user queue id d) room_of
  unfolding remove_user
  user-Left d room_of id i there = record {
    sound = record {
      unique = remove_user-HasUniqueIds queue id d i.unique there;
      names = erase-Distinct (λ (u : User). u.id) same_user_name id d.users i.names;
      room_names = i.room_names;
      users_placed = All-erase (λ (u : User). u.id) _ id d.users i.users_placed;
      games_placed = i.games_placed;
    };
    no_user = ground (arith, count-erase (λ (u : User). u.id) id id d.users);
    no_game = omega (arith, i.unique.once id);
  }

  game-Left :
      (d : Database) (room_of : ℕ → ℕ) (id : ℕ)
      → IsSound d room_of
      → 1 ≤ count id (game_ids d)
      → Left id (remove_game queue id d) room_of
  unfolding remove_game
  game-Left d room_of id i there = record {
    sound = record {
      unique = remove_game-HasUniqueIds queue id d i.unique there;
      names = i.names;
      room_names = i.room_names;
      users_placed = i.users_placed;
      games_placed = All-erase (λ (g : Game). g.id) _ id d.games i.games_placed;
    };
    no_user = omega (arith, i.unique.once id);
    no_game = ground (arith, count-erase (λ (g : Game). g.id) id id d.games);
  }

find-erase : {V : Type 0} (id : V → ℕ) (k : ℕ) (vs : List V) → find id k (erase id k vs) ≡ none
find-erase id k [] = refl
find-erase id k (v ∷ vs) = elim (Bool-cases (id v == k)) [
  | inl e ↦ rw e (find-erase id k vs)
  | inr e ↦ rw (e, e) (find-erase id k vs)
]

-- The lobby is sound, and nobody is left under the identifier.
pub record Parted (id : ℕ) (w : World) : Type 0 where
  pub sound : IsSoundWorld w
  pub absent : get_user id w.database ≡ none

Parted-Quiet : {id : ℕ} {v w : World} → Quiet v w → Parted id v → Parted id w
Parted-Quiet q p = record { sound = IsSound-Quiet q p.sound; absent = rw q.same_database p.absent }

module _ (env : Env) (id : ℕ) where
  closed-Parted :
      (room left : ℕ) (w : World)
      → Left left w.database w.room_of
      → get_user id w.database ≡ none
      → Parted id (after_close env 0 (get_room room w.database) left w)
  unfolding is_abandoned get_room get_user remove_room
  closed-Parted room left w l a = elim (Option-cases (get_room room w.database)) [
    | inl e ↦ rw e (record { sound = l.sound; absent = a })
    | inr (r, e) ↦ elim (Bool-cases (is_abandoned left r.id w)) [
      | inl b ↦
          let (same, there) = find-count (λ (r : Room). r.id) room r w.rooms e in
          rw (e, b)
            (record {
              sound =
                  gone-IsSound env.queue w.database w.room_of r.id left l (rw same there)
                    (ground arith) (ground arith);
              absent = a;
            })
      | inr b ↦ rw (e, b) (record { sound = l.sound; absent = a })
    ]
  ]

  exit-Parted :
      (room left : ℕ) (w : World)
      → Left left w.database w.room_of
      → get_user id w.database ≡ none
      → Parted id (leave_room_on_exit env (get_room room w.database) left w)
  unfolding leave_room_on_exit
  exit-Parted room left w l a =
      Parted-Quiet (leave_room-Quiet env 0 (get_room room w.database) left w)
        (closed-Parted room left w l a)

-- The lobby before the leaver's room is left.
pub record Leaves (id : ℕ) (r : ℕ × ℕ × World) : Type 0 where
  pub left : Left r.1 r.2.database r.2.room_of
  pub absent : get_user id r.2.database ≡ none

pub close_game-Quiet :
    (env : Env) (client : User) (game : Game) (w : World)
    → Quiet (on_database (remove_game env.queue game.id) w) (close_game env client game w)
unfolding close_game
close_game-Quiet env client game w =
    each-Quiet _
      (λ user v.
        if-Quiet _ v _ _ (Quiet-refl v) (Quiet-trans (send-Quiet user _ v) (send-Quiet user _ _)))
      _ _

pub leaver-Leaves :
    (env : Env) (client : User) (w : World)
    → IsSoundWorld w
    → IsLoggedIn client w
    → Leaves client.id (leaver env client w)
unfolding get_user get_game_by_name remove_user remove_game
leaver-Leaves env client w i l = elim (Option-cases (get_game_by_name client.name w'.database)) [
  | inl e ↦
      rw (e, leaver)
        (record { left = gone; absent = find-erase (λ (u : User). u.id) client.id w.users })
  | inr (game, e) ↦
      let q = close_game-Quiet env client game w' in
      let there : 1 ≤ count game.id (game_ids w'.database) =
        find_if-count _ (λ (g : Game). g.id) game w'.games e in
      rw (e, leaver)
        (record {
          left =
              rw (q.same_database, q.same_rooms_of)
                (game-Left env.queue w'.database w.room_of game.id gone.sound there);
          absent = rw q.same_database (find-erase (λ (u : User). u.id) client.id w.users);
        })
]
  where
    w' : World
    w' = on_database (remove_user env.queue client.id) w

    gone : Left client.id w'.database w.room_of
    gone =
        user-Left env.queue w.database w.room_of client.id i
          (find-count (λ (u : User). u.id) client.id client w.users l).1

-- Where a user that is logged in to a sound lobby disconnects, it is gone from the table, and the
-- lobby stays sound.
pub disconnect_user-Parted :
    (env : Env) (client : User) (w : World)
    → IsSoundWorld w
    → IsLoggedIn client w
    → Parted client.id (disconnect_user env client w)
unfolding disconnect_user get_user
disconnect_user-Parted env client w i l =
    let h = leaver-Leaves env client w i l in
    let there : 1 ≤ count client.id (user_ids w.database) =
      (find-count (λ (u : User). u.id) client.id client w.users l).1 in
    let e : (client.id == 0) ≡ false =
      ground (arith, i.unique.once client.id, i.unique.reserved client.id) in
    rw e (
      Parted-Quiet (each-Quiet _ (λ user v. send-Quiet user _ v) _ _)
        (exit-Parted env client.id _ _ _ h.left h.absent))
