-- ===== src/Lobby/View/Laws.antt =====
-- The changes of the tables of src/database.cpp as changes of functions.
use mathlib.Core.Path.{fun_ext}
use worms2lobby_server_cpp.Base.{
  ℕ, ◌≤◌, ◌≡◌, refl, ap, arith, ◌==◌, ==_refl, Bool, true, false, if◌then◌else◌, Option, none, some,
  List, [], ◌∷◌, map, any_of, inl, inr, Bool-cases, is_some,
}
use worms2lobby_server_cpp.Lobby.Entities.{User, Room, Game}
use worms2lobby_server_cpp.Lobby.Table.{count, find, put, erase}
use worms2lobby_server_cpp.Lobby.Database.{
  IdQueue, Database, add_user, add_room, add_game, remove_user, remove_room, remove_game, get_user,
  get_room, get_game,
}
use worms2lobby_server_cpp.Lobby.Database.Ids.{SameTables}
use worms2lobby_server_cpp.Lobby.World.{Session, World}
use worms2lobby_server_cpp.Lobby.Quiet.{Quiet}
use worms2lobby_server_cpp.Lobby.Handler.Rooms.{has_room}
use worms2lobby_server_cpp.Lobby.View.{Lobby, update, lobby, view}

module _ {V : Type 0} (id : V → ℕ) where
  find-put :
      (v : V) (vs : List V) (j : ℕ)
      → find id j (put id v vs) ≡ (if j == id v then some v else find id j vs)
  unfolding put
  find-put v [] j = ground arith
  find-put v (u ∷ us) j = ground (arith, find-put v us j)

  find-erase :
      (k : ℕ) (vs : List V) (j : ℕ)
      → find id j (erase id k vs) ≡ (if j == k then none else find id j vs)
  find-erase k [] j = ground arith
  find-erase k (v ∷ vs) j = ground (arith, find-erase k vs j)

  pub find-absent : (k : ℕ) (vs : List V) → count k (map id vs) ≡ 0 → find id k vs ≡ none
  find-absent k [] h = refl
  find-absent k (v ∷ vs) h = ground (arith, find-absent k vs)

  -- What some object of a table has, one has that is found under its identifier.
  pub any_of-found :
      (p : V → Bool) (vs : List V)
      → ((k : ℕ) → count k (map id vs) ≤ 1)
      → any_of p vs ≡ true
      → (v : V) × (find id (id v) vs ≡ some v) × (p v ≡ true)
  any_of-found p [] once h = absurd (cc)
  any_of-found p (v ∷ vs) once h = elim (Bool-cases (p v)) [
    | inl e ↦ (v, rw (==_refl (id v)) refl, e)
    | inr e ↦
        let (u, f, q) = any_of-found p vs (λ k. ground (arith, once k)) (ground arith) in
        (u, ground (arith, once (id v), find-absent (id u) vs), q)
  ]

  -- What no object of a table has, none has that is found.
  pub none_of-found :
      (p : V → Bool) (vs : List V) (k : ℕ) (v : V)
      → any_of p vs ≡ false
      → find id k vs ≡ some v
      → p v ≡ false
  none_of-found p [] k v h e = absurd (cc)
  none_of-found p (u ∷ us) k v h e = ground (arith, none_of-found p us k v)

pub has_room-found :
    (k : ℕ) (rooms : List Room) → has_room k rooms ≡ is_some (find (λ (r : Room). r.id) k rooms)
has_room-found k [] = refl
has_room-found k (r ∷ rooms) = ground (arith, has_room-found k rooms)

module _ (d : Database) (room_of : ℕ → ℕ) (sessions : ℕ → Option Session) where
  abbrev before : Lobby
  before = lobby d room_of sessions

  pub lobby-add_user :
      (u : User)
      → lobby (add_user u d) room_of sessions
        ≡ record before { user = update before.user u.id (some u) }
  unfolding add_user get_user get_room get_game
  lobby-add_user u =
      ap (λ (f : ℕ → Option User). record before { user = f })
        (fun_ext (find-put (λ (v : User). v.id) u d.users))

  pub lobby-add_room :
      (r : Room)
      → lobby (add_room r d) room_of sessions
        ≡ record before { room = update before.room r.id (some r) }
  unfolding add_room get_user get_room get_game
  lobby-add_room r =
      ap (λ (f : ℕ → Option Room). record before { room = f })
        (fun_ext (find-put (λ (v : Room). v.id) r d.rooms))

  pub lobby-add_game :
      (g : Game)
      → lobby (add_game g d) room_of sessions
        ≡ record before { game = update before.game g.id (some g) }
  unfolding add_game get_user get_room get_game
  lobby-add_game g =
      ap (λ (f : ℕ → Option Game). record before { game = f })
        (fun_ext (find-put (λ (v : Game). v.id) g d.games))

  pub lobby-remove_user :
      (queue : IdQueue) (k : ℕ)
      → lobby (remove_user queue k d) room_of sessions
        ≡ record before { user = update before.user k none }
  unfolding remove_user get_user get_room get_game
  lobby-remove_user queue k =
      ap (λ (f : ℕ → Option User). record before { user = f })
        (fun_ext (find-erase (λ (v : User). v.id) k d.users))

  pub lobby-remove_room :
      (queue : IdQueue) (k : ℕ)
      → lobby (remove_room queue k d) room_of sessions
        ≡ record before { room = update before.room k none }
  unfolding remove_room get_user get_room get_game
  lobby-remove_room queue k =
      ap (λ (f : ℕ → Option Room). record before { room = f })
        (fun_ext (find-erase (λ (v : Room). v.id) k d.rooms))

  pub lobby-remove_game :
      (queue : IdQueue) (k : ℕ)
      → lobby (remove_game queue k d) room_of sessions
        ≡ record before { game = update before.game k none }
  unfolding remove_game get_user get_room get_game
  lobby-remove_game queue k =
      ap (λ (f : ℕ → Option Game). record before { game = f })
        (fun_ext (find-erase (λ (v : Game). v.id) k d.games))

  pub lobby-SameTables :
      (d' : Database) → SameTables d d' → lobby d' room_of sessions ≡ lobby d room_of sessions
  unfolding get_user get_room get_game
  lobby-SameTables d' s = rw (s.same_users, s.same_rooms, s.same_games) refl

-- Sending packets does not change the view.
pub view-Quiet : {v w : World} → Quiet v w → view w ≡ view v
view-Quiet q = rw (q.same_database, q.same_rooms_of, q.same_sessions) refl
