-- ===== src/Lobby/Session/Login.antt =====
-- What a login leaves: `UserSession::handleLogin` of src/user_session.cpp.
use worms2lobby_server_cpp.Base.{
  ℕ, suc, ◌≤◌, ◌∙◌, sym, map, ◌≡◌, ◌≢◌, refl, subst, ap, arith, ◌==◌, ==_refl, false, not, ◌||◌,
  Option, none, some, List, [], ◌∷◌, ◌++◌, All, inl, inr, Bool-cases, is_some, replicate, length,
  ◌-◌,
}
use worms2lobby_server_cpp.Text.StringUtils.{equals_case_insensitive}
use worms2lobby_server_cpp.Packet.Io.{ParseResult, complete, partial, error, fault}
use worms2lobby_server_cpp.Packet.SessionInfo.{SessionInfo}
use worms2lobby_server_cpp.Packet.Fields.{WormsPacket}
use worms2lobby_server_cpp.Packet.Read.{read_from}
use worms2lobby_server_cpp.Lobby.Names.{same_user_name, put-Distinct}
use worms2lobby_server_cpp.Lobby.Entities.{User, new_user}
use worms2lobby_server_cpp.Lobby.Table.{count, put, find}
use worms2lobby_server_cpp.Lobby.Database.{Database, get_next_id, get_user, add_user}
use worms2lobby_server_cpp.Lobby.Database.Ids.{user_ids, IsFresh, get_next_id-HandsOut}
use worms2lobby_server_cpp.Lobby.Database.Changes.{add_user-HasUniqueIds}
use worms2lobby_server_cpp.Lobby.World.{Env, World, set_room_id, send, each, on_database}
use worms2lobby_server_cpp.Lobby.Quiet.{Quiet, send-Quiet, each-Quiet}
use worms2lobby_server_cpp.Lobby.Sound.{Placed, IsSound, moved, move-IsSound, put-All}
use worms2lobby_server_cpp.Lobby.Invariant.{IsSoundWorld, IsLoggedIn}
use worms2lobby_server_cpp.Lobby.Kept.{get_next_id-Kept}
use worms2lobby_server_cpp.Lobby.Preserve.{HasIds, handed-IsSound}
use worms2lobby_server_cpp.Lobby.Session.{
  LoginEnd, refused, accepted, enqueue, admit, has_user_named, enter, is_login, login_with,
  handle_login,
}

-- The lobby after a login, where `users` were there: sound, and with the accepted user, who is new,
-- as the only change of its table. The counter is at `bound` at most.
pub record Enters (users : List User) (bound : ℕ) (r : LoginEnd × World) : Type 0 where
  pub sound : IsSoundWorld r.1
  pub known : (user : User) → r.0 ≡ accepted user → IsLoggedIn user r.1
  pub added :
      (user : User)
      → r.0 ≡ accepted user
      → (r.1.users ≡ put (λ u. u.id) user users) × (count user.id (map (λ u. u.id) users) ≡ 0)
  pub turned_away : ((user : User) → r.0 ≢ accepted user) → r.1.users ≡ users
  pub next : r.1.next_id ≤ bound

find-put : (u : User) (us : List User) → find (λ v. v.id) u.id (put (λ v. v.id) u us) ≡ some u
unfolding put
find-put u [] = rw (==_refl u.id) refl
find-put u (v ∷ us) = elim (Bool-cases (v.id == u.id)) [
  | inl e ↦ rw (e, ==_refl u.id) refl
  | inr e ↦ rw (e, e) (find-put u us)
]

free_name :
    (name : List ℕ) (us : List User)
    → has_user_named name us ≡ false
    → All (λ v. equals_case_insensitive v.name name ≡ false) us
free_name name [] h = tt
free_name name (u ∷ us) h = elim (Bool-cases (equals_case_insensitive u.name name)) [
  | inl e ↦ ground arith
  | inr e ↦ (e, free_name name us (ground arith))
]

add_user-IsSound :
    (u : User) (d : Database) (room_of : ℕ → ℕ)
    → IsSound d room_of
    → IsFresh u.id d
    → Placed d.rooms (room_of u.session)
    → All (λ v. equals_case_insensitive v.name u.name ≡ false) d.users
    → IsSound (add_user u d) room_of
unfolding add_user
add_user-IsSound u d room_of i f p n = record {
  unique = add_user-HasUniqueIds u d i.unique f;
  names =
      let absent : count u.id (user_ids d) ≡ 0 = omega (arith, f.free) in
      put-Distinct (λ (v : User). v.id) same_user_name u d.users absent i.names n;
  room_names = i.room_names;
  users_placed =
      put-All (λ v. Placed d.rooms (room_of v.session)) (λ (v : User). v.id) u d.users p
        i.users_placed;
  games_placed = i.games_placed;
}

-- Telling the others, and adding the user, whatever is queued.
module _ (user : User) (v w : World) (q : Quiet (set_room_id user 0 w) v) where
  added-IsSound :
      IsSoundWorld w
      → IsFresh user.id w.database
      → All (λ u. equals_case_insensitive u.name user.name ≡ false) w.users
      → IsSoundWorld (on_database (add_user user) v)
  unfolding set_room_id
  added-IsSound i f a =
      rw (q.same_database, q.same_rooms_of)
        (add_user-IsSound user w.database (moved user.session 0 w.room_of)
          (move-IsSound w.database w.room_of user.session 0 i (inl refl)) f
          (rw (==_refl user.session) (inl refl)) a)

  added-IsLoggedIn : IsLoggedIn user (on_database (add_user user) v)
  unfolding set_room_id add_user get_user
  added-IsLoggedIn = find-put user v.users

  added-users : (on_database (add_user user) v).users ≡ put (λ u. u.id) user w.users
  unfolding set_room_id add_user
  added-users = ap (λ (d : Database). put (λ u. u.id) user d.users) q.same_database

  added-next : (on_database (add_user user) v).next_id ≤ w.next_id
  unfolding set_room_id add_user
  added-next = omega (arith, ap (λ (d : Database). d.next_id) q.same_database)

module _ (env : Env) (session : ℕ) where
  admit-Enters :
      (name : List ℕ) (nation id : ℕ) (w : World)
      → IsSoundWorld w
      → IsFresh id w.database
      → All (λ u. equals_case_insensitive u.name name ≡ false) w.users
      → Enters w.users w.next_id (admit env session name nation id w)
  unfolding admit enqueue new_user
  admit-Enters name nation id w i f a = record {
    sound = added-IsSound (new_user session id name nation) _ w (quiet _) i f a;
    known = λ user e. known user e;
    added = λ user e. added user e;
    turned_away = λ n. absurd (n (new_user session id name nation) refl);
    next = added-next (new_user session id name nation) _ w (quiet _);
  }
    where
      quiet :
          (bytes : List ℕ)
          → Quiet (set_room_id (new_user session id name nation) 0 w) (
              each
                (λ other v. send other bytes v)
                w.users
                (set_room_id (new_user session id name nation) 0 w))
      quiet bytes = each-Quiet _ (λ u v. send-Quiet u _ v) w.users _

      known :
          (user : User)
          → (admit env session name nation id w).0 ≡ accepted user
          → IsLoggedIn user (admit env session name nation id w).1
      known user e =
          let same : new_user session id name nation ≡ user = cc in
          subst (λ u. IsLoggedIn u (admit env session name nation id w).1) same
            (added-IsLoggedIn (new_user session id name nation) _ w (quiet _))

      added :
          (user : User)
          → (admit env session name nation id w).0 ≡ accepted user
          → ((admit env session name nation id w).1.users ≡ put (λ u. u.id) user w.users)
            × (count user.id (map (λ u. u.id) w.users) ≡ 0)
      added user e =
          let same : new_user session id name nation ≡ user = cc in
          subst
            (λ u.
              ((admit env session name nation id w).1.users ≡ put (λ v. v.id) u w.users)
              × (count u.id (map (λ v. v.id) w.users) ≡ 0))
            same
            (added-users (new_user session id name nation) _ w (quiet _), omega (arith, f.free))

  -- A login that ends without a user changes nothing that matters.
  stays :
      (r : LoginEnd) (w : World)
      → ((user : User) → r ≢ accepted user)
      → IsSoundWorld w
      → Enters w.users (suc w.next_id) (r, w)
  stays r w h i = record {
    sound = i;
    known = λ user e. absurd (h user e);
    added = λ user e. absurd (h user e);
    turned_away = λ n. refl;
    next = omega arith;
  }

  numbered :
      (w v : World) (r : LoginEnd × World)
      → v.users ≡ w.users
      → v.next_id ≤ suc w.next_id
      → Enters v.users v.next_id r
      → Enters w.users (suc w.next_id) r
  numbered w v r e b h = record {
    sound = h.sound;
    known = h.known;
    added = λ user f. rw (sym e) (h.added user f);
    turned_away = λ n. h.turned_away n ∙ e;
    next = omega (arith, h.next);
  }

  enter-Enters :
      (name : List ℕ) (nation : ℕ) (w : World)
      → IsSoundWorld w
      → HasIds w
      → Enters w.users (suc w.next_id) (enter env session name nation w)
  unfolding enter
  enter-Enters name nation w i b = elim (Bool-cases (has_user_named name w.users)) [
    | inl e ↦ rw e (stays _ w (λ user f. cc) i)
    | inr e ↦
        let (id, h) = get_next_id-HandsOut env.queue w.database i.unique b in
        let same = h.tables.same_users in
        rw (e, h.handed)
          (numbered w (record w { database = (get_next_id env.queue w.database).1 }) _
            (h.tables.same_users) (get_next_id-Kept env.queue w i.unique.started).next
            (admit-Enters name nation id
              (record w { database = (get_next_id env.queue w.database).1 })
              (handed-IsSound w.database _ id w.room_of i h) h.fresh
              (rw same (free_name name w.users e))))
  ]

  login_with-Enters :
      (p : WormsPacket) (w : World)
      → IsSoundWorld w
      → HasIds w
      → Enters w.users (suc w.next_id) (login_with env session p w)
  unfolding login_with
  login_with-Enters p w i b =
      elim (Bool-cases
        (not (is_login p) || not (is_some p.fields.value1) || not (is_some p.fields.value4))) [
          | inl e ↦ rw e (stays _ w (λ user f. cc) i)
          | inr e ↦ rw e (fields p.fields.name p.fields.info)
        ]
    where
      fields :
          (name : Option (List ℕ)) (info : Option SessionInfo)
          → Enters w.users (suc w.next_id) (elim name as (λ _. LoginEnd × World) [
            | none ↦ (refused, w)
            | some name ↦ elim info as (λ _. LoginEnd × World) [
              | none ↦ (refused, w)
              | some info ↦ enter env session name info.player_nation w
            ]
          ])
      fields none info = stays _ w (λ user f. cc) i
      fields (some name) none = stays _ w (λ user f. cc) i
      fields (some name) (some info) = enter-Enters name info.player_nation w i b

  -- Whatever bytes come first, a login keeps the lobby sound, takes one new identifier of the
  -- counter at most, and changes the table of users only by a new user that it accepts, who is
  -- then in it, while the counter of identifiers has numbers left.
  pub handle_login-Enters :
      (received : List ℕ) (w : World)
      → IsSoundWorld w
      → HasIds w
      → Enters w.users (suc w.next_id) (handle_login env session received w)
  unfolding handle_login
  handle_login-Enters received w i b =
      parsed (read_from env.io env.settings (received ++ replicate (1024 - length received) 0))
    where
      parsed :
          (r : ParseResult WormsPacket)
          → Enters w.users (suc w.next_id) (elim r as (λ _. LoginEnd × World) [
            | complete p rest ↦ login_with env session p w
            | partial ↦ (refused, w)
            | error e ↦ (refused, w)
            | fault ↦ (refused, w)
          ])
      parsed (complete p rest) = login_with-Enters p w i b
      parsed partial = stays _ w (λ user f. cc) i
      parsed (error e) = stays _ w (λ user f. cc) i
      parsed fault = stays _ w (λ user f. cc) i
