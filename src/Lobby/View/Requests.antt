-- ===== src/Lobby/View/Requests.antt =====
-- The handlers of src/packet_handler.cpp against the view: what they promise is what they do.
use worms2lobby_server_cpp.Base.{
  ℕ, ◌≡◌, ◌≢◌, refl, sym, subst, arith, ◌==◌, true, false, Option, none, some, List, inl, inr,
  Bool-cases, Option-cases,
}
use worms2lobby_server_cpp.Lobby.Entities.{User, Room, Game, new_room, new_game}
use worms2lobby_server_cpp.Lobby.Database.{get_next_id, get_user, get_room, get_game}
use worms2lobby_server_cpp.Lobby.Database.Ids.{IsFresh, HandsOut, get_next_id-HandsOut}
use worms2lobby_server_cpp.Lobby.World.{
  Address, v4, v6, Env, World, Outcome, returned, threw, room_id, set_room_id, get_address,
}
use worms2lobby_server_cpp.Lobby.Quiet.{Quiet, Quiet-trans, send-Quiet, if-Quiet, tell_others-Quiet}
use worms2lobby_server_cpp.Lobby.Invariant.{IsSoundWorld}
use worms2lobby_server_cpp.Lobby.Preserve.{HasIds, refuse_game-Quiet}
use worms2lobby_server_cpp.Lobby.Handler.Rooms.{
  has_room, has_room_named, open_room, create_room, join,
}
use worms2lobby_server_cpp.Lobby.Handler.Games.{refuse_game, open_game, create_game, host_game}
use worms2lobby_server_cpp.Lobby.View.{Lobby, view}
use worms2lobby_server_cpp.Lobby.View.Spec.{
  Request, joins, opens, hosts, IsFree, Performs, joined, not_joined, opened, unreachable, hosted,
  not_hosted,
}
use worms2lobby_server_cpp.Lobby.View.Laws.{
  find-absent, none_of-found, has_room-found, lobby-add_room, lobby-add_game, lobby-SameTables,
  view-Quiet,
}

pub IsFresh-IsFree : (id : ℕ) (w : World) → IsFresh id w.database → IsFree id (view w)
unfolding get_user get_room get_game
IsFresh-IsFree id w f = record {
  no_user = find-absent (λ (u : User). u.id) id w.users (omega (arith, f.free));
  no_room = find-absent (λ (r : Room). r.id) id w.rooms (omega (arith, f.free));
  no_game = find-absent (λ (g : Game). g.id) id w.games (omega (arith, f.free));
  low = f.low;
}

module _ (env : Env) (client : User) where
  -- A request is performed where it is before packets are sent.
  pub quietly :
      {l : Lobby} {q : Option Request} {v w : World}
      → Quiet v w
      → Performs env client l q (view v)
      → Performs env client l q (view w)
  quietly {l} {q} s p = subst (Performs env client l q) (sym (view-Quiet s)) p

  pub join-Performs :
      (target : ℕ) (w : World)
      → Performs env client (view w) (some (joins target)) (view (join env client target w))
  unfolding join set_room_id get_room
  join-Performs target w = elim (Option-cases (get_room target w.database)) [
    | inl e ↦
        let n : has_room target w.rooms ≡ false = rw (has_room-found target w.rooms, e) refl in
        rw n (
          quietly
            (if-Quiet _ w _ _ (Quiet-trans (tell_others-Quiet client _ w) (send-Quiet client _ _))
              (send-Quiet client _ w))
            (not_joined target e))
    | inr (r, e) ↦
        let y : has_room target w.rooms ≡ true = rw (has_room-found target w.rooms, e) refl in
        rw y (
          quietly (Quiet-trans (tell_others-Quiet client _ _) (send-Quiet client _ _))
            (joined target r e))
  ]

  -- After an identifier is taken, the lobby looks the same.
  taken :
      (w : World) (id : ℕ) {q : Option Request} {l' : Lobby}
      → HandsOut w.database (get_next_id env.queue w.database) id
      → Performs env client
          (view (record w { database = (get_next_id env.queue w.database).1 }))
          q
          l'
      → Performs env client (view w) q l'
  taken w id {q} {l'} h p =
      subst (λ l. Performs env client l q l')
        (lobby-SameTables w.database w.room_of w.sessions (get_next_id env.queue w.database).1
          h.tables)
        p

  open_room-Performs :
      (name : List ℕ) (nation address id : ℕ) (w : World)
      → IsFresh id w.database
      → has_room_named name w.rooms ≡ false
      → get_address w client ≡ some address
      → Performs env client
          (view w)
          (some (opens name nation))
          (view (open_room env client name nation address id w))
  unfolding open_room get_address get_room new_room
  open_room-Performs name nation address id w f n a =
      quietly (Quiet-trans (tell_others-Quiet client _ _) (send-Quiet client _ _)) (
        subst (Performs env client (view w) (some (opens name nation)))
          (sym (lobby-add_room w.database w.room_of w.sessions (new_room id name nation address)))
          (opened name nation address id
            (λ k r e. none_of-found (λ (r : Room). r.id) _ w.rooms k r n e) a
            (IsFresh-IsFree id w f)))

  pub create_room-Performs :
      (name : List ℕ) (nation : ℕ) (w : World)
      → IsSoundWorld w
      → HasIds w
      → has_room_named name w.rooms ≡ false
      → Performs env client
          (view w)
          (some (opens name nation))
          (view (create_room env client name nation w).1)
  unfolding create_room get_address
  create_room-Performs name nation w i b n =
      let (id, h) = get_next_id-HandsOut env.queue w.database i.unique b in
      taken w id h (
        rw (h.handed, create_room)
          (reached id h.fresh (rw h.tables.same_rooms n) (get_address next client) refl))
    where
      next : World
      next = record w { database = (get_next_id env.queue w.database).1 }

      reached :
          (id : ℕ)
          → IsFresh id next.database
          → has_room_named name next.rooms ≡ false
          → (a : Option ℕ) → get_address next client ≡ a
          → Performs env client (view next) (some (opens name nation)) (
              view
                (elim a as (λ _. Outcome × World) [
                  | none ↦ (threw, next)
                  | some address ↦ (returned true, open_room env client name nation address id next)
                ]).1)
      reached id f n none e = unreachable name nation e
      reached id f n (some address) e = open_room-Performs name nation address id next f n e

  open_game-Performs :
      (access address id : ℕ) (text : List ℕ) (w : World)
      → IsFresh id w.database
      → env.make_address text ≡ some (v4 address)
      → get_address w client ≡ some address
      → Performs env client
          (view w)
          (some (hosts access text))
          (view (refuse_game env client (open_game env client access address id w)))
  unfolding open_game get_address new_game
  open_game-Performs access address id text w f m a =
      quietly
        (Quiet-trans (Quiet-trans (tell_others-Quiet client _ _) (send-Quiet client _ _))
          (refuse_game-Quiet env client _))
        (subst (Performs env client (view w) (some (hosts access text)))
          (sym (
            lobby-add_game w.database w.room_of w.sessions (
              new_game id client.name client.session_info.player_nation (room_id w client) address
                access)))
          (hosted access text address id m a (IsFresh-IsFree id w f)))

  create_game-Performs :
      (access address : ℕ) (text : List ℕ) (w : World)
      → IsSoundWorld w
      → HasIds w
      → env.make_address text ≡ some (v4 address)
      → get_address w client ≡ some address
      → Performs env client
          (view w)
          (some (hosts access text))
          (view (create_game env client access w).1)
  unfolding create_game get_address
  create_game-Performs access address text w i b m a =
      let (id, h) = get_next_id-HandsOut env.queue w.database i.unique b in
      taken w id h (
        rw (h.handed, a, create_game)
          (open_game-Performs access address id text
            (record w { database = (get_next_id env.queue w.database).1 }) h.fresh m a))

  refused-Performs :
      (access : ℕ) (text : List ℕ) (w : World)
      → ((address : ℕ)
          → env.make_address text ≡ some (v4 address)
          → (view w).address client.session ≢ some address)
      → Performs env client (view w) (some (hosts access text)) (view (refuse_game env client w))
  refused-Performs access text w n =
      quietly (refuse_game-Quiet env client w) (not_hosted access text n)

  pub host_game-Performs :
      (access : ℕ) (text : List ℕ) (parsed : Address) (w : World)
      → IsSoundWorld w
      → HasIds w
      → env.make_address text ≡ some parsed
      → Performs env client
          (view w)
          (some (hosts access text))
          (view (host_game env client access parsed w).1)
  unfolding host_game get_address
  host_game-Performs access text (v6 t) w i b m = refused-Performs access text w (λ a e. cc)
  host_game-Performs access text (v4 parsed) w i b m = elim (Option-cases (get_address w client)) [
    | inl e ↦ rw (e, host_game) (not_hosted access text (λ a p q. cc))
    | inr (a, e) ↦ elim (Bool-cases (a == parsed)) [
      | inl s ↦
          rw (e, s, host_game) (create_game-Performs access parsed text w i b m (ground arith))
      | inr s ↦ rw (e, s, host_game) (refused-Performs access text w (λ a' p q. ground arith))
    ]
  ]
