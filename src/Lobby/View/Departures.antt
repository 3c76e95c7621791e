-- ===== src/Lobby/View/Departures.antt =====
-- `OnLeave` of src/packet_handler.cpp and `DisconnectUser` of src/user_session.cpp against the view.
use worms2lobby_server_cpp.Base.{
  ℕ, ◌≤◌, ◌≡◌, refl, sym, ap, ◌∙◌, subst, arith, ◌==◌, str_eq, str_eq_sound, str_eq_refl, Bool,
  true, false, not, ◌&&◌, none, some, List, [], ◌∷◌, map, any_of, find_if, inl, inr, Bool-cases,
  Option-cases,
}
use worms2lobby_server_cpp.Lobby.Entities.{User, Room, Game}
use worms2lobby_server_cpp.Lobby.Table.{count, find}
use worms2lobby_server_cpp.Lobby.Database.{
  get_user, get_room, get_game, get_game_by_name, remove_user,
}
use worms2lobby_server_cpp.Lobby.Database.Ids.{user_ids}
use worms2lobby_server_cpp.Lobby.World.{Env, World, room_id, set_room_id, on_database}
use worms2lobby_server_cpp.Lobby.Quiet.{Quiet-trans, send-Quiet, each-Quiet}
use worms2lobby_server_cpp.Lobby.Sound.{find-count}
use worms2lobby_server_cpp.Lobby.Invariant.{
  IsSoundWorld, IsLoggedIn, after_close, set_room_id-Quiet, leave_room-Quiet,
}
use worms2lobby_server_cpp.Lobby.Handler.Leave.{is_abandoned, leave_room}
use worms2lobby_server_cpp.Lobby.Handler.Rooms.{leave}
use worms2lobby_server_cpp.Lobby.Session.{leave_room_on_exit, leaver, disconnect_user}
use worms2lobby_server_cpp.Lobby.Session.Disconnect.{leaver-Leaves, close_game-Quiet}
use worms2lobby_server_cpp.Lobby.View.{Lobby, update, view}
use worms2lobby_server_cpp.Lobby.View.Spec.{
  IsDeserted, Closes, missing, stays, closed, Performs, went, leaves, Departs, alone, hosting,
}
use worms2lobby_server_cpp.Lobby.View.Laws.{
  find-absent, any_of-found, none_of-found, lobby-remove_user, lobby-remove_room, lobby-remove_game,
  view-Quiet,
}

abandoned-IsDeserted :
    (left room : ℕ) (w : World) → is_abandoned left room w ≡ true → IsDeserted left room (view w)
unfolding is_abandoned get_user get_game
abandoned-IsDeserted left room w a = record {
  users = λ k u e n p.
      let q =
        none_of-found (λ (u : User). u.id) (λ u. not (u.id == left) && room_id w u == room) w.users
          k u (ground arith) e in
      ground arith;
  games = λ k g e n p.
      let q =
        none_of-found (λ (g : Game). g.id) (λ g. not (g.id == left) && g.room_id == room) w.games k
          g (ground arith) e in
      ground arith;
}

not-abandoned :
    (left room : ℕ) (w : World)
    → IsSoundWorld w
    → is_abandoned left room w ≡ false
    → ¬ IsDeserted left room (view w)
unfolding is_abandoned get_user get_game
not-abandoned left room w i a d =
    elim (Bool-cases (any_of (λ user. not (user.id == left) && room_id w user == room) w.users)) [
      | inl e ↦
          let (u, f, q) =
            any_of-found (λ (u : User). u.id) _ w.users (λ k. omega (arith, i.unique.once k)) e in
          d.users u.id u f (λ s. ground arith) (ground arith)
      | inr e ↦
          let (g, f, q) =
            any_of-found (λ (g : Game). g.id) (λ g. not (g.id == left) && g.room_id == room) w.games
              (λ k. omega (arith, i.unique.once k)) (ground arith) in
          d.games g.id g f (λ s. ground arith) (ground arith)
    ]

module _ (env : Env) where
  after_close-Closes :
      (default left room : ℕ) (w : World)
      → IsSoundWorld w
      → Closes left room (view w) (view (after_close env default (get_room room w.database) left w))
  unfolding get_room
  after_close-Closes default left room w i = elim (Option-cases (get_room room w.database)) [
    | inl e ↦ rw e (missing e)
    | inr (r, e) ↦
        let same : r.id ≡ room = (find-count (λ (r : Room). r.id) room r w.rooms e).0 in
        elim (Bool-cases (is_abandoned left r.id w)) [
          | inl a ↦
              rw (e, a)
                (subst (Closes left room (view w))
                  (sym (lobby-remove_room w.database w.room_of w.sessions env.queue r.id))
                  (rw same (closed (abandoned-IsDeserted left room w (rw same at a)))))
          | inr a ↦ rw (e, a) (stays (not-abandoned left room w i (rw same at a)))
        ]
  ]

  pub leave-Performs :
      (client : User) (w : World)
      → IsSoundWorld w
      → Performs env client (view w) (some leaves) (view (leave env client w))
  unfolding leave leave_room set_room_id
  leave-Performs client w i =
      let room = get_room (room_id w client) w.database in
      subst (Performs env client (view w) (some leaves))
        (sym (
          view-Quiet (
            Quiet-trans (set_room_id-Quiet client 0 (leave_room-Quiet env 5 room client.id w))
              (send-Quiet client _ _))))
        (went (view (after_close env 5 room client.id w))
          (after_close-Closes 5 client.id (room_id w client) w i))

module _ {V : Type 0} (id : V → ℕ) (p : V → Bool) where
  find_if-found :
      (vs : List V) (v : V)
      → ((k : ℕ) → count k (map id vs) ≤ 1)
      → find_if p vs ≡ some v
      → (find id (id v) vs ≡ some v) × (p v ≡ true)
  find_if-found [] v once e = absurd (cc)
  find_if-found (u ∷ us) v once e = elim (Bool-cases (p u)) [
    | inl t ↦ (ground arith, ground arith)
    | inr f ↦
        let (g, q) = find_if-found us v (λ k. ground (arith, once k)) (ground arith) in
        (ground (arith, once (id u), find-absent id (id u) us), q)
  ]

  find_if-missed : (vs : List V) → find_if p vs ≡ none → any_of p vs ≡ false
  find_if-missed [] e = refl
  find_if-missed (v ∷ vs) e = ground (arith, find_if-missed vs)

-- The room that is left, the identifier under which it is left, and the lobby then: what closes the
-- room there makes the departure whole.
record Prepares (client : User) (l : Lobby) (r : ℕ × ℕ × World) : Type 0 where
  departs : (l' : Lobby) → Closes r.1 r.0 (view r.2) l' → Departs client l l'

module _ (env : Env) (client : User) (w : World) (i : IsSoundWorld w) where
  after : World
  after = on_database (remove_user env.queue client.id) w

  leaver-Prepares : Prepares client (view w) (leaver env client w)
  unfolding after get_game_by_name remove_user get_game
  leaver-Prepares = elim (Option-cases (get_game_by_name client.name after.database)) [
    | inl e ↦
        rw (e, leaver)
          (record {
            departs = λ l' c.
                alone l'
                  (λ k g f s.
                    let q =
                      none_of-found (λ (g : Game). g.id) (λ g. str_eq g.name client.name) w.games k
                        g (find_if-missed (λ (g : Game). g.id) _ w.games e) f in
                    cc (q, str_eq_refl client.name, s))
                  (subst (λ l. Closes client.id (room_id w client) l l')
                    (lobby-remove_user w.database w.room_of w.sessions env.queue client.id) c);
          })
    | inr (game, e) ↦
        let (f, q) =
          find_if-found (λ (g : Game). g.id) (λ g. str_eq g.name client.name) w.games game
            (λ k. omega (arith, i.unique.once k)) e in
        rw (e, leaver)
          (record {
            departs = λ l' c. hosting game l' f (str_eq_sound game.name client.name q) (
                subst (λ l. Closes game.id game.room_id l l')
                  (view-Quiet (close_game-Quiet env client game after)
                    ∙ lobby-remove_game after.database w.room_of w.sessions env.queue game.id
                    ∙ ap (λ (l : Lobby). record l { game = update l.game game.id none })
                        (lobby-remove_user w.database w.room_of w.sessions env.queue client.id))
                  c);
          })
  ]

  pub disconnect_user-Departs :
      IsLoggedIn client w → Departs client (view w) (view (disconnect_user env client w))
  unfolding disconnect_user leave_room_on_exit get_user
  disconnect_user-Departs l =
      let there : 1 ≤ count client.id (user_ids w.database) =
        (find-count (λ (u : User). u.id) client.id client w.users l).1 in
      let e : (client.id == 0) ≡ false =
        ground (arith, i.unique.once client.id, i.unique.reserved client.id) in
      let r = leaver env client w in
      let h = leaver-Leaves env client w i l in
      rw e (
        leaver-Prepares.departs _ (
          subst (Closes r.1 r.0 (view r.2))
            (sym (
              view-Quiet (
                Quiet-trans (leave_room-Quiet env 0 (get_room r.0 r.2.database) r.1 r.2)
                  (each-Quiet _ (λ user v. send-Quiet user _ v) _ _))))
            (after_close-Closes env 0 r.1 r.0 r.2 h.left.sound)))
