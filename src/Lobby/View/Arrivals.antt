-- ===== src/Lobby/View/Arrivals.antt =====
-- `UserSession::handleLogin` of src/user_session.cpp against the view.
use worms2lobby_server_cpp.Base.{
  ℕ, ◌≡◌, ◌∙◌, refl, sym, ap, subst, arith, not, ◌||◌, Option, none, some, List, [], ◌∷◌, any_of,
  inl, inr, Bool-cases, is_some,
}
use worms2lobby_server_cpp.Text.StringUtils.{equals_case_insensitive}
use worms2lobby_server_cpp.Packet.Io.{ParseResult, complete, partial, error, fault}
use worms2lobby_server_cpp.Packet.SessionInfo.{SessionInfo}
use worms2lobby_server_cpp.Packet.Fields.{WormsPacket}
use worms2lobby_server_cpp.Lobby.Entities.{User, new_user}
use worms2lobby_server_cpp.Lobby.Database.{get_next_id, get_user}
use worms2lobby_server_cpp.Lobby.Database.Ids.{get_next_id-HandsOut}
use worms2lobby_server_cpp.Lobby.World.{Env, World, set_room_id}
use worms2lobby_server_cpp.Lobby.Quiet.{send-Quiet, each-Quiet}
use worms2lobby_server_cpp.Lobby.Invariant.{IsSoundWorld}
use worms2lobby_server_cpp.Lobby.Preserve.{HasIds}
use worms2lobby_server_cpp.Lobby.Session.{
  LoginEnd, refused, enqueue, admit, has_user_named, enter, is_login, login_with, handle_login,
}
use worms2lobby_server_cpp.Lobby.View.{Lobby, update, view}
use worms2lobby_server_cpp.Lobby.View.Spec.{
  IsFree, login_request, first_packet, Moves, login, enters, name_in_use, turned_away,
}
use worms2lobby_server_cpp.Lobby.View.Laws.{
  any_of-found, none_of-found, lobby-add_user, lobby-SameTables, view-Quiet,
}
use worms2lobby_server_cpp.Lobby.View.Requests.{IsFresh-IsFree}

user_named-any_of :
    (name : List ℕ) (users : List User)
    → has_user_named name users ≡ any_of (λ user. equals_case_insensitive user.name name) users
user_named-any_of name [] = refl
user_named-any_of name (u ∷ users) = ground (arith, user_named-any_of name users)

module _ (env : Env) (session : ℕ) (received name : List ℕ) (nation : ℕ) where
  view-admit :
      (id : ℕ) (w : World)
      → view (admit env session name nation id w).1 ≡ record (view w) {
        user = update (view w).user id (some (new_user session id name nation));
        place = update (view w).place session 0;
      }
  unfolding admit enqueue new_user set_room_id
  view-admit id w =
      let user = new_user session id name nation in
      let w' = set_room_id user 0 w in
      lobby-add_user _ _ (admit env session name nation id w).1.sessions user
      ∙ ap (λ (l : Lobby). record l { user = update l.user id (some user) })
          (view-Quiet (each-Quiet _ (λ u v. send-Quiet u _ v) w.users w'))

  enter-Moves :
      (w : World)
      → IsSoundWorld w
      → HasIds w
      → login_request (first_packet env received) ≡ some (name, nation)
      → Moves env (view w) (login session received) (view (enter env session name nation w).1)
  unfolding enter get_user
  enter-Moves w i b q = elim (Bool-cases (has_user_named name w.users)) [
    | inl e ↦
        let (v, f, s) =
          any_of-found (λ (u : User). u.id) (λ u. equals_case_insensitive u.name name) w.users
            (λ k. omega (arith, i.unique.once k)) (sym (user_named-any_of name w.users) ∙ e) in
        rw e (name_in_use session received name nation v.id v q f s)
    | inr e ↦
        let (id, h) = get_next_id-HandsOut env.queue w.database i.unique b in
        let next : World = record w { database = (get_next_id env.queue w.database).1 } in
        rw (e, h.handed)
          (subst (Moves env (view w) (login session received))
            (sym (
              view-admit id next
              ∙ ap
                  (λ (l : Lobby). record l {
                    user = update l.user id (some (new_user session id name nation));
                    place = update l.place session 0;
                  })
                  (lobby-SameTables w.database w.room_of w.sessions _ h.tables)))
            (enters session received name nation id q
              (λ k v f.
                none_of-found (λ (u : User). u.id) (λ u. equals_case_insensitive u.name name)
                  w.users k v (sym (user_named-any_of name w.users) ∙ e) f)
              (subst (IsFree id) (lobby-SameTables w.database w.room_of w.sessions _ h.tables)
                (IsFresh-IsFree id next h.fresh))))
  ]

module _ (env : Env) (session : ℕ) (received : List ℕ) where
  pub handle_login-Moves :
      (w : World)
      → IsSoundWorld w
      → HasIds w
      → Moves env (view w) (login session received) (view (handle_login env session received w).1)
  unfolding handle_login login_with
  handle_login-Moves w i b = parsed (first_packet env received) refl
    where
      away :
          login_request (first_packet env received) ≡ none
          → Moves env (view w) (login session received) (view w)
      away e = turned_away session received e

      fields :
          (name : Option (List ℕ)) (info : Option SessionInfo)
          → login_request (first_packet env received) ≡ elim name as (λ _. Option (List ℕ × ℕ)) [
            | none ↦ none
            | some name ↦ elim info as (λ _. Option (List ℕ × ℕ)) [
              | none ↦ none
              | some info ↦ some (name, info.player_nation)
            ]
          ]
          → Moves env (view w) (login session received) (
              view
                (elim name as (λ _. LoginEnd × World) [
                  | none ↦ (refused, w)
                  | some name ↦ elim info as (λ _. LoginEnd × World) [
                    | none ↦ (refused, w)
                    | some info ↦ enter env session name info.player_nation w
                  ]
                ]).1)
      fields none info e = away e
      fields (some name) none e = away e
      fields (some name) (some info) e =
          enter-Moves env session received name info.player_nation w i b e

      parsed :
          (r : ParseResult WormsPacket)
          → first_packet env received ≡ r
          → Moves env (view w) (login session received) (
              view
                (elim r as (λ _. LoginEnd × World) [
                  | complete p rest ↦ login_with env session p w
                  | partial ↦ (refused, w)
                  | error e ↦ (refused, w)
                  | fault ↦ (refused, w)
                ]).1)
      parsed (complete p rest) e =
          elim (Bool-cases
            (not (is_login p) || not (is_some p.fields.value1) || not (is_some p.fields.value4))) [
              | inl t ↦ rw t (away (rw (e, t) refl))
              | inr t ↦ rw t (fields p.fields.name p.fields.info (rw (e, t) refl))
            ]
      parsed partial e = away (rw e refl)
      parsed (error x) e = away (rw e refl)
      parsed fault e = away (rw e refl)
