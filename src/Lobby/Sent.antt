-- ===== src/Lobby/Sent.antt =====
-- Who is sent what by the handlers of src/packet_handler.cpp.
use worms2lobby_server_cpp.Base.{
  ℕ, ◌≡◌, refl, sym, subst, ◌∙◌, ◌==◌, ==_refl, Bool, true, not, ◌&&◌, if◌then◌else◌, none, some,
  List, [], ◌∷◌, ◌++◌, map, append-nil, append_assoc, filter, is_some, Option-cases, Bool-cases,
  inl, inr,
}
use worms2lobby_server_cpp.Lobby.Entities.{User}
use worms2lobby_server_cpp.Lobby.World.{Env, World, Session, room_id, send, each}
use worms2lobby_server_cpp.Lobby.Quiet.{
  Quiet, Quiet-refl, Quiet-trans, send-Quiet, each-Quiet, if-Quiet,
}
use worms2lobby_server_cpp.Lobby.Handler.Chat.{chat_packet, chat_reply, hears, chat_group}

-- The packets for those of the users whose sessions are alive and who pass a test.
abbrev pub told : World → (User → Bool) → List ℕ → List User → List (ℕ × List ℕ)
told w p bytes users =
    map (λ u. (u.session, bytes)) (filter (λ u. p u && is_some (w.sessions u.session)) users)

pub send-gone :
    (u : User) (bytes : List ℕ) (w : World) → w.sessions u.session ≡ none → send u bytes w ≡ w
unfolding send
send-gone u bytes w e = rw (e, send) refl

pub sent-alive :
    (u : User) (bytes : List ℕ) (w : World) (s : Session)
    → w.sessions u.session ≡ some s
    → (send u bytes w).sent ≡ w.sent ++ (u.session, bytes) ∷ []
unfolding send
sent-alive u bytes w s e = rw (e, send) refl

told-cons :
    (w : World) (p : User → Bool) (bytes : List ℕ) (u : User) (us : List User)
    → told w p bytes (u ∷ us) ≡ told w p bytes (u ∷ []) ++ told w p bytes us
told-cons w p bytes u us = elim (Bool-cases (p u && is_some (w.sessions u.session))) [
  | inl e ↦ rw e refl
  | inr e ↦ rw e refl
]

-- One round of a loop.
record Tells (w : World) (p : User → Bool) (bytes : List ℕ) (u : User) (v v' : World) : Type 0 where
  quiet : Quiet w v'
  more : v'.sent ≡ v.sent ++ told w p bytes (u ∷ [])

if-Tells :
    (w : World) (p : User → Bool) (bytes : List ℕ) (u : User) (v : World)
    → Quiet w v
    → Tells w p bytes u v (if p u then send u bytes v else v)
if-Tells w p bytes u v q = elim (Bool-cases (p u)) [
  | inr f ↦ rw f (record { quiet = q; more = rw (f, append-nil) refl })
  | inl t ↦ elim (Option-cases (w.sessions u.session)) [
    | inl e ↦
        rw (t, send-gone u bytes v (rw q.same_sessions e))
          (record { quiet = q; more = rw (t, e, append-nil) refl })
    | inr (s, e) ↦ rw t (record {
      quiet = Quiet-trans q (send-Quiet u bytes v);
      more = rw (t, e) (sent-alive u bytes v s (rw q.same_sessions e));
    })
  ]
]

-- A loop that sends one packet to those who pass a test.
module _ (w : World) (p : User → Bool) (bytes : List ℕ) (body : User → World → World)
    (h : (u : User) (v : World) → Quiet w v → Tells w p bytes u v (body u v)) where
  sent-each :
      (us : List User) (v : World) → Quiet w v → (each body us v).sent ≡ v.sent ++ told w p bytes us
  unfolding each
  sent-each [] v q = rw append-nil refl
  sent-each (u ∷ us) v q =
      let one = h u v q in
      sent-each us (body u v) one.quiet
      ∙ (rw (one.more, told-cons w p bytes u us) (append_assoc v.sent _ _))

-- Whoever hears the sender.
abbrev pub in_room_of : World → User → User → Bool
in_room_of w client u = room_id w u == room_id w client && not (u.id == client.id)

-- A chat message to the sender's room goes to everybody else in it whose session is alive, once
-- and in the order of the table, and then the sender gets the answer, if its session is alive.
pub chat_group-sent :
    (env : Env) (client : User) (message : List ℕ) (w : World)
    → (chat_group env client (room_id w client) message w).1.sent
      ≡ w.sent
        ++ (told w
              (in_room_of w client)
              (chat_packet env client.id (room_id w client) message)
              w.users
            ++ told w (λ u. true) (chat_reply env 0) (client ∷ []))
unfolding chat_group
chat_group-sent env client message w =
    let bytes = chat_packet env client.id (room_id w client) message in
    let body : User → World → World =
      λ u v. if hears client (room_id w client) v u then send u bytes v else v in
    let all = sent-each w (in_room_of w client) bytes body hears-Tells w.users w (Quiet-refl w) in
    let quiet : Quiet w (each body w.users w) =
      each-Quiet body (λ u v. if-Quiet _ v _ _ (send-Quiet u _ v) (Quiet-refl v)) w.users w in
    let answer = if-Tells w (λ u. true) (chat_reply env 0) client (each body w.users w) quiet in
    rw (==_refl (room_id w client)) (answer.more ∙ rw all (append_assoc w.sent _ _))
  where
    hears-Tells :
        (u : User) (v : World)
        → Quiet w v
        → Tells w (in_room_of w client) (chat_packet env client.id (room_id w client) message) u v (
            if hears client (room_id w client) v u
            then send u (chat_packet env client.id (room_id w client) message) v
            else v)
    hears-Tells u v q =
        subst
          (λ room_of.
            Tells w (in_room_of w client) (chat_packet env client.id (room_id w client) message) u v
              (if room_of u.session == room_id w client && not (u.id == client.id)
                then send u (chat_packet env client.id (room_id w client) message) v
                else v))
          (sym q.same_rooms_of) (if-Tells w (in_room_of w client) _ u v q)
