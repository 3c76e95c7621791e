-- ===== src/Lobby/Connection/Serve.antt =====
-- `UserSession::handleSession` of src/user_session.cpp on a stream of packets that TCP may cut
-- anywhere.
use worms2lobby_server_cpp.Base.{
  ℕ, suc, ◌≤◌, ◌≡◌, refl, subst, arith, true, false, List, [], ◌∷◌, ◌++◌, length,
}
use worms2lobby_server_cpp.Packet.Io.{complete, partial}
use worms2lobby_server_cpp.Packet.Fields.{WormsPacket}
use worms2lobby_server_cpp.Packet.Read.{read_from}
use worms2lobby_server_cpp.Packet.Stream.{read_from-Steady}
use worms2lobby_server_cpp.Packet.Steady.{Extended}
use worms2lobby_server_cpp.Packet.Rules.{need_few}
use worms2lobby_server_cpp.Lobby.Entities.{User}
use worms2lobby_server_cpp.Lobby.World.{Env, World, returned, threw}
use worms2lobby_server_cpp.Lobby.Handler.Dispatch.{handle_packet}
use worms2lobby_server_cpp.Lobby.Connection.{
  FramedReader, Turn, waits, ends, fails, handle_buffered,
}
use worms2lobby_server_cpp.Lobby.Connection.Turns.{turn_partial}

-- The packets one after the other, with no bytes between them.
unfoldable pub serve : Env → User → List WormsPacket → World → Turn × World
serve env client [] w = (waits, w)
serve env client (p ∷ ps) w =
    let (outcome, w') = handle_packet env client p w in
    elim outcome [
      | returned true ↦ serve env client ps w'
      | returned false ↦ (ends, w')
      | threw ↦ (fails, w')
    ]

-- A packet and bytes that are read as it.
pub record Frame (env : Env) : Type 0 where
  pub wire : List ℕ
  pub packet : WormsPacket
  pub reads : read_from env.io env.settings wire ≡ complete packet []

abbrev pub wires : {env : Env} → List (Frame env) → List ℕ
wires [] = []
wires (f ∷ fs) = f.wire ++ wires fs

abbrev pub packets : {env : Env} → List (Frame env) → List WormsPacket
packets [] = []
packets (f ∷ fs) = f.packet ∷ packets fs

abbrev pub joined : List (List ℕ) → List ℕ
joined [] = []
joined (c ∷ cs) = c ++ joined cs

-- Two ways to cut one list.
pub append_split :
    (s t a b : List ℕ)
    → s ++ t ≡ a ++ b
    → length a ≤ length s
    → (u : List ℕ) × (s ≡ a ++ u) × (u ++ t ≡ b)
append_split s t [] b e h = (s, refl, e)
append_split [] t (x ∷ a) b e h = absurd (omega arith)
append_split (y ∷ s) t (x ∷ a) b e h =
    let (u, f, g) = append_split s t a b (cc) (omega arith) in
    let same : y ≡ x = cc in (u, rw (same, f) refl, g)

pub nil_of_append : (s t : List ℕ) → s ++ t ≡ [] → s ≡ []
nil_of_append [] t e = refl
nil_of_append (x ∷ s) t e = cc

module _ (env : Env) where
  pub read_nil : read_from env.io env.settings [] ≡ partial
  unfolding read_from
  read_nil = rw (need_few env.io 8 [] (omega arith)) refl

  pub read_more :
      (f : Frame env) (u : List ℕ)
      → read_from env.io env.settings (f.wire ++ u) ≡ complete f.packet u
  read_more f u =
      (subst (λ r. Extended 8 f.wire u r (read_from env.io env.settings (f.wire ++ u))) f.reads
        (read_from-Steady env.io env.settings f.wire u (omega arith))).0

  module _ (client : User) (p : WormsPacket) (ps : List WormsPacket) (w : World) where
    pub serve_served :
        (handle_packet env client p w).0 ≡ returned true
        → serve env client (p ∷ ps) w ≡ serve env client ps (handle_packet env client p w).1
    unfolding serve
    serve_served h = rw (h, serve) refl

    pub serve_refused :
        (handle_packet env client p w).0 ≡ returned false
        → serve env client (p ∷ ps) w ≡ (ends, (handle_packet env client p w).1)
    unfolding serve
    serve_refused h = rw (h, serve) refl

    pub serve_threw :
        (handle_packet env client p w).0 ≡ threw
        → serve env client (p ∷ ps) w ≡ (fails, (handle_packet env client p w).1)
    unfolding serve
    serve_threw h = rw (h, serve) refl

module _ (env : Env) (reader : FramedReader (read_from env.io env.settings)) (client : User)
    (t : List ℕ) where
  open reader use {State, start, append, try_read_packet, buffered}

  -- What the loop over the buffer makes of the frames `fs`, of which the bytes `t` are still to come.
  pub data Turned (fs : List (Frame env)) (w : World) (r : Turn × State × World) : Type 0 where
    still :
        (gs : List (Frame env))
        → r.0 ≡ waits
        → buffered r.1 ++ t ≡ wires gs
        → read_from env.io env.settings (buffered r.1) ≡ partial
        → serve env client (packets fs) w ≡ serve env client (packets gs) r.2
        → Turned fs w r
    over : r.0 ≡ ends → serve env client (packets fs) w ≡ (ends, r.2) → Turned fs w r
    broke : r.0 ≡ fails → serve env client (packets fs) w ≡ (fails, r.2) → Turned fs w r

  -- The buffer holds the start of a packet.
  pub still_partial :
      (fuel : ℕ) (fs : List (Frame env)) (s : State) (w : World)
      → buffered s ++ t ≡ wires fs
      → read_from env.io env.settings (buffered s) ≡ partial
      → Turned fs w (handle_buffered env reader (suc fuel) client s w)
  still_partial fuel fs s w e h =
      rw (turn_partial env reader fuel client s w h)
        (let same = (reader.partial_lem s h).1 in still fs refl (rw same e) (rw same h) refl)
