-- ===== src/Server/Listener/Limit.antt =====
-- The limit of connections of src/server.cpp, over the steps of the listener and the sessions in any
-- order.
use worms2lobby_server_cpp.Base.{
  ℕ, suc, ◌+◌, ◌≤◌, ◌<◌, ◌≡◌, refl, subst, arith, leb, Bool, true, false, Bool-cases, inl, inr,
}
use worms2lobby_server_cpp.Lobby.Database.{u32}
use worms2lobby_server_cpp.Server.Listener.{
  Position, idle, accepting, admitting, left, Server, new_server, Accept, socket, aborted, failed,
  loop, open_acceptor, on_accept, open_session, close_session, admit_client, fail, stop,
}

-- One step of the listener, of one of the sessions that are alive, or of the signal handler. The
-- number is that of the sessions.
pub data Step : Server × ℕ → Server × ℕ → Type 0 where
  opens : (b : Bool) (s : Server) (n : ℕ) → s.position ≡ idle → Step (s, n) (open_acceptor b s, n)
  accepts :
      (a : Accept) (s : Server) (n : ℕ) → s.position ≡ accepting → Step (s, n) (on_accept a s, n)
  admits : (s : Server) (n : ℕ) → s.position ≡ admitting → Step (s, n) (admit_client s, suc n)
  fails : (s : Server) (n : ℕ) → s.position ≡ admitting → Step (s, n) (fail s, n)
  closes : (s : Server) (n : ℕ) → Step (s, suc n) (close_session s, n)
  stops : (s : Server) (n : ℕ) → Step (s, n) (stop s, n)

pub data Reachable (max : ℕ) : Server × ℕ → Type 0 where
  starts : Reachable max (new_server max, 0)
  goes_on : {r r' : Server × ℕ} → Reachable max r → Step r r' → Reachable max r'

abbrev pub pending : Position → ℕ
pending idle = 0
pending accepting = 0
pending admitting = 1
pending left = 0

-- The count is that of the sessions, which are no more than the limit, the one that is being admitted
-- included.
pub record IsWithin (max : ℕ) (r : Server × ℕ) : Type 0 where
  pub same_limit : r.0.max_connections ≡ max
  pub counted : r.0.connection_count ≡ r.1
  pub limited : r.1 + pending r.0.position ≤ max

module _ (max : ℕ) where
  -- Back at the loop, or at the end, nobody is being admitted.
  loop-IsWithin :
      (s : Server) (n : ℕ)
      → s.max_connections ≡ max
      → s.connection_count ≡ n
      → n ≤ max
      → IsWithin max (loop s, n)
  unfolding loop
  loop-IsWithin s n e f b = elim (Bool-cases s.is_running) [
    | inl h ↦ rw h (record { same_limit = e; counted = f; limited = omega arith })
    | inr h ↦ rw h (record { same_limit = e; counted = f; limited = omega arith })
  ]

  over-IsWithin :
      (s : Server) (n : ℕ) → IsWithin max (s, n) → IsWithin max (record s { position = left }, n)
  over-IsWithin s n i = record {
    same_limit = i.same_limit;
    counted = i.counted;
    limited = omega (arith, i.limited);
  }

  accept-IsWithin :
      (a : Accept) (s : Server) (n : ℕ) → IsWithin max (s, n) → IsWithin max (on_accept a s, n)
  unfolding on_accept
  accept-IsWithin socket s n i = elim (Bool-cases (leb s.max_connections s.connection_count)) [
    | inl h ↦ rw h (loop-IsWithin s n i.same_limit i.counted (omega (arith, i.limited)))
    | inr h ↦
        let b : n < max = ground (arith, i.same_limit, i.counted) in
        rw h (record { same_limit = i.same_limit; counted = i.counted; limited = omega arith })
  ]
  accept-IsWithin aborted s n i =
      loop-IsWithin s n i.same_limit i.counted (omega (arith, i.limited))
  accept-IsWithin failed s n i =
      loop-IsWithin (record s { is_running = false }) n i.same_limit i.counted
        (omega (arith, i.limited))

  module _ (low : max < u32) where
    pub Step-IsWithin : {r r' : Server × ℕ} → Step r r' → IsWithin max r → IsWithin max r'
    unfolding open_acceptor admit_client open_session close_session fail stop
    Step-IsWithin (opens true s n p) i =
        loop-IsWithin (record s { is_running = true }) n i.same_limit i.counted
          (omega (arith, i.limited))
    Step-IsWithin (opens false s n p) i = over-IsWithin s n i
    Step-IsWithin (accepts a s n p) i = accept-IsWithin a s n i
    Step-IsWithin (admits s n p) i =
        let room : n + 1 ≤ max = subst (λ q. n + pending q ≤ max) p i.limited in
        loop-IsWithin (open_session s) (suc n) i.same_limit (omega (arith, i.counted)) (omega arith)
    Step-IsWithin (fails s n p) i = over-IsWithin s n i
    Step-IsWithin (closes s n) i = record {
      same_limit = i.same_limit;
      counted = omega (arith, i.counted, i.limited);
      limited = omega (arith, i.limited);
    }
    Step-IsWithin (stops s n) i = record {
      same_limit = i.same_limit;
      counted = i.counted;
      limited = i.limited;
    }

    -- Whatever the listener, the sessions and the signals do, in any order, the count is that of
    -- the sessions, which with the one that is being admitted are never more than the limit, where
    -- that is a number of 32 bits.
    pub Reachable-IsWithin : {r : Server × ℕ} → Reachable max r → IsWithin max r
    unfolding new_server
    Reachable-IsWithin starts = record { same_limit = refl; counted = refl; limited = omega arith }
    Reachable-IsWithin (goes_on h s) = Step-IsWithin s (Reachable-IsWithin h)
