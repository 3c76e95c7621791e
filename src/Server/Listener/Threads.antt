-- ===== src/Server/Listener/Threads.antt =====
-- The threads of `Server::run` of src/server.cpp, for the arguments of main.cpp.
use worms2lobby_server_cpp.Base.{ℕ, ◌^◌, ◌≤◌, ◌<◌, ◌≡◌, subst, arith, List}
use worms2lobby_server_cpp.Server.Arguments.{Options, serves, main}
use worms2lobby_server_cpp.Server.Arguments.Bounds.{Servable, Started, in_bounds, main-Started}
use worms2lobby_server_cpp.Server.Listener.{run_calls}

-- Options that the program serves with are in their bounds.
served : {hardware : ℕ} {o : Options} → Started hardware (serves o) → Servable hardware o
served (in_bounds _ h) = h

-- Where the number of the hardware's threads is known, the server makes as many calls of the run
-- loop as the options have threads, one at least and not more than the hardware; where it is 0, it
-- makes 2 ^ 64 calls, whatever the arguments are.
pub run_calls-main :
    (hardware : ℕ) (args : List (List ℕ)) (o : Options)
    → hardware < 2 ^ 32
    → main hardware args ≡ serves o
    → (1 ≤ hardware
        → (run_calls o.max_threads ≡ o.max_threads)
          × (1 ≤ o.max_threads)
          × (o.max_threads ≤ hardware))
      × (hardware ≡ 0 → run_calls o.max_threads ≡ 2 ^ 64)
unfolding run_calls
run_calls-main hardware args o b e =
    let h = served (subst (λ s. Started hardware s) e (main-Started hardware args)) in
    (
      λ k. (
        let l = h.threads_low k in omega (arith, h.threads_high),
        h.threads_low k,
        h.threads_high,
      ),
      λ k. omega (arith, h.threads_high),
    )
