-- ===== src/Tests/ServerRuns.antt =====
-- The command line and the listener on concrete inputs.
use worms2lobby_server_cpp.Base.{
  ℕ, ◌-◌, ◌^◌, ◌≤◌, ◌≡◌, refl, arith, true, false, str_eq, List, [], ◌∷◌,
}
use worms2lobby_server_cpp.Base.Literals.{codes}
use worms2lobby_server_cpp.Server.Arguments.{
  is_port, is_connections, is_threads, is_help, serves, main,
}
use worms2lobby_server_cpp.Server.Arguments.Decimal.{decimal}
use worms2lobby_server_cpp.Server.Arguments.Bounds.{Started, main-Started}
use worms2lobby_server_cpp.Server.Arguments.Reads.{IsPlain}
use worms2lobby_server_cpp.Server.Arguments.Given.{
  Setting, port, connections, threads, arguments, main-options, main-minus,
}
use worms2lobby_server_cpp.Server.Listener.{
  Server, new_server, socket, open_acceptor, on_accept, loop, open_session, admit_client, run_calls,
}
use worms2lobby_server_cpp.Server.Listener.Limit.{
  opens, accepts, admits, Reachable, starts, goes_on,
}
use worms2lobby_server_cpp.Server.Listener.Threads.{run_calls-main}

abbrev program : List ℕ
program = codes "worms_server"

program-IsPlain : IsPlain program
unfolding str_eq is_port is_connections is_threads is_help
program-IsPlain = record {
  no_port = refl;
  no_connections = refl;
  no_threads = refl;
  no_help = refl;
}

abbrev port_arguments : List (List ℕ)
port_arguments = program ∷ codes "-p" ∷ codes "18000" ∷ []

main-Started_example : Started 8 (main 8 port_arguments)
main-Started_example = main-Started 8 port_arguments

-- Both spellings, and a port that is given twice.
abbrev sample_settings : List Setting
sample_settings = port false 18000 ∷ threads true 4 ∷ connections true 50 ∷ port true 18001 ∷ []

main-options_example :
    main 8 (
      program
      ∷ codes "-p"
      ∷ decimal 18000
      ∷ codes "--threads"
      ∷ decimal 4
      ∷ codes "--connections"
      ∷ decimal 50
      ∷ codes "--port"
      ∷ decimal 18001
      ∷ [])
    ≡ serves (record { port = 18001; max_connections = 50; max_threads = 4 })
main-options_example = main-options 8 program sample_settings program-IsPlain (
  (omega arith, omega arith),
  (
    (omega arith, omega arith, omega arith),
    ((omega arith, omega arith), ((omega arith, omega arith), tt)),
  ),
)

main-minus_example :
    main 8 (program ∷ codes "-c" ∷ (45 ∷ decimal 1) ∷ [])
    ≡ serves (record { port = 17000; max_connections = 2 ^ 64 - 1 - 0; max_threads = 8 })
main-minus_example = main-minus 8 program 0 program-IsPlain (omega arith)

abbrev threads_settings : List Setting
threads_settings = threads false 4 ∷ []

threads_served :
    main 8 (program ∷ arguments threads_settings)
    ≡ serves (record { port = 17000; max_connections = 10000; max_threads = 4 })
threads_served =
    main-options 8 program threads_settings program-IsPlain
      ((omega arith, omega arith, omega arith), tt)

run_calls-main_example :
    (1 ≤ 8 → (run_calls 4 ≡ 4) × (1 ≤ 4) × (4 ≤ 8)) × (◌≡◌ {A = ℕ} 8 0 → run_calls 4 ≡ 2 ^ 64)
run_calls-main_example =
    run_calls-main 8 (program ∷ arguments threads_settings)
      (record { port = 17000; max_connections = 10000; max_threads = 4 }) (omega arith)
      threads_served

-- A server for one client, who is there, and another one who is refused.
abbrev opened : Server
opened = open_acceptor true (new_server 1)

abbrev served : Server
served = admit_client (on_accept socket opened)

full : Reachable 1 (on_accept socket served, 1)
unfolding new_server open_acceptor on_accept loop admit_client open_session
full =
    goes_on
      (goes_on
        (goes_on (goes_on starts (opens true (new_server 1) 0 refl)) (accepts socket opened 0 refl))
        (admits (on_accept socket opened) 0 refl))
      (accepts socket served 1 refl)
