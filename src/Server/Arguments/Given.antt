-- ===== src/Server/Arguments/Given.antt =====
-- The options that main.cpp reads off its arguments.
use worms2lobby_server_cpp.Base.{
  ℕ, suc, ◌-◌, ◌%◌, ◌≤◌, ◌<◌, ◌^◌, ◌≡◌, ◌∙◌, refl, ap, arith, leb, ltb, str_eq, Bool, true, false,
  if◌then◌else◌, some, All, List, [], ◌∷◌,
}
use worms2lobby_server_cpp.Base.Literals.{codes}
use worms2lobby_server_cpp.Server.Stoi.{pos, negsuc, to_u16, to_size}
use worms2lobby_server_cpp.Server.Arguments.{
  Options, parsed, is_port, is_connections, is_threads, is_help, set_port, set_connections,
  set_threads, parse_pair, parse_arguments, defaults, serves, main,
}
use worms2lobby_server_cpp.Server.Arguments.Reads.{
  IsPlain, decimal-IsPlain, option_skipped, option_taken, option_read, parse_pair_from, pair_read,
  plain_skipped,
}
use worms2lobby_server_cpp.Server.Arguments.Decimal.{decimal, stoi-minus}

-- An option with its number, by its long name or its short one.
pub data Setting : Type 0 where
  port connections threads : Bool → ℕ → Setting

abbrev pub spelled : Bool → List ℕ → List ℕ → List ℕ
spelled long short_name long_name = if long then long_name else short_name

abbrev pub arguments : List Setting → List (List ℕ)
arguments [] = []
arguments (port long n ∷ settings) =
    spelled long (codes "-p") (codes "--port") ∷ decimal n ∷ arguments settings
arguments (connections long n ∷ settings) =
    spelled long (codes "-c") (codes "--connections") ∷ decimal n ∷ arguments settings
arguments (threads long n ∷ settings) =
    spelled long (codes "-t") (codes "--threads") ∷ decimal n ∷ arguments settings

-- The bounds within which a number is taken as it is.
abbrev pub IsInBounds : ℕ → Setting → Type 0
IsInBounds hardware (port long n) = (1024 < n) × (n < 2 ^ 16)
IsInBounds hardware (connections long n) = (1 ≤ n) × (n < 2 ^ 31)
IsInBounds hardware (threads long n) = (1 ≤ n) × (n ≤ hardware) × (n < 2 ^ 31)

-- The settings in their order, so that the last one of an option counts.
abbrev pub settled : List Setting → Options → Options
settled [] o = o
settled (port long n ∷ settings) o = settled settings (record o { port = n })
settled (connections long n ∷ settings) o = settled settings (record o { max_connections = n })
settled (threads long n ∷ settings) o = settled settings (record o { max_threads = n })

-- Which option an argument is.
record IsName (arg : List ℕ) (for_port for_connections for_threads : Bool) : Type 0 where
  of_port : is_port arg ≡ for_port
  of_connections : is_connections arg ≡ for_connections
  of_threads : is_threads arg ≡ for_threads
  no_help : is_help arg ≡ false

port-IsName : (long : Bool) → IsName (spelled long (codes "-p") (codes "--port")) true false false
unfolding str_eq is_port is_connections is_threads is_help
port-IsName true = record {
  of_port = refl;
  of_connections = refl;
  of_threads = refl;
  no_help = refl;
}
port-IsName false = record {
  of_port = refl;
  of_connections = refl;
  of_threads = refl;
  no_help = refl;
}

connections-IsName :
    (long : Bool) → IsName (spelled long (codes "-c") (codes "--connections")) false true false
unfolding str_eq is_port is_connections is_threads is_help
connections-IsName true = record {
  of_port = refl;
  of_connections = refl;
  of_threads = refl;
  no_help = refl;
}
connections-IsName false = record {
  of_port = refl;
  of_connections = refl;
  of_threads = refl;
  no_help = refl;
}

threads-IsName :
    (long : Bool) → IsName (spelled long (codes "-t") (codes "--threads")) false false true
unfolding str_eq is_port is_connections is_threads is_help
threads-IsName true = record {
  of_port = refl;
  of_connections = refl;
  of_threads = refl;
  no_help = refl;
}
threads-IsName false = record {
  of_port = refl;
  of_connections = refl;
  of_threads = refl;
  no_help = refl;
}

module _ (hardware : ℕ) where
  port_read :
      (arg : List ℕ) (n : ℕ) (o : Options)
      → IsName arg true false false
      → 1024 < n
      → n < 2 ^ 16
      → parse_pair hardware arg (decimal n) o ≡ some (record o { port = n })
  unfolding set_port to_u16
  port_read arg n o i l h =
      let same : set_port (pos n) o ≡ record o { port = n } =
        let m : n % 2 ^ 16 ≡ n = omega arith in
        let low : leb n 1024 ≡ false = ground arith in rw (m, low) refl in
      parse_pair_from hardware arg (decimal n) o _ _
        (option_read (is_port arg) set_port n o i.of_port (omega arith))
        (option_skipped (is_connections arg) set_connections (decimal n) _ i.of_connections)
      ∙ option_skipped (is_threads arg) (set_threads hardware) (decimal n) _ i.of_threads
      ∙ ap some same

  connections_read :
      (arg : List ℕ) (n : ℕ) (o : Options)
      → IsName arg false true false
      → 1 ≤ n
      → n < 2 ^ 31
      → parse_pair hardware arg (decimal n) o ≡ some (record o { max_connections = n })
  unfolding set_connections to_size
  connections_read arg n o i l h =
      let same : set_connections (pos n) o ≡ record o { max_connections = n } =
        let low : ltb n 1 ≡ false = ground arith in rw low refl in
      parse_pair_from hardware arg (decimal n) o _ _
        (option_skipped (is_port arg) set_port (decimal n) o i.of_port)
        (option_read (is_connections arg) set_connections n o i.of_connections h)
      ∙ option_skipped (is_threads arg) (set_threads hardware) (decimal n) _ i.of_threads
      ∙ ap some same

  threads_read :
      (arg : List ℕ) (n : ℕ) (o : Options)
      → IsName arg false false true
      → 1 ≤ n
      → n ≤ hardware
      → n < 2 ^ 31
      → parse_pair hardware arg (decimal n) o ≡ some (record o { max_threads = n })
  unfolding set_threads to_size
  threads_read arg n o i l k h =
      let same : set_threads hardware (pos n) o ≡ record o { max_threads = n } =
        let low : ltb n 1 ≡ false = ground arith in
        let high : ltb hardware n ≡ false = ground arith in rw (low, high) refl in
      parse_pair_from hardware arg (decimal n) o _ _
        (option_skipped (is_port arg) set_port (decimal n) o i.of_port)
        (option_skipped (is_connections arg) set_connections (decimal n) _ i.of_connections)
      ∙ option_read (is_threads arg) (set_threads hardware) n _ i.of_threads h
      ∙ ap some same

  serves_parsed :
      (args : List (List ℕ)) (o : Options)
      → parse_arguments hardware args (defaults hardware) ≡ parsed o
      → main hardware args ≡ serves o
  unfolding main
  serves_parsed args o e = rw (e, main) refl

  only_one : (arg : List ℕ) (o : Options) → parse_arguments hardware (arg ∷ []) o ≡ parsed o
  unfolding parse_arguments
  only_one arg o = refl

  -- Settings behind an argument that is no option.
  settings_read :
      (before : List ℕ) (settings : List Setting) (o : Options)
      → IsPlain before
      → All (IsInBounds hardware) settings
      → parse_arguments hardware (before ∷ arguments settings) o ≡ parsed (settled settings o)
  settings_read before [] o p h = only_one before o
  settings_read before (port long n ∷ settings) o p ((l, u), hs) =
      let i = port-IsName long in
      plain_skipped hardware before _ _ o p
      ∙ pair_read hardware _ (decimal n) _ o _ (port_read _ n o i l u) i.no_help
      ∙ settings_read (decimal n) settings _ (decimal-IsPlain n) hs
  settings_read before (connections long n ∷ settings) o p ((l, u), hs) =
      let i = connections-IsName long in
      plain_skipped hardware before _ _ o p
      ∙ pair_read hardware _ (decimal n) _ o _ (connections_read _ n o i l u) i.no_help
      ∙ settings_read (decimal n) settings _ (decimal-IsPlain n) hs
  settings_read before (threads long n ∷ settings) o p ((l, k, u), hs) =
      let i = threads-IsName long in
      plain_skipped hardware before _ _ o p
      ∙ pair_read hardware _ (decimal n) _ o _ (threads_read _ n o i l k u) i.no_help
      ∙ settings_read (decimal n) settings _ (decimal-IsPlain n) hs

  -- Any settings of the three options, each by its short or its long name, in any order and
  -- number, with decimal numbers in their bounds, are what the program serves with: the last
  -- setting of an option counts, and one that is not set has its default, where the program's name
  -- is no option.
  pub main-options :
      (program : List ℕ) (settings : List Setting)
      → IsPlain program
      → All (IsInBounds hardware) settings
      → main hardware (program ∷ arguments settings)
        ≡ serves (
            settled settings
              (record { port = 17000; max_connections = 10000; max_threads = hardware }))
  main-options program settings p h =
      serves_parsed _ _ (settings_read program settings (defaults hardware) p h)

  minus_read :
      (n : ℕ) (o : Options)
      → n < 2 ^ 31
      → parse_pair hardware (codes "-c") (45 ∷ decimal (suc n)) o
        ≡ some (record o { max_connections = 2 ^ 64 - 1 - n })
  unfolding str_eq is_port is_connections is_threads set_connections to_size
  minus_read n o h =
      let same : set_connections (negsuc n) o ≡ record o { max_connections = 2 ^ 64 - 1 - n } =
        let low : ltb (2 ^ 64 - 1 - n) 1 ≡ false = ground arith in rw low refl in
      parse_pair_from hardware (codes "-c") (45 ∷ decimal (suc n)) o _ _
        (option_skipped false set_port _ o refl)
        (option_taken true set_connections _ (negsuc n) o refl (stoi-minus n h))
      ∙ option_skipped false (set_threads hardware) _ _ refl
      ∙ ap some same

  -- A negative number of connections gets no default: the program serves with 2 ^ 64 less its size
  -- as the limit, where the program's name is no option.
  pub main-minus :
      (program : List ℕ) (n : ℕ)
      → IsPlain program
      → n < 2 ^ 31
      → main hardware (program ∷ codes "-c" ∷ (45 ∷ decimal (suc n)) ∷ [])
        ≡ serves (record { port = 17000; max_connections = 2 ^ 64 - 1 - n; max_threads = hardware })
  main-minus program n p h = serves_parsed _ _ (
      plain_skipped hardware program (codes "-c") _ (defaults hardware) p
      ∙ pair_read hardware (codes "-c") (45 ∷ decimal (suc n)) _ _ _ (minus_read n _ h)
          (connections-IsName false).no_help
      ∙ only_one (45 ∷ decimal (suc n)) _)
