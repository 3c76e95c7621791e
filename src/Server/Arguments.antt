-- ===== src/Server/Arguments.antt =====
-- `ParseCommandLineArguments` and `main` of main.cpp, but for the messages.
pub mod Bounds
pub mod Decimal
pub mod Reads
pub mod Given
use worms2lobby_server_cpp.Base.{
  ℕ, zero, suc, leb, ltb, ◌==◌, str_eq, Bool, true, false, ◌||◌, if◌then◌else◌, Option, none, some,
  List, [], ◌∷◌,
}
use worms2lobby_server_cpp.Base.Literals.{codes}
use worms2lobby_server_cpp.Server.Stoi.{ℤ, stoi, to_u16, to_size}

pub record Options : Type 0 where
  pub port : ℕ
  pub max_connections : ℕ
  pub max_threads : ℕ

-- How the parsing ends: with the options, with the text of help, or by an exception.
pub data Parsed : Type 0 where
  parsed : Options → Parsed
  helped : Parsed
  threw : Parsed

abbrev pub is_option : List ℕ → List ℕ → List ℕ → Bool
is_option short long arg = str_eq arg short || str_eq arg long

unfoldable pub is_port : List ℕ → Bool
is_port = is_option (codes "-p") (codes "--port")

unfoldable pub is_connections : List ℕ → Bool
is_connections = is_option (codes "-c") (codes "--connections")

unfoldable pub is_threads : List ℕ → Bool
is_threads = is_option (codes "-t") (codes "--threads")

unfoldable pub is_help : List ℕ → Bool
is_help = is_option (codes "-h") (codes "--help")

unfoldable pub set_port : ℤ → Options → Options
set_port n o = let port = to_u16 n in record o { port = if leb port 1024 then 17000 else port }

unfoldable pub set_connections : ℤ → Options → Options
set_connections n o =
    let count = to_size n in record o { max_connections = if ltb count 1 then 1000 else count }

unfoldable pub set_threads : ℕ → ℤ → Options → Options
set_threads hardware n o =
    let count = to_size n in
    record o {
      max_threads =
          if ltb count 1 then hardware else if ltb hardware count then hardware else count;
    }

-- One of the three options with a number.
unfoldable pub read_option : Bool → (ℤ → Options → Options) → List ℕ → Options → Option Options
read_option applies set value o =
    if applies then elim (stoi value) [ none ↦ none | some n ↦ some (set n o) ] else some o

-- The body of the loop, for an argument and the one after it.
unfoldable pub parse_pair : ℕ → List ℕ → List ℕ → Options → Option Options
unfolding read_option set_port set_connections set_threads
parse_pair hardware arg value o = elim (read_option (is_port arg) set_port value o) [
  | none ↦ none
  | some o ↦ elim (read_option (is_connections arg) set_connections value o) [
    | none ↦ none
    | some o ↦ read_option (is_threads arg) (set_threads hardware) value o
  ]
]

-- The loop over the pairs of neighbours, `std::ranges::slide_view(args, 2)`.
unfoldable pub parse_arguments : ℕ → List (List ℕ) → Options → Parsed
unfolding parse_pair
parse_arguments hardware [] o = parsed o
parse_arguments hardware (arg ∷ []) o = parsed o
parse_arguments hardware (arg ∷ value ∷ args) o = elim (parse_pair hardware arg value o) [
  | none ↦ threw
  | some o' ↦ elim (is_help arg) [
    | true ↦ helped
    | false ↦ parse_arguments hardware (value ∷ args) o'
  ]
]

-- The options at the start of `main`.
abbrev pub defaults : ℕ → Options
defaults hardware = record { port = 17000; max_connections = 10000; max_threads = hardware }

-- What `main` does: it serves, or ends with an exit code.
pub data Start : Type 0 where
  serves : Options → Start
  exits : ℕ → Start

unfoldable pub main : ℕ → List (List ℕ) → Start
unfolding parse_arguments
main hardware args = elim (parse_arguments hardware args (defaults hardware)) [
  | parsed o ↦ serves o
  | helped ↦ exits 0
  | threw ↦ exits 1
]
