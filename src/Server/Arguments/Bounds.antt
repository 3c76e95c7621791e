-- ===== src/Server/Arguments/Bounds.antt =====
-- The bounds of the options that main.cpp starts the server with.
use worms2lobby_server_cpp.Base.{
  ℕ, zero, suc, ◌≤◌, ◌<◌, ◌^◌, arith, ltb, ◌==◌, Bool, true, false, if◌then◌else◌, Option, none,
  some, List, [], ◌∷◌, Option-cases, Bool-cases, inl, inr,
}
use worms2lobby_server_cpp.Server.Stoi.{
  ℤ, pos, negsuc, unsigned, positive, negative, signed, skip_spaces, stoi, to_u16, to_size,
}
use worms2lobby_server_cpp.Server.Arguments.{
  Options, Parsed, parsed, helped, threw, is_port, is_connections, is_threads, is_help, set_port,
  set_connections, set_threads, read_option, parse_pair, parse_arguments, defaults, Start, serves,
  exits, main,
}

-- An `int` of 32 bits.
abbrev pub IsInt : ℤ → Type 0
IsInt (pos n) = n < 2 ^ 31
IsInt (negsuc n) = n < 2 ^ 31

-- What is read, if anything is, is an `int`.
data Read {A : Type 0} (P : A → Type 0) : Option A → Type 0 where
  nothing : Read P none
  something : (a : A) → P a → Read P (some a)

if-Read :
    (b : Bool) (x y : Option ℤ) → Read IsInt x → Read IsInt y → Read IsInt (if b then x else y)
if-Read true x y p q = p
if-Read false x y p q = q

positive-IsInt : (cs : List ℕ) → Read IsInt (positive cs)
unfolding positive
positive-IsInt cs = elim (Option-cases (unsigned cs)) [
  | inl e ↦ rw (e, positive) nothing
  | inr (n, e) ↦
      rw (e, positive)
        (elim (Bool-cases (ltb n (2 ^ 31))) [
          | inl f ↦ rw f (something (pos n) (ground arith))
          | inr f ↦ rw f nothing
        ])
]

negative-IsInt : (cs : List ℕ) → Read IsInt (negative cs)
unfolding negative
negative-IsInt cs = elim (Option-cases (unsigned cs)) [
  | inl e ↦ rw (e, negative) nothing
  | inr (n, e) ↦ rw (e, negative) (minus n)
]
  where
    minus :
        (n : ℕ)
        → Read IsInt (elim n as (λ _. Option ℤ) [
          | zero ↦ some (pos 0)
          | suc n ↦ if ltb n (2 ^ 31) then some (negsuc n) else none
        ])
    minus zero = something (pos 0) (omega arith)
    minus (suc n) = elim (Bool-cases (ltb n (2 ^ 31))) [
      | inl f ↦ rw f (something (negsuc n) (ground arith))
      | inr f ↦ rw f nothing
    ]

signed-IsInt : (cs : List ℕ) → Read IsInt (signed cs)
unfolding signed
signed-IsInt [] = nothing
signed-IsInt (c ∷ cs) =
    if-Read (c == 45) _ _ (negative-IsInt cs)
      (if-Read (c == 43) _ _ (positive-IsInt cs) (positive-IsInt (c ∷ cs)))

stoi-IsInt : (text : List ℕ) → Read IsInt (stoi text)
unfolding stoi
stoi-IsInt text = signed-IsInt (skip_spaces text)

module _ (hardware : ℕ) where
  -- Options that a server can start with. There are no threads only where the number of the hardware
  -- is not known, and is 0.
  pub record Servable (o : Options) : Type 0 where
    pub port_low : 1024 < o.port
    pub port_high : o.port < 2 ^ 16
    pub connections_low : 1 ≤ o.max_connections
    pub connections_high : o.max_connections < 2 ^ 64
    pub threads_low : 1 ≤ hardware → 1 ≤ o.max_threads
    pub threads_high : o.max_threads ≤ hardware

  set_port-Servable : (z : ℤ) (o : Options) → IsInt z → Servable o → Servable (set_port z o)
  unfolding set_port to_u16
  set_port-Servable (pos n) o i h = record {
    port_low = ground arith;
    port_high = ground arith;
    connections_low = h.connections_low;
    connections_high = h.connections_high;
    threads_low = h.threads_low;
    threads_high = h.threads_high;
  }
  set_port-Servable (negsuc n) o i h = record {
    port_low = ground arith;
    port_high = ground arith;
    connections_low = h.connections_low;
    connections_high = h.connections_high;
    threads_low = h.threads_low;
    threads_high = h.threads_high;
  }

  set_connections-Servable :
      (z : ℤ) (o : Options) → IsInt z → Servable o → Servable (set_connections z o)
  unfolding set_connections to_size
  set_connections-Servable (pos n) o i h = record {
    port_low = h.port_low;
    port_high = h.port_high;
    connections_low = ground arith;
    connections_high = ground arith;
    threads_low = h.threads_low;
    threads_high = h.threads_high;
  }
  set_connections-Servable (negsuc n) o i h = record {
    port_low = h.port_low;
    port_high = h.port_high;
    connections_low = ground arith;
    connections_high = ground arith;
    threads_low = h.threads_low;
    threads_high = h.threads_high;
  }

  set_threads-Servable :
      (z : ℤ) (o : Options) → IsInt z → Servable o → Servable (set_threads hardware z o)
  unfolding set_threads
  set_threads-Servable z o i h = record {
    port_low = h.port_low;
    port_high = h.port_high;
    connections_low = h.connections_low;
    connections_high = h.connections_high;
    threads_low = λ l. ground arith;
    threads_high = ground arith;
  }

  read_option-Servable :
      (applies : Bool) (set : ℤ → Options → Options) (value : List ℕ) (o : Options)
      → ((z : ℤ) (o : Options) → IsInt z → Servable o → Servable (set z o))
      → Servable o
      → Read Servable (read_option applies set value o)
  unfolding read_option
  read_option-Servable false set value o k h = something o h
  read_option-Servable true set value o k h = given (stoi value) (stoi-IsInt value)
    where
      given :
          (r : Option ℤ)
          → Read IsInt r
          → Read Servable
              (elim r as (λ _. Option Options) [ none ↦ none | some n ↦ some (set n o) ])
      given none i = nothing
      given (some z) (something _ i) = something (set z o) (k z o i h)

  -- The next reading, of the options that one reading leaves.
  then-Servable :
      (r : Option Options) (next : Options → Option Options)
      → Read Servable r
      → ((o : Options) → Servable o → Read Servable (next o))
      → Read Servable (elim r as (λ _. Option Options) [ none ↦ none | some o ↦ next o ])
  then-Servable none next h k = nothing
  then-Servable (some o) next (something _ h) k = k o h

  parse_pair-Servable :
      (arg value : List ℕ) (o : Options)
      → Servable o
      → Read Servable (parse_pair hardware arg value o)
  unfolding parse_pair
  parse_pair-Servable arg value o h =
      then-Servable _ _ (read_option-Servable (is_port arg) set_port value o set_port-Servable h)
        (λ o h.
          then-Servable _ _
            (read_option-Servable (is_connections arg) set_connections value o
              set_connections-Servable h)
            (λ o h.
              read_option-Servable (is_threads arg) (set_threads hardware) value o
                set_threads-Servable h))

  data Ends : Parsed → Type 0 where
    with_options : (o : Options) → Servable o → Ends (parsed o)
    with_help : Ends helped
    with_exception : Ends threw

  parse_arguments-Ends :
      (args : List (List ℕ)) (o : Options) → Servable o → Ends (parse_arguments hardware args o)
  unfolding parse_arguments
  parse_arguments-Ends [] o h = with_options o h
  parse_arguments-Ends (arg ∷ []) o h = with_options o h
  parse_arguments-Ends (arg ∷ value ∷ args) o h =
      read (parse_pair hardware arg value o) (parse_pair-Servable arg value o h) (is_help arg)
        (λ o' h'. parse_arguments-Ends (value ∷ args) o' h')
    where
      read :
          (r : Option Options)
          → Read Servable r
          → (b : Bool)
          → ((o' : Options) → Servable o' → Ends (parse_arguments hardware (value ∷ args) o'))
          → Ends (elim r as (λ _. Parsed) [
            | none ↦ threw
            | some o' ↦ elim b as (λ _. Parsed) [
              | true ↦ helped
              | false ↦ parse_arguments hardware (value ∷ args) o'
            ]
          ])
      read none i b k = with_exception
      read (some o') i true k = with_help
      read (some o') (something _ h') false k = k o' h'

  -- The program serves with options in their bounds, or ends with 0 or 1.
  pub data Started : Start → Type 0 where
    in_bounds : (o : Options) → Servable o → Started (serves o)
    at_once : (code : ℕ) → code ≤ 1 → Started (exits code)

  -- Whatever the arguments are, the program ends at once with 0 or 1, or serves on a port above
  -- 1024 and below 65536, with at least one and less than 2 ^ 64 connections and with no more
  -- threads than the hardware has, and at least one where the hardware has one.
  pub main-Started : (args : List (List ℕ)) → Started (main hardware args)
  unfolding main
  main-Started args = start _ (parse_arguments-Ends args (defaults hardware) first)
    where
      first : Servable (defaults hardware)
      first = record {
        port_low = omega arith;
        port_high = omega arith;
        connections_low = omega arith;
        connections_high = omega arith;
        threads_low = λ l. l;
        threads_high = omega arith;
      }

      start :
          (r : Parsed)
          → Ends r
          → Started
              (elim r as (λ _. Start) [ parsed o ↦ serves o | helped ↦ exits 0 | threw ↦ exits 1 ])
      start (parsed o) (with_options _ h) = in_bounds o h
      start helped e = at_once 0 (omega arith)
      start threw e = at_once 1 (omega arith)
