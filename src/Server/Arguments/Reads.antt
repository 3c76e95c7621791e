-- ===== src/Server/Arguments/Reads.antt =====
-- What main.cpp makes of its arguments.
use worms2lobby_server_cpp.Base.{
  ℕ, ◌<◌, ◌^◌, ◌≡◌, ◌∙◌, refl, arith, ◌==◌, str_eq, Bool, true, false, some, List, [], ◌∷◌, ◌++◌,
  Option-cases, inl, inr,
}
use worms2lobby_server_cpp.Server.Stoi.{ℤ, pos, is_digit, stoi}
use worms2lobby_server_cpp.Server.Arguments.{
  Options, Parsed, helped, is_port, is_connections, is_threads, is_help, set_port, set_connections,
  set_threads, read_option, parse_pair, parse_arguments,
}
use worms2lobby_server_cpp.Server.Arguments.Decimal.{Digits, decimal, decimal-Digits, stoi-decimal}

-- An argument that is no option.
pub record IsPlain (arg : List ℕ) : Type 0 where
  pub no_port : is_port arg ≡ false
  pub no_connections : is_connections arg ≡ false
  pub no_threads : is_threads arg ≡ false
  pub no_help : is_help arg ≡ false

IsPlain-digit : (c : ℕ) (cs : List ℕ) → is_digit c ≡ true → IsPlain (c ∷ cs)
unfolding str_eq is_port is_connections is_threads is_help
IsPlain-digit c cs d =
    let e : (c == 45) ≡ false = ground arith in
    record {
      no_port = rw e refl;
      no_connections = rw e refl;
      no_threads = rw e refl;
      no_help = rw e refl;
    }

pub decimal-IsPlain : (n : ℕ) → IsPlain (decimal n)
decimal-IsPlain n = read (decimal n) (decimal-Digits n)
  where
    read : (cs : List ℕ) → Digits n cs → IsPlain cs
    read [] h = let (c, rest, e) = h.first in cc
    read (c ∷ cs) h = IsPlain-digit c cs h.all.0

pub option_skipped :
    (applies : Bool) (set : ℤ → Options → Options) (value : List ℕ) (o : Options)
    → applies ≡ false
    → read_option applies set value o ≡ some o
unfolding read_option
option_skipped applies set value o e = rw e refl

pub option_taken :
    (applies : Bool) (set : ℤ → Options → Options) (value : List ℕ) (z : ℤ) (o : Options)
    → applies ≡ true
    → stoi value ≡ some z
    → read_option applies set value o ≡ some (set z o)
unfolding read_option
option_taken applies set value z o e h = rw (e, h) refl

pub option_read :
    (applies : Bool) (set : ℤ → Options → Options) (n : ℕ) (o : Options)
    → applies ≡ true
    → n < 2 ^ 31
    → read_option applies set (decimal n) o ≡ some (set (pos n) o)
option_read applies set n o e h =
    option_taken applies set (decimal n) (pos n) o e (stoi-decimal n h)

module _ (hardware : ℕ) where
  -- The three readings of a pair, one after the other.
  pub parse_pair_from :
      (arg value : List ℕ) (o o₁ o₂ : Options)
      → read_option (is_port arg) set_port value o ≡ some o₁
      → read_option (is_connections arg) set_connections value o₁ ≡ some o₂
      → parse_pair hardware arg value o
        ≡ read_option (is_threads arg) (set_threads hardware) value o₂
  unfolding parse_pair
  parse_pair_from arg value o o₁ o₂ e f = rw (e, parse_pair, f) refl

  parse_pair-plain :
      (arg value : List ℕ) (o : Options) → IsPlain arg → parse_pair hardware arg value o ≡ some o
  parse_pair-plain arg value o p =
      parse_pair_from arg value o o o (option_skipped _ set_port value o p.no_port)
        (option_skipped _ set_connections value o p.no_connections)
      ∙ option_skipped _ (set_threads hardware) value o p.no_threads

  -- Where no help is asked for, the next pair is read with the options of this one.
  pub pair_read :
      (arg value : List ℕ) (args : List (List ℕ)) (o o' : Options)
      → parse_pair hardware arg value o ≡ some o'
      → is_help arg ≡ false
      → parse_arguments hardware (arg ∷ value ∷ args) o ≡ parse_arguments hardware (value ∷ args) o'
  unfolding parse_arguments
  pair_read arg value args o o' e h = rw (e, parse_arguments, h) refl

  pub plain_skipped :
      (arg value : List ℕ) (args : List (List ℕ)) (o : Options)
      → IsPlain arg
      → parse_arguments hardware (arg ∷ value ∷ args) o ≡ parse_arguments hardware (value ∷ args) o
  plain_skipped arg value args o p =
      pair_read arg value args o o (parse_pair-plain arg value o p) p.no_help

  -- What comes after a pair matters only by what is read of it.
  same_rest :
      (a b : List ℕ) (xs ys : List (List ℕ)) (o : Options)
      → ((o' : Options)
          → parse_arguments hardware (b ∷ xs) o' ≡ parse_arguments hardware (b ∷ ys) o')
      → parse_arguments hardware (a ∷ b ∷ xs) o ≡ parse_arguments hardware (a ∷ b ∷ ys) o
  unfolding parse_arguments
  same_rest a b xs ys o h = elim (Option-cases (parse_pair hardware a b o)) [
    | inl e ↦ rw (e, parse_arguments) refl
    | inr (o', e) ↦ rw (e, parse_arguments) (helps (is_help a) o')
  ]
    where
      helps :
          (b' : Bool) (o' : Options)
          → ◌≡◌ {A = Parsed}
              (elim b' [ true ↦ helped | false ↦ parse_arguments hardware (b ∷ xs) o' ])
              (elim b' [ true ↦ helped | false ↦ parse_arguments hardware (b ∷ ys) o' ])
      helps true o' = refl
      helps false o' = h o'

  -- The last argument is never taken for an option: where the one before it is none, the last may
  -- as well be left out.
  pub last_skipped :
      (args : List (List ℕ)) (arg last : List ℕ) (o : Options)
      → IsPlain arg
      → parse_arguments hardware (args ++ arg ∷ last ∷ []) o
        ≡ parse_arguments hardware (args ++ arg ∷ []) o
  unfolding parse_arguments
  last_skipped [] arg last o p = plain_skipped arg last [] o p
  last_skipped (a ∷ []) arg last o p =
      same_rest a arg (last ∷ []) [] o (λ o'. last_skipped [] arg last o' p)
  last_skipped (a ∷ b ∷ args) arg last o p =
      same_rest a b (args ++ arg ∷ last ∷ []) (args ++ arg ∷ []) o
        (λ o'. last_skipped (b ∷ args) arg last o' p)
