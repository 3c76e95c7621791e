-- ===== src/Server/Stoi.antt =====
-- `std::stoi`, by which main.cpp reads the numbers of the command line, and the conversions of its
-- result.
use worms2lobby_server_cpp.Base.{
  ℕ, zero, suc, ◌+◌, ◌-◌, ◌*◌, ◌%◌, ◌^◌, ltb, leb, ◌==◌, Bool, true, false, ◌&&◌, ◌||◌,
  if◌then◌else◌, Option, none, some, List, [], ◌∷◌,
}

-- The integers over the native numbers: `negsuc n` is `-1 - n`.
pub data ℤ : Type 0 where
  pos : ℕ → ℤ
  negsuc : ℕ → ℤ

abbrev pub is_space : ℕ → Bool
is_space c = c == 32 || (leb 9 c && leb c 13)

abbrev pub is_digit : ℕ → Bool
is_digit c = leb 48 c && leb c 57

unfoldable pub skip_spaces : List ℕ → List ℕ
skip_spaces [] = []
skip_spaces (c ∷ cs) = if is_space c then skip_spaces cs else c ∷ cs

-- The digits up to the first other character, behind those that make `n`.
unfoldable pub digits : ℕ → List ℕ → ℕ
digits n [] = n
digits n (c ∷ cs) = elim (is_digit c) [ true ↦ digits (n * 10 + (c - 48)) cs | false ↦ n ]

-- A number without a sign. `none` is `std::invalid_argument`.
unfoldable pub unsigned : List ℕ → Option ℕ
unfolding digits
unsigned [] = none
unsigned (c ∷ cs) = if is_digit c then some (digits 0 (c ∷ cs)) else none

-- `none` stands for `std::invalid_argument` and for `std::out_of_range`: the number is no `int` of 32
-- bits.
unfoldable pub positive : List ℕ → Option ℤ
unfolding unsigned
positive cs = elim (unsigned cs) [
  | none ↦ none
  | some n ↦ if ltb n (2 ^ 31) then some (pos n) else none
]

unfoldable pub negative : List ℕ → Option ℤ
unfolding unsigned
negative cs = elim (unsigned cs) [
  | none ↦ none
  | some zero ↦ some (pos 0)
  | some (suc n) ↦ if ltb n (2 ^ 31) then some (negsuc n) else none
]

unfoldable pub signed : List ℕ → Option ℤ
unfolding positive negative
signed [] = none
signed (c ∷ cs) =
    if c == 45 then negative cs else if c == 43 then positive cs else positive (c ∷ cs)

unfoldable pub stoi : List ℕ → Option ℤ
unfolding skip_spaces signed
stoi text = signed (skip_spaces text)

-- `static_cast<uint16_t>` of an `int`, and its conversion to a `size_t` of 64 bits.
unfoldable pub to_u16 : ℤ → ℕ
to_u16 (pos n) = n % 2 ^ 16
to_u16 (negsuc n) = 2 ^ 16 - 1 - n % 2 ^ 16

unfoldable pub to_size : ℤ → ℕ
to_size (pos n) = n
to_size (negsuc n) = 2 ^ 64 - 1 - n
