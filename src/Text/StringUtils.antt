-- ===== src/Text/StringUtils.antt =====
-- include/string_utils.hpp. `std::tolower` is that of the "C" locale, in which the program runs; it is
-- taken to leave the bytes from 0x80 on alone, although a negative char is outside its domain.
use worms2lobby_server_cpp.Base.{
  ℕ, ◌+◌, leb, ◌==◌, Bool, true, false, ◌&&◌, if◌then◌else◌, List, [], ◌∷◌, map, length,
}

unfoldable pub to_lower : ℕ → ℕ
to_lower c = if leb b'A' c && leb c b'Z' then c + 32 else c

-- `std::ranges::equal` with the comparison of the lowered characters.
unfoldable pub equal_lowered : List ℕ → List ℕ → Bool
unfolding to_lower
equal_lowered [] [] = true
equal_lowered [] (y ∷ ys) = false
equal_lowered (x ∷ xs) [] = false
equal_lowered (x ∷ xs) (y ∷ ys) = to_lower x == to_lower y && equal_lowered xs ys

unfoldable pub equals_case_insensitive : List ℕ → List ℕ → Bool
unfolding equal_lowered
equals_case_insensitive a b = if length a == length b then equal_lowered a b else false

-- The conversion of a byte to a char and into a string keeps its value.
abbrev pub from_bytes : List ℕ → List ℕ
from_bytes bytes = map (λ byte. byte) bytes

-- A `std::string` that is made from `std::string_view::data()`, a C string: it ends at the first NUL.
unfoldable pub c_string : List ℕ → List ℕ
c_string [] = []
c_string (c ∷ cs) = if c == 0 then [] else c ∷ c_string cs
