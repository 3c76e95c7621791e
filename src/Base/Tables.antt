-- ===== src/Base/Tables.antt =====
-- Facts about small ranges, checked by evaluating every case.
use Prim.Native.Nat.{ℕ, zero, suc, ◌<◌}
use mathlib.Core.Path.{◌≡◌}
use mathlib.Core.Bool.{Bool, true, false, ◌&&◌}
use mathlib.Core.List.{List, [], ◌∷◌}
use native.Mathlib.Omega.{arith}
use native.Mathlib.Decide.{dec_lt}
use worms2lobby_server_cpp.Base.Tests.{if◌then◌else◌}
use worms2lobby_server_cpp.Base.Lists.{length}

-- The test `p` for `count` numbers, the last one first.
unfoldable pub passes_all : (ℕ → Bool) → ℕ → Bool
passes_all p zero = true
passes_all p (suc count) = if p count then passes_all p count else false

pub passes_all_lem :
    (p : ℕ → Bool) (count : ℕ) → passes_all p count ≡ true → (k : ℕ) → k < count → p k ≡ true
unfolding passes_all
passes_all_lem p zero run k below = absurd (omega arith)
passes_all_lem p (suc count) run k below = elim (dec_lt k count) [
  | yes less ↦ passes_all_lem p count (ground arith) k less
  | no same ↦ let e : k ≡ count = omega arith in rw e (ground arith)
]

-- Every list of a given number of flags.
unfoldable pub all_bools : ℕ → (List Bool → Bool) → Bool
all_bools zero p = p []
all_bools (suc n) p = all_bools n (λ bs. p (true ∷ bs)) && all_bools n (λ bs. p (false ∷ bs))

&&_left : (a b : Bool) → (a && b) ≡ true → a ≡ true
&&_left a b h = ground arith

&&_right : (a b : Bool) → (a && b) ≡ true → b ≡ true
&&_right a b h = ground arith

pub all_bools_sound :
    (n : ℕ) (p : List Bool → Bool) (bs : List Bool)
    → all_bools n p ≡ true
    → length bs ≡ n
    → p bs ≡ true
unfolding all_bools
all_bools_sound zero p [] h e = h
all_bools_sound zero p (b ∷ bs) h e = absurd (omega arith)
all_bools_sound (suc n) p [] h e = absurd (omega arith)
all_bools_sound (suc n) p (true ∷ bs) h e =
    all_bools_sound n (λ cs. p (true ∷ cs)) bs (&&_left _ _ h) (omega arith)
all_bools_sound (suc n) p (false ∷ bs) h e =
    all_bools_sound n (λ cs. p (false ∷ cs)) bs (&&_right _ _ h) (omega arith)
