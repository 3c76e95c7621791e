-- ===== src/Lobby/Table.antt =====
-- A `std::unordered_map` from identifiers to objects that know their identifier, as src/database.cpp
-- keeps three of them. The list holds the objects in the order in which a traversal meets them.
use worms2lobby_server_cpp.Base.{
  ℕ, ◌+◌, ◌≡◌, refl, arith, ◌==◌, not, if◌then◌else◌, Option, List, [], ◌∷◌, ◌++◌, map, find_if,
  filter,
}

-- How often a number stands in a list.
abbrev pub count : ℕ → List ℕ → ℕ
count k [] = 0
count k (x ∷ xs) = (if x == k then 1 else 0) + count k xs

pub count-append : (k : ℕ) (xs ys : List ℕ) → count k (xs ++ ys) ≡ count k xs + count k ys
count-append k [] ys = omega arith
count-append k (x ∷ xs) ys = omega (arith, count-append k xs ys)

module _ {V : Type 0} (id : V → ℕ) where
  abbrev pub find : ℕ → List V → Option V
  find k = find_if (λ v. id v == k)

  -- `table[id] = v`
  unfoldable pub put : V → List V → List V
  put v [] = v ∷ []
  put v (u ∷ us) = if id u == id v then v ∷ us else u ∷ put v us

  abbrev pub erase : ℕ → List V → List V
  erase k = filter (λ v. not (id v == k))

  pub count-put :
      (k : ℕ) (v : V) (us : List V)
      → count (id v) (map id us) ≡ 0
      → count k (map id (put v us)) ≡ (if id v == k then 1 else 0) + count k (map id us)
  unfolding put
  count-put k v [] h = refl
  count-put k v (u ∷ us) h = ground (arith, count-put k v us)

  pub count-erase :
      (k : ℕ) (j : ℕ) (us : List V)
      → count k (map id (erase j us)) ≡ (if j == k then 0 else count k (map id us))
  count-erase k j [] = ground arith
  count-erase k j (u ∷ us) = ground (arith, count-erase k j us)
