-- ===== src/Lobby/Names.antt =====
-- Names that clash: those of the users, which src/user_session.cpp tests, and those of the rooms,
-- which src/packet_handler.cpp tests.
use worms2lobby_server_cpp.Base.{
  ℕ, ◌≡◌, refl, arith, ◌==◌, Bool, false, List, [], ◌∷◌, ◌++◌, map, All, Bool-cases, inl, inr,
}
use worms2lobby_server_cpp.Text.StringUtils.{equals_case_insensitive}
use worms2lobby_server_cpp.Lobby.Entities.{User, Room}
use worms2lobby_server_cpp.Lobby.Table.{count, put, erase}
use worms2lobby_server_cpp.Lobby.Handler.Rooms.{has_room_named}

-- No two entries clash, each with those after it.
abbrev pub Distinct : {V : Type 0} (clash : V → V → Bool) → List V → Type 0
Distinct clash [] = Unit {0}
Distinct clash (v ∷ vs) = All (λ u. clash v u ≡ false) vs × Distinct clash vs

-- Names that differ in the case of letters only clash.
abbrev pub same_user_name : User → User → Bool
same_user_name u v = equals_case_insensitive u.name v.name

abbrev pub same_room_name : Room → Room → Bool
same_room_name r s = equals_case_insensitive s.name r.name

module _ {V : Type 0} (id : V → ℕ) where
  pub All-erase : (P : V → Type 0) (k : ℕ) (vs : List V) → All P vs → All P (erase id k vs)
  All-erase P k [] h = tt
  All-erase P k (v ∷ vs) (h, hs) = elim (Bool-cases (id v == k)) [
    | inl e ↦ rw e (All-erase P k vs hs)
    | inr e ↦ rw e (h, All-erase P k vs hs)
  ]

  put-absent : (v : V) (vs : List V) → count (id v) (map id vs) ≡ 0 → put id v vs ≡ vs ++ v ∷ []
  unfolding put
  put-absent v [] h = refl
  put-absent v (u ∷ us) h = ground (arith, put-absent v us)

  module _ (clash : V → V → Bool) where
    last-All :
        (v u : V) (us : List V)
        → clash v u ≡ false
        → All (λ w. clash v w ≡ false) us
        → All (λ w. clash v w ≡ false) (us ++ u ∷ [])
    last-All v u [] f h = (f, tt)
    last-All v u (w ∷ ws) f (h, hs) = (h, last-All v u ws f hs)

    append-Distinct :
        (u : V) (us : List V)
        → Distinct clash us
        → All (λ v. clash v u ≡ false) us
        → Distinct clash (us ++ u ∷ [])
    append-Distinct u [] h f = (tt, tt)
    append-Distinct u (v ∷ us) (h, hs) (f, fs) = (last-All v u us f h, append-Distinct u us hs fs)

    -- A new entry that clashes with none.
    pub put-Distinct :
        (v : V) (vs : List V)
        → count (id v) (map id vs) ≡ 0
        → Distinct clash vs
        → All (λ u. clash u v ≡ false) vs
        → Distinct clash (put id v vs)
    put-Distinct v vs n h f = rw (put-absent v vs n) (append-Distinct v vs h f)

    pub erase-Distinct : (k : ℕ) (vs : List V) → Distinct clash vs → Distinct clash (erase id k vs)
    erase-Distinct k [] h = tt
    erase-Distinct k (v ∷ vs) (h, hs) = elim (Bool-cases (id v == k)) [
      | inl e ↦ rw e (erase-Distinct k vs hs)
      | inr e ↦ rw e (All-erase _ k vs h, erase-Distinct k vs hs)
    ]

pub free_room_name :
    (name : List ℕ) (rooms : List Room)
    → has_room_named name rooms ≡ false
    → All (λ r. equals_case_insensitive name r.name ≡ false) rooms
free_room_name name [] h = tt
free_room_name name (r ∷ rooms) h = (ground arith, free_room_name name rooms (ground arith))
