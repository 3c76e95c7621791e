-- ===== src/Server/System/Members.antt =====
-- The sessions that serve users, as lists of the sessions of src/user_session.cpp that are alive.
use worms2lobby_server_cpp.Base.{
  ℕ, suc, ◌+◌, ◌≤◌, ◌≡◌, ◌≢◌, refl, ap, arith, List, [], ◌∷◌, ◌++◌, map, length, length-append, All,
}
use worms2lobby_server_cpp.Lobby.Entities.{User}
use worms2lobby_server_cpp.Lobby.Table.{count, put, erase, count-append}
use worms2lobby_server_cpp.Lobby.World.{World}
use worms2lobby_server_cpp.Lobby.Invariant.{IsLoggedIn}
use worms2lobby_server_cpp.Server.System.{
  Client, connected, member, finished, Without, here, there, Ends, unserved, over,
}

-- The identifiers of the users that the sessions serve.
abbrev pub member_id : Client → List ℕ
member_id (connected session) = []
member_id (member user) = user.id ∷ []
member_id (finished session) = []

abbrev pub member_ids : List Client → List ℕ
member_ids [] = []
member_ids (c ∷ cs) = member_id c ++ member_ids cs

abbrev pub Known : World → Client → Type 0
Known w (connected session) = Unit {0}
Known w (member user) = IsLoggedIn user w
Known w (finished session) = Unit {0}

module _ (c : Client) where
  pub length-Without : {cs rest : List Client} → Without c cs rest → length cs ≡ suc (length rest)
  length-Without (here cs) = refl
  length-Without (there d t) = ap suc (length-Without t)

  pub All-Without :
      (P : Client → Type 0) {cs rest : List Client}
      → Without c cs rest
      → All P cs
      → P c × All P rest
  All-Without P (here cs) (p, ps) = (p, ps)
  All-Without P (there d t) (p, ps) = let (q, qs) = All-Without P t ps in (q, (p, qs))

  pub count-Without :
      (k : ℕ) {cs rest : List Client}
      → Without c cs rest
      → count k (member_ids cs) ≡ count k (member_id c) + count k (member_ids rest)
  count-Without k (here cs) = count-append k (member_id c) (member_ids cs)
  count-Without k (there d {cs} {rest} t) = omega (
    arith,
    count-append k (member_id d) (member_ids cs),
    count-append k (member_id d) (member_ids rest),
    count-Without k t,
  )

  pub length_ids-Without :
      {cs rest : List Client}
      → Without c cs rest
      → length (member_ids cs) ≡ length (member_id c) + length (member_ids rest)
  length_ids-Without (here cs) = length-append (member_id c) (member_ids cs)
  length_ids-Without (there d {cs} {rest} t) = omega (
    arith,
    length-append (member_id d) (member_ids cs),
    length-append (member_id d) (member_ids rest),
    length_ids-Without t,
  )

pub length-member_ids : (cs : List Client) → length (member_ids cs) ≤ length cs
length-member_ids [] = omega arith
length-member_ids (connected session ∷ cs) = omega (arith, length-member_ids cs)
length-member_ids (member user ∷ cs) = omega (arith, length-member_ids cs)
length-member_ids (finished session ∷ cs) = omega (arith, length-member_ids cs)

-- The members but for one identifier.
abbrev pub IsOther : ℕ → Client → Type 0
IsOther id (connected session) = Unit {0}
IsOther id (member user) = id ≢ user.id
IsOther id (finished session) = Unit {0}

pub others : (id : ℕ) (cs : List Client) → count id (member_ids cs) ≡ 0 → All (IsOther id) cs
others id [] h = tt
others id (connected session ∷ cs) h = (tt, others id cs h)
others id (member user ∷ cs) h = (λ e. ground arith, others id cs (ground arith))
others id (finished session ∷ cs) h = (tt, others id cs h)

module _ {V : Type 0} (id : V → ℕ) where
  pub length-put :
      (v : V) (vs : List V) → count (id v) (map id vs) ≡ 0 → length (put id v vs) ≡ suc (length vs)
  unfolding put
  length-put v [] h = refl
  length-put v (u ∷ us) h = ground (arith, length-put v us)

  pub length-erase :
      (k : ℕ) (vs : List V) → length (erase id k vs) + count k (map id vs) ≡ length vs
  length-erase k [] = refl
  length-erase k (v ∷ vs) = ground (arith, length-erase k vs)

pub member_id-Ends : (c : Client) → Ends c → member_id c ≡ []
member_id-Ends _ (unserved session) = refl
member_id-Ends _ (over session) = refl

pub Known-map :
    (w v : World)
    → ((u : User) → IsLoggedIn u w → IsLoggedIn u v)
    → (c : Client) → Known w c
    → Known v c
Known-map w v f (connected session) k = tt
Known-map w v f (member user) k = f user k
Known-map w v f (finished session) k = tt
