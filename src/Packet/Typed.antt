-- ===== src/Packet/Typed.antt =====
-- What `WormsPacket::readFrom` of src/worms_packet.cpp promises of the packets that it reads, and the
-- rules for its steps.
pub mod Reads
pub mod Packets
use worms2lobby_server_cpp.Base.{
  ℕ, ◌+◌, ◌≤◌, ◌<◌, ◌≡◌, refl, sym, subst, arith, leb, leb→le, Bool, true, false, Option, none,
  some, List, All, length, Bool-cases, inl, inr, if◌then◌else◌,
}
use native.Mathlib.Nat.{add-zero}
use worms2lobby_server_cpp.Packet.Io.{
  PacketIo, ParseResult, ParseError, complete, partial, error, fault, and_then, Parser, ◌>>=◌, ◌>>◌,
  pure, fail, check, need,
}
use worms2lobby_server_cpp.Packet.Rules.{need_enough, need_few}

abbrev pub AreBytes : List ℕ → Type 0
AreBytes = All (λ b. b < 256)

-- A field that is there exactly when its flag says so, with a value in `P`.
pub data Follows {A : Type 0} (P : A → Type 0) : Bool → Option A → Type 0 where
  absent : Follows P false none
  present : (a : A) → P a → Follows P true (some a)

module _ {A : Type 0} (P : A → Type 0) where
  -- What is read is in `P`, and the rest are bytes.
  abbrev pub Given : ParseResult A → Type 0
  Given (complete a t) = P a × AreBytes t
  Given partial = Unit {0}
  Given (error e) = Unit {0}
  Given fault = Unit {0}

  abbrev pub Gives : Parser A → Type 0
  Gives p = (s : List ℕ) → AreBytes s → Given (p s)

  -- The same where exactly `n` bytes are taken of those that are there.
  abbrev pub GivenBy : ℕ → List ℕ → ParseResult A → Type 0
  GivenBy n s (complete a t) = P a × AreBytes t × (length s ≡ n + length t)
  GivenBy n s partial = Unit {0}
  GivenBy n s (error e) = Unit {0}
  GivenBy n s fault = Unit {0}

  abbrev pub GivesBy : ℕ → Parser A → Type 0
  GivesBy n p = (s : List ℕ) → AreBytes s → n ≤ length s → GivenBy n s (p s)

module _ {A B : Type 0} (Q : A → Type 0) (R : B → Type 0) where
  Given-bind :
      (r : ParseResult A) (f : A → Parser B)
      → Given Q r
      → ((a : A) → Q a → Gives R (f a))
      → Given R (and_then r f)
  Given-bind (complete a t) f (q, h) k = k a q t h
  Given-bind partial f h k = tt
  Given-bind (error e) f h k = tt
  Given-bind fault f h k = tt

  pub Gives-bind :
      (p : Parser A) (f : A → Parser B)
      → Gives Q p
      → ((a : A) → Q a → Gives R (f a))
      → Gives R (p >>= f)
  Gives-bind p f h k s b = Given-bind (p s) f (h s b) k

  GivenBy-bind :
      (m n : ℕ) (s : List ℕ) (r : ParseResult A) (f : A → Parser B)
      → GivenBy Q m s r
      → ((a : A) → Q a → GivesBy R n (f a))
      → m + n ≤ length s
      → GivenBy R (m + n) s (and_then r f)
  GivenBy-bind m n s (complete a t) f (q, h, e) k b = more (f a t) (k a q t h (omega arith))
    where
      more : (r : ParseResult B) → GivenBy R n t r → GivenBy R (m + n) s r
      more (complete c u) (g, hu, d) = (g, hu, omega arith)
      more partial g = tt
      more (error x) g = tt
      more fault g = tt
  GivenBy-bind m n s partial f h k b = tt
  GivenBy-bind m n s (error e) f h k b = tt
  GivenBy-bind m n s fault f h k b = tt

  pub GivesBy-bind :
      (m n : ℕ) (p : Parser A) (f : A → Parser B)
      → GivesBy Q m p
      → ((a : A) → Q a → GivesBy R n (f a))
      → GivesBy R (m + n) (p >>= f)
  GivesBy-bind m n p f h k s b l = GivenBy-bind m n s (p s) f (h s b (omega arith)) k l

  -- A last step that takes nothing more.
  pub GivesBy-then :
      (m : ℕ) (p : Parser A) (f : A → Parser B)
      → GivesBy Q m p
      → ((a : A) → Q a → GivesBy R 0 (f a))
      → GivesBy R m (p >>= f)
  GivesBy-then m p f h k =
      subst (λ n. GivesBy R n (p >>= f)) (add-zero m) (GivesBy-bind m 0 p f h k)

module _ {A : Type 0} (P : A → Type 0) where
  pub pure-GivesBy : (a : A) → P a → GivesBy P 0 (pure a)
  pure-GivesBy a p s b l = (p, b, omega arith)

  pub GivesBy-check :
      (n : ℕ) (b : Bool) (e : ParseError) (p : Parser A)
      → (b ≡ true → GivesBy P n p)
      → GivesBy P n (check b e >> p)
  unfolding check
  GivesBy-check n true e p h s b l = h refl s b l
  GivesBy-check n false e p h s b l = tt

  pub GivesBy-verdict :
      (b : Bool) (a : A) (e : ParseError)
      → (b ≡ true → P a)
      → GivesBy P 0 (if b then pure a else fail e)
  GivesBy-verdict true a e h s b l = (h refl, b, omega arith)
  GivesBy-verdict false a e h s b l = tt

  pub Gives-check :
      (b : Bool) (e : ParseError) (p : Parser A) → (b ≡ true → Gives P p) → Gives P (check b e >> p)
  unfolding check
  Gives-check true e p h s b = h refl s b
  Gives-check false e p h s b = tt

  Given-of_GivenBy : (n : ℕ) (s : List ℕ) (r : ParseResult A) → GivenBy P n s r → Given P r
  Given-of_GivenBy n s (complete a t) (p, h, e) = (p, h)
  Given-of_GivenBy n s partial h = tt
  Given-of_GivenBy n s (error e) h = tt
  Given-of_GivenBy n s fault h = tt

  -- A guarded body.
  pub need-Gives : (io : PacketIo) (n : ℕ) (p : Parser A) → GivesBy P n p → Gives P (need io n >> p)
  need-Gives io n p h s b = elim (Bool-cases (leb n (length s))) [
    | inl e ↦
        let l : n ≤ length s = leb→le _ _ e in
        rw (need_enough io n s l) (Given-of_GivenBy n s (p s) (h s b l))
    | inr e ↦ let l : length s < n = ground arith in rw (need_few io n s l) tt
  ]

  -- A block under a flag.
  pub flag-Gives :
      (b : Bool) (p : Parser A)
      → Gives P p
      → Gives (Follows P b) (if b then (p >>= λ v. pure (some v)) else pure none)
  flag-Gives true p h s b =
      Given-bind P (Follows P true) (p s) (λ v. pure (some v)) (h s b) (λ a q t c. (present a q, c))
  flag-Gives false p h s b = (absent, b)
