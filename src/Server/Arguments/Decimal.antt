-- ===== src/Server/Arguments/Decimal.antt =====
-- The numbers of the command line of main.cpp, written in decimal.
use worms2lobby_server_cpp.Base.{
  ℕ, zero, suc, ◌+◌, ◌-◌, ◌*◌, ◌/◌, ◌%◌, ◌^◌, ◌<◌, ◌≡◌, subst, refl, arith, ltb, ◌==◌, true, false,
  some, List, [], ◌∷◌, ◌++◌, All, Bool-cases, inl, inr,
}
use worms2lobby_server_cpp.Server.Stoi.{
  pos, is_space, is_digit, skip_spaces, digits, unsigned, positive, negative, negsuc, signed, stoi,
}

-- The decimal digits of a number, with fuel for them.
unfoldable pub decimal_with : ℕ → ℕ → List ℕ
decimal_with zero n = []
decimal_with (suc fuel) n = elim (ltb n 10) [
  | true ↦ (48 + n) ∷ []
  | false ↦ decimal_with fuel (n / 10) ++ (48 + n % 10) ∷ []
]

unfoldable pub decimal : ℕ → List ℕ
unfolding decimal_with
decimal n = decimal_with (suc n) n

digits_after :
    (n d : ℕ) (cs : List ℕ)
    → All (λ c. is_digit c ≡ true) cs
    → is_digit d ≡ true
    → digits n (cs ++ d ∷ []) ≡ digits n cs * 10 + (d - 48)
unfolding digits
digits_after n d [] a e = rw (e, digits) refl
digits_after n d (c ∷ cs) (b, a) e = rw (b, digits) (digits_after (n * 10 + (c - 48)) d cs a e)

All-after :
    (d : ℕ) (cs : List ℕ)
    → All (λ c. is_digit c ≡ true) cs
    → is_digit d ≡ true
    → All (λ c. is_digit c ≡ true) (cs ++ d ∷ [])
All-after d [] a e = (e, tt)
All-after d (c ∷ cs) (b, a) e = (b, All-after d cs a e)

-- Digits, of which there is one at least.
pub record Digits (n : ℕ) (cs : List ℕ) : Type 0 where
  pub all : All (λ c. is_digit c ≡ true) cs
  pub value : digits 0 cs ≡ n
  pub first : (c : ℕ) × (rest : List ℕ) × (cs ≡ c ∷ rest)

Digits-after :
    (n d : ℕ) (cs : List ℕ) → Digits n cs → d < 10 → Digits (n * 10 + d) (cs ++ (48 + d) ∷ [])
Digits-after n d cs h b = record {
  all = All-after (48 + d) cs h.all (ground arith);
  value = let e = digits_after 0 (48 + d) cs h.all (ground arith) in omega (arith, e, h.value);
  first = let (c, rest, e) = h.first in rw e (c, rest ++ (48 + d) ∷ [], refl);
}

decimal_with-Digits : (fuel n : ℕ) → n < fuel → Digits n (decimal_with fuel n)
unfolding decimal_with digits
decimal_with-Digits zero n b = absurd (omega arith)
decimal_with-Digits (suc fuel) n b = elim (Bool-cases (ltb n 10)) [
  | inl e ↦
      rw (e, decimal_with)
        (record {
          all = (ground arith, tt);
          value = let d : is_digit (48 + n) ≡ true = ground arith in rw (d, digits) (omega arith);
          first = (48 + n, [], refl);
        })
  | inr e ↦
      rw (e, decimal_with)
        (subst (λ m. Digits m (decimal_with fuel (n / 10) ++ (48 + n % 10) ∷ [])) (ground arith)
          (Digits-after (n / 10) (n % 10) _ (decimal_with-Digits fuel (n / 10) (ground arith))
            (omega arith)))
]

pub decimal-Digits : (n : ℕ) → Digits n (decimal n)
unfolding decimal
decimal-Digits n = decimal_with-Digits (suc n) n (omega arith)

unsigned_lem :
    (n c : ℕ) (cs : List ℕ) → is_digit c ≡ true → digits 0 (c ∷ cs) ≡ n → unsigned (c ∷ cs) ≡ some n
unfolding unsigned
unsigned_lem n c cs d e = rw (d, e) refl

started :
    (n c : ℕ) (cs : List ℕ)
    → n < 2 ^ 31
    → is_digit c ≡ true
    → digits 0 (c ∷ cs) ≡ n
    → stoi (c ∷ cs) ≡ some (pos n)
unfolding stoi skip_spaces signed positive
started n c cs b d e =
    let space : is_space c ≡ false = ground arith in
    let minus : (c == 45) ≡ false = ground arith in
    let plus : (c == 43) ≡ false = ground arith in
    let low : ltb n (2 ^ 31) ≡ true = ground arith in
    rw (space, minus, plus, unsigned_lem n c cs d e, positive, low) refl

-- An `int` that is not negative is read back from its decimal digits.
pub stoi-decimal : (n : ℕ) → n < 2 ^ 31 → stoi (decimal n) ≡ some (pos n)
stoi-decimal n b = read (decimal n) (decimal-Digits n)
  where
    read : (cs : List ℕ) → Digits n cs → stoi cs ≡ some (pos n)
    read [] h = let (c, rest, e) = h.first in cc
    read (c ∷ cs) h = started n c cs b h.all.0 h.value

unsigned-decimal : (n : ℕ) → unsigned (decimal n) ≡ some n
unsigned-decimal n = read (decimal n) (decimal-Digits n)
  where
    read : (cs : List ℕ) → Digits n cs → unsigned cs ≡ some n
    read [] h = let (c, rest, e) = h.first in cc
    read (c ∷ cs) h = unsigned_lem n c cs h.all.0 h.value

pub stoi-minus : (n : ℕ) → n < 2 ^ 31 → stoi (45 ∷ decimal (suc n)) ≡ some (negsuc n)
unfolding stoi skip_spaces signed negative
stoi-minus n b =
    let low : ltb n (2 ^ 31) ≡ true = ground arith in
    rw (unsigned-decimal (suc n), negative, low) refl
